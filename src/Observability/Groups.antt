-- ===== src/Observability/Groups.antt =====
-- The breakdowns of app/services/observability.py are partitions of the rows.
use mathlib.Core.List.{append-nil, append_assoc}
use syn.Common.{
  ℕ, suc, ◌+◌, ◌≤◌, ◌≡◌, refl, sym, ◌∙◌, ap, subst, ◌↔◌, inl, inr, Bool, true, false, List, [], ◌∷◌,
  ◌++◌, arith, All, if◌then◌else◌, length, length-append, count_if, ◌==◌, select, select-append,
  Bool-cases,
}
use syn.Usage.{UsageRecord}
use syn.Observability.Order.{sum_by}
use syn.Observability.{add_row, group_rows}

-- The number of rows in groups.
abbrev pub total_rows {ℓ} : {K : Type ℓ} → List (K × List UsageRecord) → ℕ
total_rows groups = sum_by (λ g. length g.1) groups

length-zero {ℓ} : {A : Type ℓ} (xs : List A) → length xs ≡ 0 → xs ≡ []
length-zero [] h = refl
length-zero (x ∷ xs) h = absurd (omega (arith, h))

module _ {ℓ} {K : Type ℓ} (same : K → K → Bool) (key : UsageRecord → K) where
  -- The number of groups of a key.
  abbrev pub groups_of {κ} : {V : Type κ} → K → List (K × V) → ℕ
  groups_of k groups = count_if (λ g. same g.0 k) groups

  -- The rows of a key, in order.
  abbrev pub rows_of : List UsageRecord → K → List UsageRecord
  rows_of rows k = select (λ r. same k (key r)) rows

  abbrev pub Matches : List UsageRecord → K × List UsageRecord → Type 0
  Matches rows (k, rs) = rs ≡ rows_of rows k

  module _ (same_iff : (a b : K) → (same a b ≡ true) ↔ (a ≡ b)) (done : List UsageRecord)
      (r : UsageRecord) where
    rows_of-same :
        (k : K) → same k (key r) ≡ true → rows_of (done ++ r ∷ []) k ≡ rows_of done k ++ r ∷ []
    rows_of-same k h = rw (select-append (λ q. same k (key q)) done (r ∷ []), h) refl

    rows_of-other : (k : K) → same k (key r) ≡ false → rows_of (done ++ r ∷ []) k ≡ rows_of done k
    rows_of-other k h =
        rw (select-append (λ q. same k (key q)) done (r ∷ []), h) (append-nil (rows_of done k))

    -- Groups of other keys are left alone.
    untouched :
        (groups : List (K × List UsageRecord))
        → groups_of (key r) groups ≡ 0
        → All (Matches done) groups
        → All (Matches (done ++ r ∷ [])) groups
    untouched [] n a = tt
    untouched ((k, rs) ∷ groups) n a = elim (Bool-cases (same k (key r))) [
      | inl e ↦ absurd (ground (arith, n, e))
      | inr e ↦ (a.0 ∙ sym (rows_of-other k e), untouched groups (ground (arith, n, e)) a.1)
    ]

    add_row-Matches :
        (groups : List (K × List UsageRecord))
        → groups_of (key r) groups ≤ 1
        → All (Matches done) groups
        → (groups_of (key r) groups ≡ 0 → rows_of done (key r) ≡ [])
        → All (Matches (done ++ r ∷ [])) (add_row same key r groups)
    unfolding add_row
    add_row-Matches [] d a n = (
      sym (
          rows_of-same (key r) ((same_iff (key r) (key r)).1 refl)
          ∙ ap (λ rs. rs ++ r ∷ []) (n refl)),
      tt,
    )
    add_row-Matches ((k, rs) ∷ groups) d a n = elim (Bool-cases (same k (key r))) [
      | inl e ↦ rw e (
        ap (λ qs. qs ++ r ∷ []) a.0 ∙ sym (rows_of-same k e),
        untouched groups (ground (arith, d, e)) a.1,
      )
      | inr e ↦ rw e (
        a.0 ∙ sym (rows_of-other k e),
        add_row-Matches groups (ground (arith, d, e)) a.1 (λ h. n (rw e h)),
      )
    ]

    groups_of-add_row :
        (k : K) (groups : List (K × List UsageRecord))
        → groups_of k (add_row same key r groups)
          ≡ groups_of k groups
            + (if groups_of (key r) groups == 0 then if same (key r) k then 1 else 0 else 0)
    unfolding add_row
    groups_of-add_row k [] = ground arith
    groups_of-add_row k ((j, rs) ∷ groups) = elim (Bool-cases (same j (key r))) [
      | inl e ↦ rw e (ground (arith))
      | inr e ↦ rw e (ground (arith, groups_of-add_row k groups))
    ]

    same_sym : (k : K) → same k (key r) ≡ same (key r) k
    same_sym k = elim (Bool-cases (same k (key r))) [
      | inl e ↦ e ∙ sym ((same_iff (key r) k).1 (sym ((same_iff k (key r)).0 e)))
      | inr e ↦ elim (Bool-cases (same (key r) k)) [
        | inl h ↦
            absurd (ground (arith, e, (same_iff k (key r)).1 (sym ((same_iff (key r) k).0 h))))
        | inr h ↦ e ∙ sym h
      ]
    ]

    length-rows_of :
        (k : K)
        → length (rows_of (done ++ r ∷ []) k)
          ≡ length (rows_of done k) + (if same (key r) k then 1 else 0)
    length-rows_of k = elim (Bool-cases (same k (key r))) [
      | inl e ↦
          rw (rows_of-same k e)
            (ground (arith, length-append (rows_of done k) (r ∷ []), same_sym k, e))
      | inr e ↦ rw (rows_of-other k e) (ground (arith, same_sym k, e))
    ]

    total_rows-add_row :
        (groups : List (K × List UsageRecord))
        → total_rows (add_row same key r groups) ≡ suc (total_rows groups)
    unfolding add_row
    total_rows-add_row [] = omega arith
    total_rows-add_row ((k, rs) ∷ groups) =
        ground (arith, total_rows-add_row groups, length-append rs (r ∷ []))

  -- A key has one group when it has rows, and else none.
  abbrev pub OneGroup {κ} : {V : Type κ} → List UsageRecord → List (K × V) → Type ℓ
  OneGroup rows groups =
      (k : K) → groups_of k groups ≡ (if length (rows_of rows k) == 0 then 0 else 1)

  -- What the loop over the rows keeps: each group has the rows of its key, in order.
  pub record Grouped (done : List UsageRecord) (groups : List (K × List UsageRecord)) : Type ℓ where
    pub matches : All (Matches done) groups
    pub one_group : OneGroup done groups
    pub counted : total_rows groups ≡ length done

  module _ (same_iff : (a b : K) → (same a b ≡ true) ↔ (a ≡ b)) where
    add_row-OneGroup :
        (done : List UsageRecord) (r : UsageRecord) (groups : List (K × List UsageRecord))
        → OneGroup done groups
        → OneGroup (done ++ r ∷ []) (add_row same key r groups)
    add_row-OneGroup done r groups one k = elim (Bool-cases (same (key r) k)) [
      | inl e ↦
          let k' : key r ≡ k = (same_iff (key r) k).0 e in
          let here : groups_of (key r) groups ≡ groups_of k groups =
            ap (λ j. groups_of j groups) k' in
          ground (
            arith,
            groups_of-add_row same_iff done r k groups,
            length-rows_of same_iff done r k,
            one k,
            here,
            e,
          )
      | inr e ↦ ground (
        arith,
        groups_of-add_row same_iff done r k groups,
        length-rows_of same_iff done r k,
        one k,
        e,
      )
    ]

    add_row-Grouped :
        (done : List UsageRecord) (r : UsageRecord) (groups : List (K × List UsageRecord))
        → Grouped done groups
        → Grouped (done ++ r ∷ []) (add_row same key r groups)
    add_row-Grouped done r groups g = record {
      matches =
          add_row-Matches same_iff done r groups (ground (arith, g.one_group (key r))) g.matches
            (λ h. length-zero (rows_of done (key r)) (ground (arith, g.one_group (key r), h)));
      one_group = add_row-OneGroup done r groups g.one_group;
      counted = omega (
        arith,
        total_rows-add_row same_iff done r groups,
        length-append done (r ∷ []),
        g.counted,
      );
    }

    pub group_rows-Grouped :
        (done rows : List UsageRecord) (groups : List (K × List UsageRecord))
        → Grouped done groups
        → Grouped (done ++ rows) (group_rows same key rows groups)
    unfolding group_rows
    group_rows-Grouped done [] groups g = rw (append-nil done) g
    group_rows-Grouped done (r ∷ rows) groups g =
        subst (λ d. Grouped d (group_rows same key (r ∷ rows) groups))
          (append_assoc done (r ∷ []) rows)
          (group_rows-Grouped (done ++ r ∷ []) rows (add_row same key r groups)
            (add_row-Grouped done r groups g))
