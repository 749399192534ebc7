-- ===== src/Observability/Breakdowns.antt =====
-- The three breakdowns of app/services/observability.py partition the rows of the period.
use syn.Common.{
  ℕ, ◌≤◌, ◌≡◌, refl, ◌∙◌, ap, ◌↔◌, String, Bool, true, Option, none, some, List, [], ◌∷◌, map,
  arith, All, str_eq, str_eq_iff, if◌then◌else◌, length, count_if, ◌==◌,
}
use syn.Usage.{UsageRecord}
use syn.Observability.Order.{
  greatest_first, sum_by, Descending, All-greatest_first, greatest_first-Descending,
  sum_by-greatest_first, count_if-greatest_first,
}
use syn.Observability.Groups.{rows_of, Matches, groups_of, Grouped, total_rows, group_rows-Grouped}
use syn.Observability.{
  Breakdown, range, rows_in, group_rows, largest_first, breakdown_entry, breakdown, same_column,
  client_breakdown, model_breakdown, backend_breakdown,
}

module _ {ℓ} {K : Type ℓ} (same : K → K → Bool) (key : UsageRecord → K)
    (rows : List UsageRecord) where
  -- The entries describe a partition of the rows by their keys.
  pub record IsPartition (entries : List (Breakdown K)) : Type ℓ where
    -- Each entry has the numbers of the rows of its key.
    pub described : All (λ b. b ≡ breakdown_entry (b.group, rows_of same key rows b.group)) entries
    -- A key that rows have has one entry, and others have none.
    pub one_entry :
        (k : K)
        → count_if (λ b. same b.group k) entries
          ≡ (if length (rows_of same key rows k) == 0 then 0 else 1)
    -- The requests of the entries are the rows.
    pub counted : sum_by (λ b. b.requests) entries ≡ length rows
    pub descending : Descending (λ b. b.requests) entries

  described-map :
      (groups : List (K × List UsageRecord))
      → All (Matches same key rows) groups
      → All
          (λ b. b ≡ breakdown_entry (b.group, rows_of same key rows b.group))
          (map breakdown_entry groups)
  unfolding breakdown_entry
  described-map [] a = tt
  described-map ((k, rs) ∷ groups) a =
      (ap (λ qs. breakdown_entry (k, qs)) a.0, described-map groups a.1)

module _ {ℓ} {K : Type ℓ} where
  count_if-entries :
      (same : K → K → Bool) (key : UsageRecord → K) (k : K) (groups : List (K × List UsageRecord))
      → count_if (λ b. same b.group k) (map breakdown_entry groups) ≡ groups_of same key k groups
  unfolding breakdown_entry
  count_if-entries same key k [] = refl
  count_if-entries same key k ((j, rs) ∷ groups) =
      ground (arith, count_if-entries same key k groups)

  sum_by-entries :
      (groups : List (K × List UsageRecord))
      → sum_by (λ b. b.requests) (map breakdown_entry groups) ≡ total_rows groups
  unfolding breakdown_entry
  sum_by-entries [] = refl
  sum_by-entries ((k, rs) ∷ groups) = omega (arith, sum_by-entries groups)

  All-entries :
      (n : ℕ) (groups : List (K × List UsageRecord))
      → All (λ g. length g.1 ≤ n) groups
      → All (λ b. b.requests ≤ n) (map breakdown_entry groups)
  unfolding breakdown_entry
  All-entries n [] a = tt
  All-entries n ((k, rs) ∷ groups) a = (a.0, All-entries n groups a.1)

  Descending-entries :
      (groups : List (K × List UsageRecord))
      → Descending (λ g. length g.1) groups
      → Descending (λ b. b.requests) (map breakdown_entry groups)
  unfolding breakdown_entry
  Descending-entries [] d = tt
  Descending-entries ((k, rs) ∷ groups) d =
      (All-entries (length rs) groups d.0, Descending-entries groups d.1)

  breakdown-IsPartition :
      (same : K → K → Bool) (key : UsageRecord → K)
      → ((a b : K) → (same a b ≡ true) ↔ (a ≡ b))
      → (rows : List UsageRecord) → IsPartition same key rows (breakdown same key rows)
  unfolding breakdown largest_first
  breakdown-IsPartition same key same_iff rows =
      let groups = group_rows same key rows [] in
      let g : Grouped same key rows groups =
        group_rows-Grouped same key same_iff [] rows []
          (record { matches = tt; one_group = λ k. refl; counted = refl }) in
      let rank : K × List UsageRecord → ℕ = λ h. length h.1 in
      let sorted = greatest_first rank groups in
      record {
        described =
            described-map same key rows sorted
              (All-greatest_first rank (Matches same key rows) groups g.matches);
        one_entry = λ k.
            count_if-entries same key k sorted
            ∙ count_if-greatest_first rank (λ h. same h.0 k) groups
            ∙ g.one_group k;
        counted = sum_by-entries sorted ∙ sum_by-greatest_first rank rank groups ∙ g.counted;
        descending = Descending-entries sorted (greatest_first-Descending rank groups);
      }

same_column_iff : (a b : Option String) → (same_column a b ≡ true) ↔ (a ≡ b)
unfolding same_column
same_column_iff none none = (λ h. refl, λ h. refl)
same_column_iff none (some y) = (λ h. absurd (ground (arith, h)), λ h. absurd (ground (arith, h)))
same_column_iff (some x) none = (λ h. absurd (ground (arith, h)), λ h. absurd (ground (arith, h)))
same_column_iff (some x) (some y) =
    (λ h. ap (λ s. some s) ((str_eq_iff x y).0 h), λ h. (str_eq_iff x y).1 (ground (arith, h)))

-- The breakdowns by client, model and backend each partition the rows of the period: an entry has
-- the request count, the outcome counts and the tokens of the rows of its key, each key that rows
-- of the period have, NULL among them, has one entry and other keys none, the requests of the
-- entries add up to the number of the rows, and entries of more requests stand first.
pub breakdowns-IsPartition :
    (day now : ℕ) (table : List UsageRecord) (since until : Option ℕ)
    → (let rows = rows_in (range day now since until) table in
        IsPartition same_column (λ r. r.client_id) rows (client_breakdown day now table since until)
        × IsPartition str_eq (λ r. r.model) rows (model_breakdown day now table since until)
        × IsPartition same_column
            (λ r. r.backend_id)
            rows
            (backend_breakdown day now table since until))
unfolding client_breakdown model_breakdown backend_breakdown
breakdowns-IsPartition day now table since until =
    let rows = rows_in (range day now since until) table in
    (
      breakdown-IsPartition same_column (λ r. r.client_id) same_column_iff rows,
      breakdown-IsPartition str_eq (λ r. r.model) str_eq_iff rows,
      breakdown-IsPartition same_column (λ r. r.backend_id) same_column_iff rows,
    )
