-- ===== src/Admin/Policies/Updates.antt =====
-- What an update of a client's policy in app/api/admin.py changes, and what it leaves.
use syn.Common.{
  String, ◌≡◌, refl, sym, ◌∙◌, ap, true, false, inl, inr, List, [], ◌∷◌, map, arith, str_eq,
  str_eq_iff, Bool-cases,
}
use syn.Errors.{Result, ok, err, ◌>>=◌}
use syn.Admin.{Client, Database, find, found_or, get_client}
use syn.Admin.Creation.{find-id}
use syn.Admin.Policies.{
  ClientPolicyUpdate, updated_limits, policy_out, get_client_policy, updated_row, update_found,
  update_client_policy,
}

updated_row-id :
    (client_id : String) (body : ClientPolicyUpdate) (c : Client)
    → (updated_row client_id body c).id ≡ c.id
unfolding updated_row
updated_row-id client_id body c = ground arith

updated_row-other :
    (client_id : String) (body : ClientPolicyUpdate) (c : Client)
    → str_eq c.id client_id ≡ false
    → updated_row client_id body c ≡ c
unfolding updated_row
updated_row-other client_id body c h = rw h refl

updated_row-own :
    (client_id : String) (body : ClientPolicyUpdate) (c : Client)
    → c.id ≡ client_id
    → updated_row client_id body c ≡ record c { limits = updated_limits body c.limits }
unfolding updated_row
updated_row-own client_id body c h =
    let same : str_eq c.id client_id ≡ true = (str_eq_iff c.id client_id).1 h in rw same refl

-- What is found among the updated rows.
updated_result : String → ClientPolicyUpdate → Result Client → Result Client
updated_result client_id body (ok c) = ok (updated_row client_id body c)
updated_result client_id body (err e) = err e

find-updated :
    (client_id id code : String) (body : ClientPolicyUpdate) (cs : List Client)
    → found_or code (find (λ (c : Client). str_eq c.id id) (map (updated_row client_id body) cs))
      ≡ updated_result client_id body (found_or code (find (λ (c : Client). str_eq c.id id) cs))
unfolding find updated_result
find-updated client_id id code body [] = refl
find-updated client_id id code body (c ∷ cs) = elim (Bool-cases (str_eq c.id id)) [
  | inl e ↦ rw (ap (λ i. str_eq i id) (updated_row-id client_id body c), e) refl
  | inr e ↦
      rw (ap (λ i. str_eq i id) (updated_row-id client_id body c), e)
        (find-updated client_id id code body cs)
]

-- Another client is found as before.
updated_result-other :
    (client_id id code : String) (body : ClientPolicyUpdate) (cs : List Client)
    → ¬ (id ≡ client_id)
    → updated_result client_id body (found_or code (find (λ (c : Client). str_eq c.id id) cs))
      ≡ found_or code (find (λ (c : Client). str_eq c.id id) cs)
unfolding find updated_result
updated_result-other client_id id code body [] n = refl
updated_result-other client_id id code body (c ∷ cs) n = elim (Bool-cases (str_eq c.id id)) [
  | inl e ↦ rw e (ap (λ x. ok x) (updated_row-other client_id body c (apart c e)))
  | inr e ↦ rw e (updated_result-other client_id id code body cs n)
]
  where
    apart : (c : Client) → str_eq c.id id ≡ true → str_eq c.id client_id ≡ false
    apart c e = elim (Bool-cases (str_eq c.id client_id)) [
      | inl h ↦ absurd (n (sym ((str_eq_iff c.id id).0 e) ∙ (str_eq_iff c.id client_id).0 h))
      | inr h ↦ h
    ]

-- An update of an existing client's policy answers the new policy, which has what the body says for
-- the fields that it has, null included, and the old values for the others; a query of the policy
-- answers the same afterwards. Other clients are found as before, and nothing else changes.
pub update_client_policy-Updated :
    (client_id other_id : String) (body : ClientPolicyUpdate) (db : Database) (c : Client)
    → get_client client_id db ≡ ok c
    → ¬ (other_id ≡ client_id)
    → (let (later, result) = update_client_policy client_id body db in
        let policy = policy_out (record c { limits = updated_limits body c.limits }) in
        (result ≡ ok policy)
        × (get_client_policy client_id later ≡ ok policy)
        × (get_client other_id later ≡ get_client other_id db)
        × (later.users ≡ db.users)
        × (later.allowed ≡ db.allowed)
        × (later.keys ≡ db.keys))
unfolding update_client_policy update_found get_client get_client_policy updated_result
update_client_policy-Updated client_id other_id body db c found n =
    let new : updated_row client_id body c ≡ record c { limits = updated_limits body c.limits } =
      updated_row-own client_id body c (find-id client_id db.clients c found) in
    let code : String = "client_not_found" in
    rw found (
      ap (λ x. ok (policy_out x)) new,
      ap (λ (r : Result Client). r >>= λ x. ok (policy_out x))
          (find-updated client_id client_id code body db.clients
            ∙ ap (updated_result client_id body) found
            ∙ ap (λ x. ok x) new),
      find-updated client_id other_id code body db.clients
          ∙ updated_result-other client_id other_id code body db.clients n,
      refl,
      refl,
      refl,
    )
