-- ===== src/Admin/Routes/Allowed.antt =====
-- The allowed models of a client that app/api/admin.py creates.
use mathlib.Core.List.{append-nil}
use syn.Common.{
  String, ◌≡◌, refl, sym, ◌∙◌, ap, false, not, ◌||◌, Option, inl, inr, List, [], ◌∷◌, ◌++◌, map,
  arith, str_eq, str_eq_iff, select, is_empty, Bool-cases,
}
use syn.Common.Text.{Text, strip}
use syn.Errors.{Result, ok, err}
use syn.Admin.{
  Stamp, User, Client, Database, add_client, get_user, get_client_allowed_models,
  set_allowed_models, models_or_none, name_taken, has_duplicate,
}
use syn.Admin
use syn.Admin.Routes.{ClientOut, client_out, answered_with, create_client}

-- The models that rows allow a client.
abbrev allowed_in : String → List (String × String) → List String
allowed_in id rows = map (λ row. row.1) (select (λ row. str_eq row.0 id) rows)

allowed_in-append :
    (id : String) (xs ys : List (String × String))
    → allowed_in id (xs ++ ys) ≡ allowed_in id xs ++ allowed_in id ys
allowed_in-append id [] ys = refl
allowed_in-append id (x ∷ xs) ys = ground (arith, allowed_in-append id xs ys)

allowed_in-deleted :
    (id : String) (rows : List (String × String))
    → allowed_in id (select (λ row. not (str_eq row.0 id)) rows) ≡ []
allowed_in-deleted id [] = refl
allowed_in-deleted id (row ∷ rows) = elim (Bool-cases (str_eq row.0 id)) [
  | inl e ↦ rw e (allowed_in-deleted id rows)
  | inr e ↦ rw (e, e) (allowed_in-deleted id rows)
]

allowed_in-kept :
    (id other : String) (rows : List (String × String))
    → str_eq id other ≡ false
    → allowed_in other (select (λ row. not (str_eq row.0 id)) rows) ≡ allowed_in other rows
allowed_in-kept id other [] h = refl
allowed_in-kept id other (row ∷ rows) h = ground (
  arith,
  h,
  str_eq_iff row.0 id,
  str_eq_iff row.0 other,
  str_eq_iff id other,
  allowed_in-kept id other rows h,
)

allowed_in-added :
    (id : String) (models : List String) → allowed_in id (map (λ m. (id, m)) models) ≡ models
allowed_in-added id [] = refl
allowed_in-added id (m ∷ ms) =
    rw ((str_eq_iff id id).1 refl) (ap (λ xs. m ∷ xs) (allowed_in-added id ms))

allowed_in-others :
    (id other : String) (models : List String)
    → str_eq id other ≡ false
    → allowed_in other (map (λ m. (id, m)) models) ≡ []
allowed_in-others id other [] h = refl
allowed_in-others id other (m ∷ ms) h = rw h (allowed_in-others id other ms h)

module _ (new : Stamp) (models : Option (List String)) (db : Database) (other : String)
    (apart : str_eq new.id other ≡ false) where
  -- What the service's call leaves, if it returns.
  abbrev Allows : Database × Result Client → Type 0
  Allows (later, err e) = Unit
  Allows (later, ok c) =
      (c.id ≡ new.id)
      × (get_client_allowed_models new.id later ≡ models_or_none models)
      × (get_client_allowed_models other later ≡ get_client_allowed_models other db)

  add_client-Allows :
      (name : Text) (description : Option Text) (user : Result User)
      → Allows (add_client new name description models db user)
  unfolding add_client set_allowed_models get_client_allowed_models
  add_client-Allows name description (err e) = tt
  add_client-Allows name description (ok user) =
      elim (Bool-cases
        (name_taken user.id name db.clients || has_duplicate (models_or_none models))) [
          | inl e ↦ rw e tt
          | inr e ↦
              let kept = select (λ (row : String × String). not (str_eq row.0 new.id)) db.allowed in
              let added = map (λ (m : String). (new.id, m)) (models_or_none models) in
              rw e (
                refl,
                allowed_in-append new.id kept added
                    ∙ ap (λ xs. xs ++ allowed_in new.id added)
                        (allowed_in-deleted new.id db.allowed)
                    ∙ allowed_in-added new.id (models_or_none models),
                allowed_in-append other kept added
                    ∙ ap (λ xs. allowed_in other kept ++ xs)
                        (allowed_in-others new.id other (models_or_none models) apart)
                    ∙ append-nil (allowed_in other kept)
                    ∙ allowed_in-kept new.id other db.allowed apart,
              )
        ]

  create-Allows :
      (user_id : String) (name : Text) (description : Option Text)
      → Allows (Admin.create_client new user_id name description models db)
  unfolding Admin.create_client
  create-Allows user_id name description = elim (Bool-cases (is_empty (strip name))) [
    | inl e ↦ rw e tt
    | inr e ↦ rw e (add_client-Allows (strip name) description (get_user user_id db))
  ]

  answered-Allows :
      (called : Database × Result Client) (out : ClientOut)
      → Allows called
      → (answered_with client_out called).1 ≡ ok out
      → (out.id ≡ new.id)
        × (out.allowed_models ≡ models_or_none models)
        × (get_client_allowed_models other (answered_with client_out called).0
            ≡ get_client_allowed_models other db)
  unfolding client_out
  answered-Allows (later, err e) out a h = absurd (cc)
  answered-Allows (later, ok c) out a h =
      let same : client_out later c ≡ out = cc (h) in
      (
        ap (λ o. o.id) (sym same) ∙ a.0,
        ap (λ o. o.allowed_models) (sym same)
            ∙ ap (λ i. get_client_allowed_models i later) a.0
            ∙ a.1,
        a.2,
      )

-- A client that is created is answered with the allowed models that were asked for, in order, where
-- null and the empty list both mean none, and the allowed models of the other clients stay.
pub create_client-allowed_models :
    (new : Stamp) (user_id : String) (name : Text) (description : Option Text)
    (models : Option (List String)) (db : Database) (out : ClientOut) (other : String)
    → (create_client new user_id name description models db).1 ≡ ok out
    → ¬ (other ≡ new.id)
    → (out.id ≡ new.id)
      × (out.allowed_models ≡ models_or_none models)
      × (get_client_allowed_models other (create_client new user_id name description models db).0
          ≡ get_client_allowed_models other db)
unfolding create_client
create_client-allowed_models new user_id name description models db out other h n =
    let apart : str_eq new.id other ≡ false = elim (Bool-cases (str_eq new.id other)) [
      | inl e ↦ absurd (n (sym ((str_eq_iff new.id other).0 e)))
      | inr e ↦ e
    ] in
    answered-Allows new models db other apart
      (Admin.create_client new user_id name description models db) out
      (create-Allows new models db other apart user_id name description) h
