-- ===== src/Routing/ModelRegistry/Lookup.antt =====
-- What app/routing/model_registry.py's lookups return, for a registry that `__init__` has built.
use mathlib.Core.List.{append-nil, append_assoc}
use syn.Common.{
  String, ◌≡◌, refl, ap, subst, ◌∙◌, inl, inr, true, false, Option, none, some, List, [], ◌∷◌, ◌++◌,
  arith, str_eq, str_eq_iff, str_eq_refl, Bool-cases, Option-cases, select, if◌then◌else◌,
}
use syn.Common.Dict
use syn.Common.Dict.{Dict, elem, get-put, values-put_new}
use syn.Errors.{Result, ok, err, Exn, >>=-cases}
use syn.Routing.ModelRegistry.{
  ModelEntry, ModelRegistry, not_found, add_aliases, add_entries, init, resolve, index, list_all,
  list_enabled,
}

ok-injective {ℓ} : {A : Type ℓ} {a b : A} → ok a ≡ ok b → a ≡ b
ok-injective h = cc

refused {ℓ} : {A : Type ℓ} {x : Exn} {a : A} → err x ≡ ok a → ⊥
refused h = cc

-- The first entry of an id, and the first entry with an alias.
unfoldable pub find_id : List ModelEntry → String → Option ModelEntry
find_id [] k = none
find_id (e ∷ es) k = if str_eq e.id k then some e else find_id es k

unfoldable pub find_alias : List ModelEntry → String → Option ModelEntry
find_alias [] a = none
find_alias (e ∷ es) a = if elem a e.aliases then some e else find_alias es a

abbrev pub found_or : Option ModelEntry → Result ModelEntry → Result ModelEntry
found_or none r = r
found_or (some e) r = ok e

-- A name stands for the entry of that id, or else for the entry with that alias.
abbrev pub lookup : List ModelEntry → String → Result ModelEntry
lookup es k = found_or (find_id es k) (found_or (find_alias es k) (err not_found))

abbrev pub owner : Option ModelEntry → Option String
owner none = none
owner (some e) = some e.id

abbrev pub or_else {ℓ} : {A : Type ℓ} → Option A → Option A → Option A
or_else none b = b
or_else (some a) b = some a

find_id-snoc :
    (es : List ModelEntry) (e : ModelEntry) (k : String)
    → find_id (es ++ e ∷ []) k ≡ or_else (find_id es k) (if str_eq e.id k then some e else none)
unfolding find_id
find_id-snoc [] e k = refl
find_id-snoc (x ∷ es) e k = ground (arith, find_id-snoc es e k)

find_alias-snoc :
    (es : List ModelEntry) (e : ModelEntry) (a : String)
    → find_alias (es ++ e ∷ []) a
      ≡ or_else (find_alias es a) (if elem a e.aliases then some e else none)
unfolding find_alias
find_alias-snoc [] e a = refl
find_alias-snoc (x ∷ es) e a = ground (arith, find_alias-snoc es e a)

-- Adding the aliases of one entry: none of them was there, and each now stands for its id.
add_aliases-lem :
    (id : String) (more : List String) (d : Dict String) {d' : Dict String} (a : String)
    → add_aliases id more d ≡ ok d'
    → (Dict.get d' a ≡ (if elem a more then some id else Dict.get d a))
      × (elem a more ≡ true → Dict.get d a ≡ none)
unfolding add_aliases elem
add_aliases-lem id [] d a h = (ground arith, λ e. cc)
add_aliases-lem id (x ∷ more) d {d'} a h = ground (
  arith,
  add_aliases-lem id more (Dict.put d x id) {d' = d'} a,
  get-put d x a id,
  str_eq_iff x a,
  str_eq_iff a x,
)

-- The tables agree with the entries that they were built from.
pub record Built (es : List ModelEntry) (r : ModelRegistry) : Type 0 where
  pub ids : (k : String) → Dict.get r.by_id k ≡ find_id es k
  pub aliases : (a : String) → Dict.get r.by_alias a ≡ owner (find_alias es a)
  pub listed : Dict.values r.by_id ≡ es
  -- The entry of an alias is the one that its id stands for.
  pub indexed : (a : String) (e : ModelEntry) → find_alias es a ≡ some e → find_id es e.id ≡ some e

pub Built-empty : Built [] (record { by_id = []; by_alias = [] })
unfolding find_id find_alias Dict.get Dict.values
Built-empty = record { ids = λ k. refl; aliases = λ a. refl; listed = refl; indexed = λ a e h. cc }

pub Built-snoc :
    (es : List ModelEntry) (r : ModelRegistry) (e : ModelEntry) {by_alias : Dict String}
    → Built es r
    → Dict.get r.by_id e.id ≡ none
    → add_aliases e.id e.aliases r.by_alias ≡ ok by_alias
    → Built (es ++ e ∷ []) (record { by_id = Dict.put r.by_id e.id e; by_alias = by_alias })
Built-snoc es r e b fresh added = record {
  ids = λ k.
      ground (arith, get-put r.by_id e.id k e, find_id-snoc es e k, b.ids k, str_eq_iff e.id k);
  aliases = λ a. ground (
    arith,
    add_aliases-lem e.id e.aliases r.by_alias a added,
    find_alias-snoc es e a,
    b.aliases a,
  );
  listed =
      values-put_new r.by_id e.id e fresh ∙ ap (λ (xs : List ModelEntry). xs ++ e ∷ []) b.listed;
  indexed = λ a x h. ground (
    arith,
    find_alias-snoc es e a,
    find_id-snoc es e x.id,
    b.indexed a x,
    b.ids e.id,
    str_eq_refl e.id,
  );
}

has-false {ℓ} :
    {A : Type ℓ} (o : Option A) → (elim o [ none ↦ false | some _ ↦ true ]) ≡ false → o ≡ none
has-false none h = refl
has-false (some a) h = cc

add_entries-Built :
    (entries es : List ModelEntry) (r : ModelRegistry) {r' : ModelRegistry}
    → add_entries entries r ≡ ok r'
    → Built es r
    → Built (es ++ entries) r'
unfolding add_entries
add_entries-Built [] es r h b = rw (append-nil es) (subst (Built es) (ok-injective h) b)
add_entries-Built (e ∷ entries) es r {r'} h b = elim (Bool-cases (Dict.has r.by_id e.id)) [
  | inl old ↦ absurd (refused (rw old at h))
  | inr new ↦
      >>=-cases (add_aliases e.id e.aliases r.by_alias) _ (rw new at h) λ by_alias added rest.
        subst (λ (xs : List ModelEntry). Built xs r') (append_assoc es (e ∷ []) entries)
          (add_entries-Built entries (es ++ e ∷ [])
            (record { by_id = Dict.put r.by_id e.id e; by_alias = by_alias }) rest
            (Built-snoc es r e b (has-false (Dict.get r.by_id e.id) new) added))
]

resolve-lookup_of :
    (es : List ModelEntry) (r : ModelRegistry) (k : String) → Built es r → resolve r k ≡ lookup es k
unfolding resolve index
resolve-lookup_of es r k b = elim (Option-cases (find_alias es k)) [
  | inl e ↦ ground (arith, b.ids k, b.aliases k, e)
  | inr (x, e) ↦ ground (arith, b.ids k, b.aliases k, e, b.indexed k x e, b.ids x.id)
]

-- A registry that `__init__` builds resolves every name as the list of its entries says: to the
-- entry of that id, else to the entry with that alias, else to ModelNotFoundError, and never to a
-- KeyError. It lists the entries in their order, and the enabled ones among them.
pub init-resolve :
    (entries : List ModelEntry) {r : ModelRegistry}
    → init entries ≡ ok r
    → ((k : String) → resolve r k ≡ lookup entries k)
      × (list_all r ≡ entries)
      × (list_enabled r ≡ select (λ e. e.enabled) entries)
unfolding init list_all list_enabled
init-resolve entries {r} h =
    let b =
      add_entries-Built entries [] (record { by_id = []; by_alias = [] }) {r' = r} h Built-empty in
    (
      λ k. resolve-lookup_of entries r k b,
      b.listed,
      ap (select (λ (e : ModelEntry). e.enabled)) b.listed,
    )
