-- ===== src/Routing/ModelRegistry/Total.antt =====
-- A validated configuration always yields a registry: app/routing/model_registry.py's defensive
-- errors are not reached from app/routing/config.py.
use mathlib.Core.List.{append-nil, append_assoc}
use syn.Common.{
  String, ◌≡◌, refl, sym, ◌∙◌, true, false, none, List, [], ◌∷◌, ◌++◌, map, arith, str_eq_iff,
  str_eq_refl,
}
use syn.Common.Dict
use syn.Common.Dict.{Dict, elem, elem-append, get-put}
use syn.Common.Json.{Fields}
use syn.Errors.{ok}
use syn.Routing.Distinct.{Distinct, Distinct-append}
use syn.Routing.Config.{ModelConfig, ParsedRoutingConfig, parse_routing_config}
use syn.Routing.Config.Wellformed.{model_ids, all_aliases, parse_routing_config-IsWellformed}
use syn.Routing.ModelRegistry.{ModelEntry, ModelRegistry, add_aliases, add_entries, init}
use syn.Routing.ModelRegistry.Lookup.{Built, Built-snoc, Built-empty, find_id, find_alias}

-- The entry that app/routing/__init__.py makes of a model of the configuration.
unfoldable pub entry : ModelConfig → ModelEntry
entry m = record {
  id = m.id;
  backend_id = m.backend_id;
  backend_model = m.backend_model;
  enabled = m.enabled;
  aliases = m.aliases;
  metadata = m.metadata;
}

abbrev pub entry_ids : List ModelEntry → List String
entry_ids [] = []
entry_ids (e ∷ es) = e.id ∷ entry_ids es

abbrev entry_aliases : List ModelEntry → List String
entry_aliases [] = []
entry_aliases (e ∷ es) = e.aliases ++ entry_aliases es

find_id-none :
    (es : List ModelEntry) (k : String) → elem k (entry_ids es) ≡ false → find_id es k ≡ none
unfolding find_id elem
find_id-none [] k h = refl
find_id-none (e ∷ es) k h = ground (arith, find_id-none es k, str_eq_iff e.id k, str_eq_iff k e.id)

find_alias-none :
    (es : List ModelEntry) (a : String) → elem a (entry_aliases es) ≡ false → find_alias es a ≡ none
unfolding find_alias
find_alias-none [] a h = refl
find_alias-none (e ∷ es) a h =
    ground (arith, find_alias-none es a, elem-append a e.aliases (entry_aliases es))

add_aliases-cons :
    (id x : String) (more : List String) (d : Dict String)
    → Dict.get d x ≡ none
    → add_aliases id (x ∷ more) d ≡ add_aliases id more (Dict.put d x id)
unfolding add_aliases
add_aliases-cons id x more d e = ground arith

add_entries-cons :
    (e : ModelEntry) (entries : List ModelEntry) (r : ModelRegistry) (by_alias : Dict String)
    → Dict.get r.by_id e.id ≡ none
    → add_aliases e.id e.aliases r.by_alias ≡ ok by_alias
    → add_entries (e ∷ entries) r
      ≡ add_entries entries (record { by_id = Dict.put r.by_id e.id e; by_alias = by_alias })
unfolding add_entries
add_entries-cons e entries r by_alias new added = ground arith

add_aliases-total :
    (id : String) (more : List String) (d : Dict String)
    → Distinct more
    → ((a : String) → elem a more ≡ true → Dict.get d a ≡ none)
    → (d' : Dict String) × (add_aliases id more d ≡ ok d')
unfolding add_aliases
add_aliases-total id [] d distinct free = (d, refl)
add_aliases-total id (x ∷ more) d distinct free =
    let (d', e) = add_aliases-total id more (Dict.put d x id) distinct.1 later in
    (d', add_aliases-cons id x more d (free x here) ∙ e)
  where
    here : elem x (x ∷ more) ≡ true
    here = unfold elem in rw (str_eq_refl x)

    later : (a : String) → elem a more ≡ true → Dict.get (Dict.put d x id) a ≡ none
    later a h =
        ground (
          arith,
          get-put d x a id,
          str_eq_iff x a,
          distinct.0,
          free a (unfold elem in ground arith),
        )

entry_ids-snoc :
    (es : List ModelEntry) (e : ModelEntry) → entry_ids (es ++ e ∷ []) ≡ entry_ids es ++ e.id ∷ []
entry_ids-snoc [] e = refl
entry_ids-snoc (x ∷ es) e = rw (entry_ids-snoc es e)

entry_aliases-snoc :
    (es : List ModelEntry) (e : ModelEntry)
    → entry_aliases (es ++ e ∷ []) ≡ entry_aliases es ++ e.aliases
entry_aliases-snoc [] e = append-nil e.aliases
entry_aliases-snoc (x ∷ es) e =
    rw (entry_aliases-snoc es e) (sym (append_assoc x.aliases (entry_aliases es) e.aliases))

add_entries-total :
    (entries es : List ModelEntry) (r : ModelRegistry)
    → Built es r
    → Distinct (entry_ids es ++ entry_ids entries)
    → Distinct (entry_aliases es ++ entry_aliases entries)
    → (r' : ModelRegistry) × (add_entries entries r ≡ ok r')
unfolding add_entries
add_entries-total [] es r b di da = (r, refl)
add_entries-total (e ∷ entries) es r b di da =
    let (by_alias, added) = add_aliases-total e.id e.aliases r.by_alias own free in
    let (r', done) =
      add_entries-total entries (es ++ e ∷ [])
        (record { by_id = Dict.put r.by_id e.id e; by_alias = by_alias })
        (Built-snoc es r e b new added)
        (rw (entry_ids-snoc es e, append_assoc (entry_ids es) (e.id ∷ []) (entry_ids entries)) di)
        (rw
          (
            entry_aliases-snoc es e,
            append_assoc (entry_aliases es) e.aliases (entry_aliases entries),
          )
          da) in
    (r', add_entries-cons e entries r by_alias new added ∙ done)
  where
    new : Dict.get r.by_id e.id ≡ none
    new =
        b.ids e.id
        ∙ find_id-none es e.id (
            (Distinct-append (entry_ids es) (e.id ∷ entry_ids entries) di).2 e.id
              (unfold elem in rw (str_eq_refl e.id)))

    own : Distinct e.aliases
    own =
        (Distinct-append e.aliases (entry_aliases entries)
          (Distinct-append (entry_aliases es) (e.aliases ++ entry_aliases entries) da).1).0

    free : (a : String) → elem a e.aliases ≡ true → Dict.get r.by_alias a ≡ none
    free a h = rw (
      b.aliases a,
      find_alias-none es a (
          (Distinct-append (entry_aliases es) (e.aliases ++ entry_aliases entries) da).2 a
            (rw (elem-append a e.aliases (entry_aliases entries), h))),
    )

pub entry_ids-map : (ms : List ModelConfig) → entry_ids (map entry ms) ≡ model_ids ms
unfolding entry
entry_ids-map [] = refl
entry_ids-map (m ∷ ms) = rw (entry_ids-map ms)

entry_aliases-map : (ms : List ModelConfig) → entry_aliases (map entry ms) ≡ all_aliases ms
unfolding entry
entry_aliases-map [] = refl
entry_aliases-map (m ∷ ms) = rw (entry_aliases-map ms)

-- Validation is enough for the model registry: whatever configuration it accepts, the registry of
-- its models is built without an error.
pub init-parse_routing_config :
    (raw : Fields) {c : ParsedRoutingConfig}
    → parse_routing_config raw ≡ ok c
    → (r : ModelRegistry) × (init (map entry c.models) ≡ ok r)
unfolding init
init-parse_routing_config raw {c} h =
    let v = parse_routing_config-IsWellformed raw {c = c} h in
    add_entries-total (map entry c.models) [] (record { by_id = []; by_alias = [] }) Built-empty
      (rw (entry_ids-map c.models) v.models_distinct)
      (rw (entry_aliases-map c.models) v.aliases_distinct)
