-- ===== src/Routing/ModelRegistry.antt =====
-- app/routing/model_registry.py: models by id, and ids by alias.
pub mod Lookup
pub mod Total
use syn.Common.{
  ℕ, String, ◌≡◌, Bool, true, false, Option, none, some, List, [], ◌∷◌, ◌++◌, str_eq, if◌then◌else◌,
  select,
}
use syn.Common.Dict
use syn.Common.Dict.{Dict}
use syn.Common.Json.{Fields}
use syn.Errors.{model_not_found, raised, Exn, gateway, other, Result, ok, err, ◌>>=◌}

pub record ModelEntry : Type 0 where
  pub id : String
  pub backend_id : String
  pub backend_model : String
  pub enabled : Bool
  pub aliases : List String
  pub metadata : Fields

pub record ModelRegistry : Type 0 where
  pub by_id : Dict ModelEntry
  pub by_alias : Dict String

abbrev pub not_found : Exn
not_found = gateway (raised model_not_found "model_not_found")

-- The loop over an entry's aliases.
unfoldable pub add_aliases : String → List String → Dict String → Result (Dict String)
add_aliases id [] by_alias = ok by_alias
add_aliases id (a ∷ aliases) by_alias =
    let rest = add_aliases id aliases (Dict.put by_alias a id) in
    if Dict.has by_alias a then err not_found else rest

-- The loop of `__init__`.
unfoldable pub add_entries : List ModelEntry → ModelRegistry → Result ModelRegistry
add_entries [] r = ok r
add_entries (e ∷ entries) r = if Dict.has r.by_id e.id then err not_found else do
  by_alias ← add_aliases e.id e.aliases r.by_alias
  add_entries entries (record { by_id = Dict.put r.by_id e.id e; by_alias = by_alias })

unfoldable pub init : List ModelEntry → Result ModelRegistry
init entries = add_entries entries (record { by_id = []; by_alias = [] })

-- self._by_id[canonical]; a missing key is a KeyError
index : Option ModelEntry → Result ModelEntry
index none = err other
index (some e) = ok e

by_alias_lookup : ModelRegistry → Option String → Result ModelEntry
unfolding index
by_alias_lookup r none = err not_found
by_alias_lookup r (some canonical) = index (Dict.get r.by_id canonical)

by_id_lookup : ModelRegistry → String → Option ModelEntry → Result ModelEntry
unfolding by_alias_lookup
by_id_lookup r requested none = by_alias_lookup r (Dict.get r.by_alias requested)
by_id_lookup r requested (some e) = ok e

unfoldable pub resolve : ModelRegistry → String → Result ModelEntry
unfolding by_id_lookup
resolve r requested = by_id_lookup r requested (Dict.get r.by_id requested)

unfoldable pub get : ModelRegistry → String → Option ModelEntry
get r model_id = Dict.get r.by_id model_id

unfoldable pub list_all : ModelRegistry → List ModelEntry
list_all r = Dict.values r.by_id

unfoldable pub list_enabled : ModelRegistry → List ModelEntry
list_enabled r = select (λ e. e.enabled) (Dict.values r.by_id)
