-- ===== src/Routing/Config.antt =====
-- app/routing/config.py: validation of the decoded routing file.
pub mod Wellformed
use syn.Common.{
  ℕ, String, ◌≡◌, Bool, true, false, Option, none, some, List, [], ◌∷◌, ◌++◌, str_eq, if◌then◌else◌,
}
use syn.Common.Dict.{elem}
use syn.Common.Json.{
  Json, Items, Fields, null, bool, num, decimal, str, arr, obj, nil, cons, end, field, get_field,
  truthy, nonempty_text, nonempty_list,
}
use syn.Errors.{
  SynError, ErrorClass, routing_config_error, raised, Exn, gateway, other, Result, ok, err, ◌>>=◌,
  ◌>>◌, reject_if,
}

-- BackendType has one member that the configuration supports.
pub data BackendType : Type 0 where
  llama_cpp : BackendType

pub record BackendConfig : Type 0 where
  pub id : String
  pub backend_type : BackendType
  pub base_url : String

pub record ModelConfig : Type 0 where
  pub id : String
  pub backend_id : String
  pub backend_model : String
  pub enabled : Bool
  pub aliases : List String
  pub metadata : Fields

pub record ParsedRoutingConfig : Type 0 where
  pub backends : List BackendConfig
  pub models : List ModelConfig

abbrev pub invalid : Exn
invalid = gateway (raised routing_config_error "routing_config_invalid")

-- if v is missing or of the wrong kind: raise RoutingConfigError
unfoldable pub require {ℓ} : {A : Type ℓ} → Option A → Result A
require none = err invalid
require (some a) = ok a

unfoldable pub reject : Bool → Result (Unit {0})
reject true = err invalid
reject false = ok tt

-- b.get("type", "llama_cpp"), if it is supported
unfoldable pub backend_type_of : Option Json → Result BackendType
backend_type_of none = ok llama_cpp
backend_type_of (some (str s)) = if str_eq s "llama_cpp" then ok llama_cpp else err invalid
backend_type_of (some _) = err invalid

-- The body of the loop over the backends.
unfoldable pub parse_backend : Json → List String → Result BackendConfig
unfolding require reject
parse_backend (obj b) seen = do
  bid ← require (nonempty_text (get_field b "id"))
  reject (elem bid seen)
  btype ← backend_type_of (get_field b "type")
  base_url ← require (nonempty_text (get_field b "base_url"))
  ok (record { id = bid; backend_type = btype; base_url = base_url })
parse_backend _ seen = err invalid

-- The loop: the backends so far, and their ids.
unfoldable pub parse_backends :
    Items → List BackendConfig → List String → Result (List BackendConfig × List String)
parse_backends nil backends seen = ok (backends, seen)
parse_backends (cons j js) backends seen = do
  b ← parse_backend j seen
  parse_backends js (backends ++ b ∷ []) (seen ++ b.id ∷ [])

-- The loop over one model's aliases: its aliases so far, and all aliases so far.
unfoldable pub parse_aliases :
    Items → List String → List String → List String → Result (List String × List String)
unfolding require reject
parse_aliases nil model_ids aliases seen = ok (aliases, seen)
parse_aliases (cons j js) model_ids aliases seen = do
  a ← require (nonempty_text (some j))
  reject (elem a model_ids)
  reject (elem a seen)
  parse_aliases js model_ids (aliases ++ a ∷ []) (seen ++ a ∷ [])

-- m.get("backend_model") or mid, if that is a text
unfoldable pub backend_model_of : Option Json → String → Result String
unfolding require
backend_model_of none mid = ok mid
backend_model_of (some v) mid = if truthy v then require (nonempty_text (some v)) else ok mid

-- bool(m.get("enabled", True))
unfoldable pub enabled_of : Option Json → Bool
enabled_of none = true
enabled_of (some v) = truthy v

-- m.get("aliases") or [], if that is a list
unfoldable pub aliases_of : Option Json → Result Items
unfolding require
aliases_of none = ok nil
aliases_of (some v) = if truthy v then require (nonempty_list (some v)) else ok nil

-- A pair in front of the later pairs of dict(items), of which one with the same key wins.
unfoldable before : String → Json → Fields → Fields
before k v d = elim (get_field d k) [ none ↦ field k v d | some later ↦ d ]

-- dict(items): each item is a pair of a text and a value, a text of two characters, or a mapping of two
-- keys. A key that is no text, which a pair may have in Python, counts as an error here.
dict_of : Items → Result Fields
unfolding before
dict_of nil = ok end
dict_of (cons (arr (cons (str k) (cons v nil))) rest) = do d ← dict_of rest; ok (before k v d)
dict_of (cons (str (String.◌∷◌ c (String.◌∷◌ e String.[]))) rest) = do
  d ← dict_of rest
  ok (before (String.◌∷◌ c String.[]) (str (String.◌∷◌ e String.[])) d)
dict_of (cons (obj (field j u (field k v end))) rest) = do d ← dict_of rest; ok (before j (str k) d)
dict_of (cons _ rest) = err other

-- dict(m.get("metadata") or {}); what is no mapping raises a Python error.
unfoldable pub metadata_of : Option Json → Result Fields
unfolding dict_of
metadata_of (some (obj d)) = ok d
metadata_of (some (arr items)) = dict_of items
metadata_of (some v) = if truthy v then err other else ok end
metadata_of none = ok end

-- The body of the loop over the models, with the ids and aliases of those before it.
unfoldable pub parse_model :
    Json → List String → List String → List String → Result (ModelConfig × List String)
unfolding require reject
parse_model (obj m) backend_ids model_ids seen = do
  mid ← require (nonempty_text (get_field m "id"))
  reject (elem mid model_ids)
  backend_id ← require (nonempty_text (get_field m "backend_id"))
  reject (if elem backend_id backend_ids then false else true)
  backend_model ← backend_model_of (get_field m "backend_model") mid
  items ← aliases_of (get_field m "aliases")
  found ← parse_aliases items model_ids [] seen
  metadata ← metadata_of (get_field m "metadata")
  ok (
    record {
      id = mid;
      backend_id = backend_id;
      backend_model = backend_model;
      enabled = enabled_of (get_field m "enabled");
      aliases = found.0;
      metadata = metadata;
    },
    found.1,
  )
parse_model _ backend_ids model_ids seen = err invalid

unfoldable pub parse_models :
    Items → List String → List ModelConfig → List String → List String → Result (List ModelConfig)
parse_models nil backend_ids models model_ids seen = ok models
parse_models (cons j js) backend_ids models model_ids seen = do
  found ← parse_model j backend_ids model_ids seen
  parse_models js backend_ids (models ++ found.0 ∷ []) (model_ids ++ found.0.id ∷ []) found.1

-- parse_routing_config
unfoldable pub parse_routing_config : Fields → Result ParsedRoutingConfig
unfolding require
parse_routing_config raw = do
  backends_raw ← require (nonempty_list (get_field raw "backends"))
  models_raw ← require (nonempty_list (get_field raw "models"))
  backends ← parse_backends backends_raw [] []
  models ← parse_models models_raw backends.1 [] [] []
  ok (record { backends = backends.0; models = models })

-- load_routing_config, on the text of the file (`none`: no such file) with its surrounding white
-- space gone; the decoder of JSON texts is given.
unfoldable pub load_routing_config : (String → Option Json) → Option String → Result (Option Fields)
load_routing_config decode none = ok none
load_routing_config decode (some text) =
    if str_eq text ""
    then ok none
    else elim (decode text) [ some (obj d) ↦ ok (some d) | _ ↦ err invalid ]
