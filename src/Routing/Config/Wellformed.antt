-- ===== src/Routing/Config/Wellformed.antt =====
-- What app/routing/config.py's validation guarantees of a configuration that it accepts.
use mathlib.Core.List.{append-nil, append_assoc, map-append}
use syn.Common.{
  String, ◌≡◌, refl, sym, subst, ◌⊎◌, inl, inr, ◌∙◌, ◌≢◌, Bool, true, false, Option, some, List, [],
  ◌∷◌, ◌++◌, map, arith, All, if◌then◌else◌,
}
use syn.Common.Dict.{elem}
use syn.Common.Json.{
  Json, Items, Fields, null, bool, num, decimal, str, arr, obj, nil, cons, nonempty_text,
  nonempty_list, get_field,
}
use syn.Errors.{ok, >>=-cases}
use syn.Routing.Distinct.{Distinct, Distinct-snoc}
use syn.Routing.Config.{
  BackendConfig, ModelConfig, ParsedRoutingConfig, require, reject, parse_backend, parse_backends,
  parse_aliases, backend_model_of, enabled_of, aliases_of, metadata_of, parse_model, parse_models,
  parse_routing_config,
}

abbrev pub backend_ids : List BackendConfig → List String
backend_ids = map (λ b. b.id)

abbrev pub model_ids : List ModelConfig → List String
model_ids = map (λ m. m.id)

-- The aliases of all the models.
abbrev pub all_aliases : List ModelConfig → List String
all_aliases [] = []
all_aliases (m ∷ ms) = m.aliases ++ all_aliases ms

-- No alias is the id of a model that stands earlier in the file.
abbrev pub AliasesNew : List String → List ModelConfig → Type 0
AliasesNew ids [] = Unit
AliasesNew ids (m ∷ ms) = All (λ a. elem a ids ≡ false) m.aliases × AliasesNew (ids ++ m.id ∷ []) ms

pub record IsWellformed (c : ParsedRoutingConfig) : Type 0 where
  pub has_backends : c.backends ≢ []
  pub has_models : c.models ≢ []
  pub backends_distinct : Distinct (backend_ids c.backends)
  pub models_distinct : Distinct (model_ids c.models)
  pub backends_known : All (λ m. elem m.backend_id (backend_ids c.backends) ≡ true) c.models
  pub aliases_distinct : Distinct (all_aliases c.models)
  pub aliases_new : AliasesNew [] c.models

reject-ok : (b : Bool) {u : Unit {0}} → reject b ≡ ok u → b ≡ false
unfolding reject
reject-ok true h = cc
reject-ok false h = refl

parse_backend-fresh :
    (j : Json) (seen : List String) {b : BackendConfig}
    → parse_backend j seen ≡ ok b
    → elem b.id seen ≡ false
unfolding parse_backend
parse_backend-fresh (obj d) seen h = ground arith
parse_backend-fresh null seen h = cc
parse_backend-fresh (bool x) seen h = cc
parse_backend-fresh (num n) seen h = cc
parse_backend-fresh (decimal s) seen h = cc
parse_backend-fresh (str s) seen h = cc
parse_backend-fresh (arr xs) seen h = cc

ok-injective {ℓ} : {A : Type ℓ} {a b : A} → ok a ≡ ok b → a ≡ b
ok-injective h = cc

append-ne-nil {ℓ} : {A : Type ℓ} (xs : List A) (x : A) → xs ++ x ∷ [] ≢ []
append-ne-nil [] x e = cc
append-ne-nil (y ∷ xs) x e = cc

-- The ids that the loop has seen are those of its backends, without repetition.
abbrev Backends : List BackendConfig × List String → Type 0
Backends (bs, seen) = (seen ≡ backend_ids bs) × Distinct seen

Backends-snoc :
    (bs : List BackendConfig) (seen : List String) (b : BackendConfig)
    → Backends (bs, seen)
    → elem b.id seen ≡ false
    → Backends (bs ++ b ∷ [], seen ++ b.id ∷ [])
Backends-snoc bs seen b (e, d) fresh = (
  rw (map-append (λ (c : BackendConfig). c.id) bs (b ∷ []), e) refl,
  Distinct-snoc seen b.id d fresh,
)

parse_backends-Backends :
    (js : Items) (bs : List BackendConfig) (seen : List String)
    {r : List BackendConfig × List String}
    → parse_backends js bs seen ≡ ok r
    → Backends (bs, seen)
    → Backends r
unfolding parse_backends
parse_backends-Backends nil bs seen h g = subst Backends (ok-injective h) g
parse_backends-Backends (cons j js) bs seen h g = >>=-cases (parse_backend j seen) _ h λ b eb rest.
    parse_backends-Backends js (bs ++ b ∷ []) (seen ++ b.id ∷ []) rest
      (Backends-snoc bs seen b g (parse_backend-fresh j seen eb))

parse_backends-ne-nil :
    (js : Items) (bs : List BackendConfig) (seen : List String)
    {r : List BackendConfig × List String}
    → parse_backends js bs seen ≡ ok r
    → (bs ≢ []) ⊎ ((x : Json) × (xs : Items) × (js ≡ cons x xs))
    → r.0 ≢ []
unfolding parse_backends
parse_backends-ne-nil nil bs seen h (inl n) =
    subst (λ (r : List BackendConfig × List String). r.0 ≢ []) (ok-injective h) n
parse_backends-ne-nil nil bs seen h (inr (x, xs, e)) = cc
parse_backends-ne-nil (cons j js) bs seen h n = >>=-cases (parse_backend j seen) _ h λ b eb rest.
    parse_backends-ne-nil js (bs ++ b ∷ []) (seen ++ b.id ∷ []) rest (inl (append-ne-nil bs b))

-- What the loop over a model's aliases adds.
abbrev Added : List String → List String → List String → List String × List String → Type 0
Added ids acc seen (acc', seen') =
    (new : List String) × (acc' ≡ acc ++ new)
    × (seen' ≡ seen ++ new)
    × All (λ a. elem a ids ≡ false) new
    × Distinct seen'

parse_aliases-Added :
    (js : Items) (ids acc seen : List String) {r : List String × List String}
    → parse_aliases js ids acc seen ≡ ok r
    → Distinct seen
    → Added ids acc seen r
unfolding parse_aliases
parse_aliases-Added nil ids acc seen h d =
    subst (Added ids acc seen) (ok-injective h)
      ([], sym (append-nil acc), sym (append-nil seen), tt, d)
parse_aliases-Added (cons j js) ids acc seen {r} h d =
    >>=-cases (require (nonempty_text (some j))) _ h λ a ea h1.
      >>=-cases (reject (elem a ids)) _ h1 λ _ e1 h2.
        >>=-cases (reject (elem a seen)) _ h2 λ _ e2 h3.
          let (new, p, q, fresh, d') =
            parse_aliases-Added js ids (acc ++ a ∷ []) (seen ++ a ∷ []) {r = r} h3
              (Distinct-snoc seen a d (reject-ok (elem a seen) e2)) in
          (
            a ∷ new,
            p ∙ append_assoc acc (a ∷ []) new,
            q ∙ append_assoc seen (a ∷ []) new,
            (reject-ok (elem a ids) e1, fresh),
            d',
          )

-- What the body of the loop over the models guarantees of one model.
abbrev Accepted : List String → List String → List String → ModelConfig × List String → Type 0
Accepted bids mids seen (m, seen') =
    (elem m.id mids ≡ false)
    × (elem m.backend_id bids ≡ true)
    × (seen' ≡ seen ++ m.aliases)
    × All (λ a. elem a mids ≡ false) m.aliases
    × Distinct seen'

known_backend : (b : Bool) {u : Unit {0}} → reject (if b then false else true) ≡ ok u → b ≡ true
unfolding reject
known_backend true h = refl
known_backend false h = cc

accept :
    (bids mids seen : List String) (m : ModelConfig) (found : List String × List String)
    → elem m.id mids ≡ false
    → elem m.backend_id bids ≡ true
    → m.aliases ≡ found.0
    → Added mids [] seen found
    → Accepted bids mids seen (m, found.1)
accept bids mids seen m found fresh known e (new, p, q, unused, d) =
    (fresh, known, rw (e, p) q, rw (e, p) unused, d)

parse_model-Accepted :
    (j : Json) (bids mids seen : List String) {r : ModelConfig × List String}
    → parse_model j bids mids seen ≡ ok r
    → Distinct seen
    → Accepted bids mids seen r
unfolding parse_model
parse_model-Accepted (obj f) bids mids seen {r} h d =
    >>=-cases (require (nonempty_text (get_field f "id"))) _ h λ mid ei h1.
      >>=-cases (reject (elem mid mids)) _ h1 λ _ e1 h2.
        >>=-cases (require (nonempty_text (get_field f "backend_id"))) _ h2 λ bid eb h3.
          >>=-cases (reject (if elem bid bids then false else true)) _ h3 λ _ e2 h4.
            >>=-cases (backend_model_of (get_field f "backend_model") mid) _ h4 λ bm em h5.
              >>=-cases (aliases_of (get_field f "aliases")) _ h5 λ items et h6.
                >>=-cases (parse_aliases items mids [] seen) _ h6 λ found ef h7.
                  >>=-cases (metadata_of (get_field f "metadata")) _ h7 λ md ed h8.
                    subst (Accepted bids mids seen) (ok-injective h8) (
                      accept bids mids seen
                        (record {
                          id = mid;
                          backend_id = bid;
                          backend_model = bm;
                          enabled = enabled_of (get_field f "enabled");
                          aliases = found.0;
                          metadata = md;
                        })
                        found (reject-ok (elem mid mids) e1) (known_backend (elem bid bids) e2) refl
                        (parse_aliases-Added items mids [] seen {r = found} ef d))
parse_model-Accepted null bids mids seen h d = cc
parse_model-Accepted (bool x) bids mids seen h d = cc
parse_model-Accepted (num n) bids mids seen h d = cc
parse_model-Accepted (decimal s) bids mids seen h d = cc
parse_model-Accepted (str s) bids mids seen h d = cc
parse_model-Accepted (arr xs) bids mids seen h d = cc

-- The loop's state: the models so far, their ids, and their aliases.
record Models (bids : List String) (ms : List ModelConfig) (mids seen : List String) : Type 0 where
  ids : mids ≡ model_ids ms
  aliases : seen ≡ all_aliases ms
  distinct : Distinct mids
  aliases_distinct : Distinct seen
  known : All (λ m. elem m.backend_id bids ≡ true) ms
  new : AliasesNew [] ms

All-snoc {ℓ κ} :
    {A : Type ℓ} (P : A → Type κ) (xs : List A) (x : A) → All P xs → P x → All P (xs ++ x ∷ [])
All-snoc P [] x h p = (p, tt)
All-snoc P (y ∷ ys) x h p = (h.0, All-snoc P ys x h.1 p)

all_aliases-snoc :
    (ms : List ModelConfig) (m : ModelConfig)
    → all_aliases (ms ++ m ∷ []) ≡ all_aliases ms ++ m.aliases
all_aliases-snoc [] m = append-nil m.aliases
all_aliases-snoc (x ∷ ms) m =
    rw (all_aliases-snoc ms m) (sym (append_assoc x.aliases (all_aliases ms) m.aliases))

AliasesNew-snoc :
    (ids : List String) (ms : List ModelConfig) (m : ModelConfig)
    → AliasesNew ids ms
    → All (λ a. elem a (ids ++ model_ids ms) ≡ false) m.aliases
    → AliasesNew ids (ms ++ m ∷ [])
AliasesNew-snoc ids [] m h p = (rw (append-nil ids) at p, tt)
AliasesNew-snoc ids (x ∷ ms) m h p = (
  h.0,
  AliasesNew-snoc (ids ++ x.id ∷ []) ms m h.1 (rw (append_assoc ids (x.id ∷ []) (model_ids ms)) p),
)

Models-snoc :
    (bids : List String) (ms : List ModelConfig) (mids seen seen' : List String) (m : ModelConfig)
    → Models bids ms mids seen
    → Accepted bids mids seen (m, seen')
    → Models bids (ms ++ m ∷ []) (mids ++ m.id ∷ []) seen'
Models-snoc bids ms mids seen seen' m v (fresh, known, grown, new, d) = record {
  ids = rw (map-append (λ (c : ModelConfig). c.id) ms (m ∷ []), v.ids) refl;
  aliases = grown ∙ rw (v.aliases) (sym (all_aliases-snoc ms m));
  distinct = Distinct-snoc mids m.id v.distinct fresh;
  aliases_distinct = d;
  known = All-snoc _ ms m v.known known;
  new = AliasesNew-snoc [] ms m v.new (rw v.ids at new);
}

parse_models-Models :
    (js : Items) (bids : List String) (ms : List ModelConfig) (mids seen : List String)
    {r : List ModelConfig}
    → parse_models js bids ms mids seen ≡ ok r
    → Models bids ms mids seen
    → (mids' : List String) × (seen' : List String) × Models bids r mids' seen'
unfolding parse_models
parse_models-Models nil bids ms mids seen h v =
    (mids, seen, subst (λ (r : List ModelConfig). Models bids r mids seen) (ok-injective h) v)
parse_models-Models (cons j js) bids ms mids seen h v =
    >>=-cases (parse_model j bids mids seen) _ h λ found ef rest.
      parse_models-Models js bids (ms ++ found.0 ∷ []) (mids ++ found.0.id ∷ []) found.1 rest (
        Models-snoc bids ms mids seen found.1 found.0 v
          (parse_model-Accepted j bids mids seen {r = found} ef v.aliases_distinct))

parse_models-ne-nil :
    (js : Items) (bids : List String) (ms : List ModelConfig) (mids seen : List String)
    {r : List ModelConfig}
    → parse_models js bids ms mids seen ≡ ok r
    → (ms ≢ []) ⊎ ((x : Json) × (xs : Items) × (js ≡ cons x xs))
    → r ≢ []
unfolding parse_models
parse_models-ne-nil nil bids ms mids seen h (inl n) =
    subst (λ (r : List ModelConfig). r ≢ []) (ok-injective h) n
parse_models-ne-nil nil bids ms mids seen h (inr (x, xs, e)) = cc
parse_models-ne-nil (cons j js) bids ms mids seen h n =
    >>=-cases (parse_model j bids mids seen) _ h λ found ef rest.
      parse_models-ne-nil js bids (ms ++ found.0 ∷ []) (mids ++ found.0.id ∷ []) found.1 rest
        (inl (append-ne-nil ms found.0))

nonempty_list-cons :
    (o : Option Json) {js : Items}
    → require (nonempty_list o) ≡ ok js
    → (x : Json) × (xs : Items) × (js ≡ cons x xs)
unfolding require nonempty_list
nonempty_list-cons (some (arr (cons x xs))) h = (x, xs, cc)
nonempty_list-cons _ h = cc

no-Models : {bids : List String} → Models bids [] [] []
no-Models = record {
  ids = refl;
  aliases = refl;
  distinct = tt;
  aliases_distinct = tt;
  known = tt;
  new = tt;
}

assemble :
    (bs : List BackendConfig × List String) (ms : List ModelConfig)
    → bs.0 ≢ []
    → ms ≢ []
    → Backends bs
    → (mids : List String) × (seen : List String) × Models bs.1 ms mids seen
    → IsWellformed (record { backends = bs.0; models = ms })
assemble (backends, bids) ms nb nm (eb, db) (mids, seen, v) = record {
  has_backends = nb;
  has_models = nm;
  backends_distinct = rw eb at db;
  models_distinct = rw v.ids at v.distinct;
  backends_known = rw eb at v.known;
  aliases_distinct = rw v.aliases at v.aliases_distinct;
  aliases_new = v.new;
}

-- A configuration that validation accepts has backends and models, no two backends of one id, no
-- two models of one id, only models of configured backends, no alias twice in the whole file, and
-- no alias that is the id of a model earlier in the file.
pub parse_routing_config-IsWellformed :
    (raw : Fields) {c : ParsedRoutingConfig} → parse_routing_config raw ≡ ok c → IsWellformed c
unfolding parse_routing_config
parse_routing_config-IsWellformed raw h =
    >>=-cases (require (nonempty_list (get_field raw "backends"))) _ h λ braw e1 h1.
      >>=-cases (require (nonempty_list (get_field raw "models"))) _ h1 λ mraw e2 h2.
        >>=-cases (parse_backends braw [] []) _ h2 λ bs e3 h3.
          >>=-cases (parse_models mraw bs.1 [] [] []) _ h3 λ ms e4 h4.
            subst IsWellformed (ok-injective h4) (
              assemble bs ms
                (parse_backends-ne-nil braw [] [] e3
                  (inr (nonempty_list-cons (get_field raw "backends") e1)))
                (parse_models-ne-nil mraw bs.1 [] [] [] e4
                  (inr (nonempty_list-cons (get_field raw "models") e2)))
                (parse_backends-Backends braw [] [] {r = bs} e3 (refl, tt))
                (parse_models-Models mraw bs.1 [] [] [] e4 no-Models))
