-- ===== src/Gateway/Answers.antt =====
-- Every answer that leaves the gateway names its request (app/core/request_id.py, app/main.py).
use syn.Common.{
  ℕ, ◌≤◌, ◌≡◌, ◌⊎◌, inl, inr, true, false, Option, none, some, [], ◌∷◌, arith, is_empty, length,
  Option-cases,
}
use syn.Common.Dict
use syn.Common.Text.{Text, starts_with, strip}
use syn.Gateway.{
  is_not_found, thrown, invalid_request, crash, Body, openai_error, internal_error, invalid_detail,
  content, Response, Answer, answered, raises, any_space, bounded_id, sanitize, assigned_id,
  request_id_name, openai_prefix,
}

-- An identifier that is safe in a header and in a log line.
pub record IsSafeId (id : Text) : Type 0 where
  pub nonempty : is_empty id ≡ false
  pub short : length id ≤ 64
  pub no_space : any_space id ≡ false

bounded_id-IsSafeId : (value id : Text) → bounded_id value ≡ some id → IsSafeId id
unfolding bounded_id
bounded_id-IsSafeId value id h = record {
  nonempty = ground (arith, h);
  short = ground (arith, h);
  no_space = ground (arith, h);
}

sanitize-IsSafeId : (incoming : Option Text) (id : Text) → sanitize incoming ≡ some id → IsSafeId id
unfolding sanitize
sanitize-IsSafeId none id h = cc
sanitize-IsSafeId (some []) id h = cc
sanitize-IsSafeId (some (c ∷ s)) id h = bounded_id-IsSafeId (strip (c ∷ s)) id h

pub assigned_id-IsSafeId :
    (incoming : Option Text) (uuid : Text) → IsSafeId uuid → IsSafeId (assigned_id incoming uuid)
unfolding assigned_id
assigned_id-IsSafeId incoming uuid safe = elim (Option-cases (sanitize incoming)) [
  | inl e ↦ rw (e, assigned_id) safe
  | inr (id, e) ↦ let v = sanitize-IsSafeId incoming id e in rw (e, assigned_id, v.nonempty) v
]

-- The answer of a missing resource, outside of the data plane.
abbrev pub IsMissing : Text → Answer → Type 0
IsMissing path (raises (thrown t)) =
    (starts_with openai_prefix path ≡ false) × (is_not_found t.error.cls ≡ true)
IsMissing path _ = ⊥

-- The body of an error names the request, but for a response of status 404 that is made of a missing
-- resource outside of the data plane: that one names none.
abbrev pub Names : Text → (missing : Type 0) → ℕ → Body → Type 0
Names id missing status (openai_error e) = e.request_id ≡ some id
Names id missing status (internal_error e) =
    (e.request_id ≡ some (some id)) ⊎ (missing × (status ≡ 404) × (e.request_id ≡ none))
Names id missing status (invalid_detail es given) = given ≡ some id
Names id missing status (content value) = Unit

-- The program raises no error that brings a request id of its own.
abbrev pub BringsNoId : Answer → Type 0
BringsNoId (answered status headers body) = Unit
BringsNoId (raises (thrown t)) = t.request_id ≡ none
BringsNoId (raises (invalid_request es)) = Unit
BringsNoId (raises crash) = Unit

-- What leaves the gateway for a request of an identifier.
pub record IsNamed (id : Text) (missing : Type 0) (r : Response) : Type 0 where
  pub header : Dict.get r.headers request_id_name ≡ some id
  pub body_names : Names id missing r.status r.body

-- A response that a handler has made, if there is one, and if there is none the exception is another.
abbrev Carries : Text → Text → Answer → Option Response → Type 0
Carries id path a none = a ≡ raises crash
Carries id path a (some r) = Names id (IsMissing path a) r.status r.body

-- What leaves the gateway: a response that names the request in its header and its body, or an
-- exception of the route that is none of the program's.
abbrev pub Leaves : Text → Text → Answer → Option Response → Type 0
Leaves id path a none = a ≡ raises crash
Leaves id path a (some r) = IsNamed id (IsMissing path a) r
