-- ===== src/Gateway/Limits.antt =====
-- The limit on the size of a request (app/core/request_size.py), by the length that it declares.
use syn.Common.{
  ℕ, ◌≤◌, ◌<◌, ◌≡◌, refl, ◌⊎◌, inl, inr, Option, none, some, [], arith, ltb, length, Bool-cases,
}
use syn.Common.Int.{pos}
use syn.Common.Text.{Text}
use syn.Common.Decimal.{str_of, max_digits}
use syn.Common.Decimal.RoundTrip.{int_of-str_of}
use syn.Gateway.{
  Response, Answer, HttpRequest, assigned_id, tagged, length_of, exceeds, too_large, refusal,
  request_id_dispatch, request_size_dispatch, serve, request_id_name,
}
use syn.Common.Dict

length_of-str_of : (n : ℕ) → length (str_of n) ≤ max_digits → length_of (str_of n) ≡ pos n
unfolding length_of
length_of-str_of n h = rw (int_of-str_of n h, length_of) refl

-- A request that declares its length, in at most 4300 digits: if that is over the limit, it is
-- answered with status 413 whatever its route would do, and else it is served as one that declares
-- none.
pub serve-content_length :
    (limit n : ℕ) (uuid : Text) (req : HttpRequest) (context : Option Text)
    → req.content_length ≡ some (str_of n)
    → length (str_of n) ≤ max_digits
    → ((limit < n)
        × (r : Response) × (r.status ≡ 413)
        × ((app : Option Text → Answer) → serve limit uuid req app context ≡ (context, some r)))
      ⊎ ((n ≤ limit)
          × ((app : Option Text → Answer)
              → serve limit uuid req app context
                ≡ serve limit uuid (record req { content_length = none }) app context))
unfolding serve request_id_dispatch request_size_dispatch tagged exceeds refusal
serve-content_length limit n uuid req context declared h =
    let id = assigned_id req.request_id_header uuid in
    elim (Bool-cases (ltb limit n)) [
      | inl e ↦ inl (
        ground (arith, e),
        record (refusal (some id) req.path (too_large limit (pos n))) {
          headers = Dict.put [] request_id_name id;
        },
        refl,
        λ app. rw (declared, length_of-str_of n h, e) refl,
      )
      | inr e ↦ inr (ground (arith, e), λ app. rw (declared, length_of-str_of n h, e) refl)
    ]
