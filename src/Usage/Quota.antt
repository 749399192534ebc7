-- ===== src/Usage/Quota.antt =====
-- The daily request quota of app/services/usage.py over a day's requests.
use syn.Common.{
  ℕ, suc, ◌+◌, ◌≤◌, ◌<◌, ◌≡◌, String, refl, ap, subst, ◌⊎◌, inl, inr, true, false, ◌&&◌, Option,
  some, List, [], ◌∷◌, arith, count_if, count_if-append, All, str_eq, str_eq_refl, str_eq-cases,
}
use syn.Common.Int.{ℤ, pos}
use syn.Errors.{Result, ok, err}
use syn.Usage.{
  UsageService, UsageRecord, ApiKey, Client, Readings, Call, QuotaCheckResult, effective_policy,
  day_start, in_period, column_is, of_key_today, count_requests_today, precheck, row, record_usage,
}
use syn.Usage.Precheck.{HasRoom, precheck-Verdict}

-- Recording a request of a key counts against the key's quota of the day on which the request
-- started, whatever its outcome, and a request that was rejected or timed out in the queue too.
pub count-record_usage :
    (s : UsageService) (now : ℕ) (table : List UsageRecord) (k : ApiKey) (client : Option Client)
    (c : Call)
    → day_start s.day now ≤ c.started_at
    → c.started_at < day_start s.day now + s.day
    → count_requests_today s now (record_usage table (some k) client c) k.id
      ≡ count_requests_today s now table k.id + 1
unfolding count_requests_today record_usage row of_key_today in_period column_is
count-record_usage s now table k client c h h' =
    let counted : of_key_today s now k.id (row (some k) client c) ≡ true =
      rw (str_eq_refl k.id) (ground (arith, h, h')) in
    rw (count_if-append (of_key_today s now k.id) table (row (some k) client c ∷ []), counted) refl

-- A request: what the clocks show at its precheck, whose it is, and how it is recorded.
pub record Request : Type 0 where
  pub now : Readings
  pub key : ApiKey
  pub client : Client
  pub call : Call

-- A request that passes its precheck is recorded.
abbrev recorded : List UsageRecord → Request → Result QuotaCheckResult → List UsageRecord
recorded table e (ok result) = record_usage table (some e.key) (some e.client) e.call
recorded table e (err thrown) = table

unfoldable pub served : UsageService → List UsageRecord → Request → List UsageRecord
served s table e = recorded table e (precheck s e.now table e.key e.client).1

unfoldable pub serve_all : UsageService → List UsageRecord → List Request → List UsageRecord
unfolding served
serve_all s table [] = table
serve_all s table (e ∷ es) =
    serve_all (precheck s e.now table e.key e.client).0 (served s table e) es

-- The key's requests are checked on one day, at one quota.
abbrev pub LimitedTo : UsageService → ℕ → String → ℕ → Request → Type 0
LimitedTo s now id n e =
    e.key.id ≡ id
    → (day_start s.day e.now.requests ≡ day_start s.day now)
      × ((effective_policy s e.key e.client).requests_per_day ≡ pos (suc n))

module _ (s : UsageService) (now : ℕ) (id : String) (table : List UsageRecord) (k : ApiKey)
    (client : Client) (c : Call) where
  count-record_le :
      count_requests_today s now (record_usage table (some k) (some client) c) id
      ≤ count_requests_today s now table id + 1
  unfolding count_requests_today record_usage
  count-record_le =
      rw (count_if-append (of_key_today s now id) table (row (some k) (some client) c ∷ []))
        (ground arith)

  count-record_other :
      str_eq k.id id ≡ false
      → count_requests_today s now (record_usage table (some k) (some client) c) id
        ≡ count_requests_today s now table id
  unfolding count_requests_today record_usage row of_key_today column_is
  count-record_other h =
      rw (count_if-append (of_key_today s now id) table (row (some k) (some client) c ∷ []), h)
        (omega arith)

  count-same_day :
      (then_ : ℕ)
      → day_start s.day then_ ≡ day_start s.day now
      → count_requests_today s then_ table id ≡ count_requests_today s now table id
  unfolding count_requests_today of_key_today
  count-same_day then_ h =
      ap (λ d. count_if (λ r. column_is id r.api_key_id && in_period d (d + s.day) r) table) h

served-cases :
    (s : UsageService) (table : List UsageRecord) (e : Request)
    → (served s table e ≡ table)
      ⊎ ((served s table e ≡ record_usage table (some e.key) (some e.client) e.call)
          × HasRoom
              (effective_policy s e.key e.client).requests_per_day
              (count_requests_today s e.now.requests table e.key.id))
unfolding served
served-cases s table e = elim (precheck-Verdict s e.now table e.key e.client) [
  | inl (r, _) ↦ inl (ap (recorded table e) r)
  | inr (inl (r, _, _)) ↦ inl (ap (recorded table e) r)
  | inr (inr (inl (r, _, _, _))) ↦ inl (ap (recorded table e) r)
  | inr (inr (inr (r, _, room, _))) ↦ inr (ap (recorded table e) r, room)
]

below_quota : (n used : ℕ) {limit : ℤ} → limit ≡ pos (suc n) → HasRoom limit used → used < suc n
below_quota n used e room = elim (subst (λ l. HasRoom l used) e room) [
  | inl none_set ↦ omega (arith, none_set)
  | inr below ↦ below
]

served-le :
    (s : UsageService) (now : ℕ) (id : String) (n : ℕ) (table : List UsageRecord) (e : Request)
    → LimitedTo s now id n e
    → count_requests_today s now table id ≤ suc n
    → count_requests_today s now (served s table e) id ≤ suc n
served-le s now id n table e h bound = elim (served-cases s table e) [
  | inl r ↦ rw r bound
  | inr (r, room) ↦ rw r (elim (str_eq-cases e.key.id id) [
    | inl same ↦
        let used : count_requests_today s e.now.requests table e.key.id
            ≡ count_requests_today s now table id =
          rw same (count-same_day s now id table e.key e.client e.call e.now.requests (h same).0) in
        omega (
          arith,
          used,
          count-record_le s now id table e.key e.client e.call,
          below_quota n _ (h same).1 room,
        )
    | inr (_, other) ↦ rw (count-record_other s now id table e.key e.client e.call other) bound
  ])
]

-- A key that is checked on one day at one positive quota of requests a day, however its requests
-- are interleaved with those of other keys, has at most that many records of that day, when each
-- request is recorded before the next is checked, and no more were there before.
pub serve_all-le :
    (s : UsageService) (now : ℕ) (id : String) (n : ℕ) (table : List UsageRecord)
    (es : List Request)
    → All (LimitedTo s now id n) es
    → count_requests_today s now table id ≤ suc n
    → count_requests_today s now (serve_all s table es) id ≤ suc n
unfolding serve_all precheck effective_policy count_requests_today of_key_today
serve_all-le s now id n table [] h bound = bound
serve_all-le s now id n table (e ∷ es) (h, hs) bound =
    serve_all-le (precheck s e.now table e.key e.client).0 now id n (served s table e) es hs
      (served-le s now id n table e h bound)
