-- ===== src/LlamaCpp/Health/Answers.antt =====
-- What a health report of app/backends/llama_cpp.py says of the server.
use syn.Common.{
  ℕ, ◌≡◌, refl, ap, ◌↔◌, true, false, Option, none, some, inl, inr, List, [], ◌∷◌, arith, ◌==◌,
  str_eq_iff, Bool-cases,
}
use syn.Common.Text.{Text}
use syn.Common.Json.{Json, null, bool, num, decimal, str, arr, obj, get_field}
use syn.Errors.{Result, ok, err}
use syn.Backend.{BackendHealthState, unknown, reachable, unreachable, timeout, invalid}
use syn.LlamaCpp.{
  Reply, DiscoveredModel, transport_failed, crashed, answered, is_timeout, models,
  runtime_model_info, runtime_model, info_of,
}
use syn.LlamaCpp.Names.{IsPlainName, sanitize_model_name-IsPlainName}
use syn.LlamaCpp.Health.{
  HealthReport, Recorded, remembered, same_state, log_of, logged, record_health, is_ok, probe_body,
  probe, health,
}

-- The server's answer is a response of status 200 that says that it is ok.
abbrev pub IsOkAnswer : Reply → Type 0
IsOkAnswer (answered status (some (obj d))) =
    (status ≡ 200) × (get_field d "status" ≡ some (str "ok"))
IsOkAnswer _ = ⊥

is_ok_iff : (v : Option Json) → (is_ok v ≡ true) ↔ (v ≡ some (str "ok"))
unfolding is_ok
is_ok_iff none = (λ h. absurd (cc), λ h. absurd (cc))
is_ok_iff (some null) = (λ h. absurd (cc), λ h. absurd (cc))
is_ok_iff (some (bool b)) = (λ h. absurd (cc), λ h. absurd (cc))
is_ok_iff (some (num n)) = (λ h. absurd (cc), λ h. absurd (cc))
is_ok_iff (some (decimal s)) = (λ h. absurd (cc), λ h. absurd (cc))
is_ok_iff (some (arr items)) = (λ h. absurd (cc), λ h. absurd (cc))
is_ok_iff (some (obj d)) = (λ h. absurd (cc), λ h. absurd (cc))
is_ok_iff (some (str s)) =
    (λ h. ap (λ t. some (str t)) ((str_eq_iff s "ok").0 h), λ h. (str_eq_iff s "ok").1 (cc))

info_of-IsPlainName :
    (found : Result (List DiscoveredModel)) (name : Text)
    → runtime_model (info_of found) ≡ some name
    → IsPlainName name
unfolding runtime_model info_of
info_of-IsPlainName (ok (m ∷ ms)) name h = sanitize_model_name-IsPlainName m.id name h
info_of-IsPlainName (ok []) name h = absurd (cc)
info_of-IsPlainName (err e) name h = absurd (cc)

-- The client's time-out ended the call.
abbrev pub TimedOut : Reply → Type 0
TimedOut (transport_failed e) = is_timeout e ≡ true
TimedOut _ = ⊥

-- What a report says: it says reachable exactly when the server answers that it is ok, timed out
-- exactly when the client timed out, and the name it shows is no path.
pub record IsTrue (reply : Reply) (r : HealthReport) : Type 0 where
  pub reachable_iff : (r.is_reachable ≡ true) ↔ IsOkAnswer reply
  pub same_answer : (r.state ≡ reachable) ↔ (r.is_reachable ≡ true)
  pub timeout_iff : (r.state ≡ timeout) ↔ TimedOut reply
  pub plain_name : (name : Text) → r.model ≡ some name → IsPlainName name

-- Nothing is logged of a first report, and of one of the remembered state.
abbrev pub IsQuiet : Option BackendHealthState → BackendHealthState → Type 0
IsQuiet none s = Unit
IsQuiet (some prev) s = same_state prev s ≡ true

log_of-nonempty : (s : BackendHealthState) → ¬ (log_of s ≡ [])
unfolding log_of
log_of-nonempty unknown h = cc
log_of-nonempty reachable h = cc
log_of-nonempty unreachable h = cc
log_of-nonempty timeout h = cc
log_of-nonempty invalid h = cc

logged-IsQuiet :
    (prev : Option BackendHealthState) (s : BackendHealthState)
    → (logged prev s ≡ []) ↔ IsQuiet prev s
unfolding logged
logged-IsQuiet none s = (λ h. tt, λ h. refl)
logged-IsQuiet (some prev) s = elim (Bool-cases (same_state prev s)) [
  | inl e ↦ rw e (λ h. refl, λ h. refl)
  | inr e ↦ rw e (λ h. absurd (log_of-nonempty s h), λ h. absurd (cc))
]

reachable_state : (s : BackendHealthState) → (s ≡ reachable) ↔ (same_state s reachable ≡ true)
unfolding same_state
reachable_state unknown = (λ h. absurd (cc), λ h. absurd (cc))
reachable_state reachable = (λ h. refl, λ h. refl)
reachable_state unreachable = (λ h. absurd (cc), λ h. absurd (cc))
reachable_state timeout = (λ h. absurd (cc), λ h. absurd (cc))
reachable_state invalid = (λ h. absurd (cc), λ h. absurd (cc))

same_state_sound : (s t : BackendHealthState) → same_state s t ≡ true → s ≡ t
unfolding same_state
same_state_sound unknown unknown h = refl
same_state_sound reachable reachable h = refl
same_state_sound unreachable unreachable h = refl
same_state_sound timeout timeout h = refl
same_state_sound invalid invalid h = refl
same_state_sound _ _ h = absurd (cc)

remembered-state :
    (prev : Option BackendHealthState) (s : BackendHealthState) → remembered prev s ≡ some s
unfolding remembered
remembered-state none s = refl
remembered-state (some prev) s = elim (Bool-cases (same_state prev s)) [
  | inl e ↦ rw e (ap (λ t. some t) (same_state_sound prev s e))
  | inr e ↦ rw e refl
]

module _ (text : Json → Text) (discovery : Reply) (prev : Option BackendHealthState) where
  not_ok :
      (reply : Reply) (s : BackendHealthState)
      → same_state s reachable ≡ false
      → ¬ (IsOkAnswer reply)
      → (s ≡ timeout) ↔ TimedOut reply
      → IsTrue reply (record_health prev s null none).report
  unfolding record_health
  not_ok reply s h n timed = record {
    reachable_iff = (λ e. absurd (cc), λ e. absurd (n e));
    same_answer = reachable_state s;
    timeout_iff = timed;
    plain_name = λ name e. absurd (cc);
  }

  invalid_body :
      (status : ℕ) (body : Option Json)
      → ¬ (IsOkAnswer (answered status body))
      → IsTrue (answered status body) (record_health prev invalid null none).report
  unfolding same_state
  invalid_body status body n =
      not_ok (answered status body) invalid refl n (λ e. absurd (cc), λ e. absurd e)

  -- The reports of a response of status 200.
  probe_body-IsTrue :
      (body : Option Json)
      → (let found = probe_body text body discovery in
          IsTrue (answered 200 body) (record_health prev found.0 found.1 found.2).report)
  unfolding probe_body record_health same_state info_of runtime_model_info
  probe_body-IsTrue none = invalid_body 200 _ (λ n. n)
  probe_body-IsTrue (some (obj d)) = elim (Bool-cases (is_ok (get_field d "status"))) [
    | inl e ↦ rw e (record {
      reachable_iff = (λ h. (refl, (is_ok_iff (get_field d "status")).0 e), λ h. refl);
      same_answer = (λ h. refl, λ h. refl);
      timeout_iff = (λ h. absurd (cc), λ h. absurd h);
      plain_name = λ name h. info_of-IsPlainName (models text discovery) name h;
    })
    | inr e ↦
        rw e (invalid_body 200 _ (λ n. absurd (cc (e, (is_ok_iff (get_field d "status")).1 n.1))))
  ]
  probe_body-IsTrue (some null) = invalid_body 200 _ (λ n. n)
  probe_body-IsTrue (some (bool b)) = invalid_body 200 _ (λ n. n)
  probe_body-IsTrue (some (num n)) = invalid_body 200 _ (λ n. n)
  probe_body-IsTrue (some (decimal s)) = invalid_body 200 _ (λ n. n)
  probe_body-IsTrue (some (str s)) = invalid_body 200 _ (λ n. n)
  probe_body-IsTrue (some (arr items)) = invalid_body 200 _ (λ n. n)

  -- A probe that returns: what it reports, logs and remembers.
  abbrev pub Reported : Reply → Result Recorded → Type 0
  Reported reply result =
      (x : Recorded) × (result ≡ ok x)
      × IsTrue reply x.report
      × ((x.logs ≡ []) ↔ IsQuiet prev x.report.state)
      × (x.last_state ≡ some x.report.state)

  reported :
      (reply : Reply) (s : BackendHealthState) (version : Json) (model : Option Text)
      → IsTrue reply (record_health prev s version model).report
      → Reported reply (ok (record_health prev s version model))
  unfolding record_health
  reported reply s version model t = (_, refl, t, logged-IsQuiet prev s, remembered-state prev s)

  other_status :
      (status : ℕ) (body : Option Json) → ¬ (status ≡ 200) → ¬ (IsOkAnswer (answered status body))
  other_status status none n k = k
  other_status status (some null) n k = k
  other_status status (some (bool b)) n k = k
  other_status status (some (num m)) n k = k
  other_status status (some (decimal s)) n k = k
  other_status status (some (str s)) n k = k
  other_status status (some (arr items)) n k = k
  other_status status (some (obj d)) n k = n k.0

  unreachable_status :
      (status : ℕ) (body : Option Json)
      → ¬ (status ≡ 200)
      → IsTrue (answered status body) (record_health prev unreachable null none).report
  unfolding same_state
  unreachable_status status body n =
      not_ok _ unreachable refl (other_status status body n) (λ e. absurd (cc), λ e. absurd e)

  -- The status of a response decides first, and then its body.
  answered-Reported :
      (status : ℕ) (body : Option Json)
      → Reported (answered status body) (health text (answered status body) discovery prev)
  unfolding health probe
  answered-Reported status body = elim (Bool-cases (status == 503)) [
    | inl e ↦
        rw e (reported _ unreachable null none (unreachable_status status body (ground (arith, e))))
    | inr e ↦ elim (Bool-cases (status == 200)) [
      | inl h ↦
          let p : status ≡ 200 = ground (arith, h) in
          rw p (reported _ _ _ _ (probe_body-IsTrue body))
      | inr h ↦
          rw (e, h)
            (reported _ unreachable null none (unreachable_status status body (ground (arith, h))))
    ]
  ]

  -- Unless the client raises an exception that is no transport error, a health probe returns a report:
  -- it says reachable exactly when the server answers with status 200 and a JSON object whose status
  -- is "ok", whether or not the discovery of the model succeeds, and timed out exactly when the
  -- client timed out. The name of the model that it shows is not empty and has no separator of
  -- paths. The state of the report is remembered, and the probe logs nothing exactly when no state
  -- was remembered before it or the remembered one is the new one.
  pub health-Reported :
      (reply : Reply) → ¬ (reply ≡ crashed) → Reported reply (health text reply discovery prev)
  unfolding health probe
  health-Reported crashed n = absurd (n refl)
  health-Reported (transport_failed e) n = elim (Bool-cases (is_timeout e)) [
    | inl h ↦ rw h (
        reported _ timeout null none
          (not_ok _ timeout (unfold same_state in refl) (λ k. k) (λ k. h, λ k. refl)))
    | inr h ↦ rw h (
        reported _ unreachable null none (
          not_ok _ unreachable (unfold same_state in refl) (λ k. k)
            (λ k. absurd (cc), λ k. absurd (cc))))
  ]
  health-Reported (answered status body) n = answered-Reported status body
