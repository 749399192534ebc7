-- ===== src/Routing/BackendRegistry/Health.antt =====
-- The health cache of app/routing/backend_registry.py.
use syn.Common.{
  ℕ, ◌+◌, ◌-◌, ◌≤◌, String, ◌≡◌, refl, ◌⊎◌, inl, inr, Bool, true, false, ◌&&◌, not, Option, none,
  some, arith, leb, str_eq, if◌then◌else◌, Bool-cases,
}
use syn.Common.Dict
use syn.Common.Dict.{get-put}
use syn.Errors.{Result, ok}
use syn.Backend.{InferenceBackend, BackendHealthResult}
use syn.Routing.BackendRegistry.{BackendRegistry, probe, cached_at, refresh, health_of, health}

-- The answer is the cached result, which is not older than the time to live, and nothing changes.
abbrev pub FromCache :
    BackendRegistry → String → Bool → ℕ → BackendRegistry × Result BackendHealthResult → Type 0
FromCache r k force now (r', answer) =
    (h : BackendHealthResult) × (answer ≡ ok h)
    × (Dict.get r.health_cache k ≡ some h)
    × (force ≡ false)
    × ((t : ℕ) → Dict.get r.health_at k ≡ some t → now ≤ t + r.health_ttl)
    × (r' ≡ r)

-- The answer is that of a probe made now, which is recorded under this id alone.
abbrev pub Probed :
    BackendRegistry
    → String
    → InferenceBackend
    → ℕ
    → BackendRegistry × Result BackendHealthResult
    → Type 0
Probed r k b now (r', answer) =
    (answer ≡ ok (probe b))
    × ((j : String)
        → Dict.get r'.health_cache j
          ≡ (if str_eq k j then some (probe b) else Dict.get r.health_cache j))
    × ((j : String)
        → Dict.get r'.health_at j ≡ (if str_eq k j then some now else Dict.get r.health_at j))
    × (r'.backends ≡ r.backends)
    × (r'.health_ttl ≡ r.health_ttl)

refresh-Probed :
    (r : BackendRegistry) (k : String) (b : InferenceBackend) (now : ℕ)
    → Probed r k b now (refresh r k b now)
unfolding refresh
refresh-Probed r k b now =
    (refl, λ j. get-put r.health_cache k j (probe b), λ j. get-put r.health_at k j now, refl, refl)

young :
    (r : BackendRegistry) (k : String) (now t : ℕ)
    → leb (now - cached_at r k) r.health_ttl ≡ true
    → Dict.get r.health_at k ≡ some t
    → now ≤ t + r.health_ttl
unfolding cached_at
young r k now t h e = ground arith

health_of-cases :
    (r : BackendRegistry) (k : String) (force : Bool) (now : ℕ) (b : InferenceBackend)
    (cached : Option BackendHealthResult)
    → Dict.get r.health_cache k ≡ cached
    → FromCache r k force now (health_of r k force now (some b) cached)
      ⊎ Probed r k b now (health_of r k force now (some b) cached)
unfolding health_of
health_of-cases r k force now b none e = inr (refresh-Probed r k b now)
health_of-cases r k force now b (some h) e =
    elim (Bool-cases (not force && leb (now - cached_at r k) r.health_ttl)) [
      | inl fresh ↦ rw fresh (
          inl (
            h,
            refl,
            e,
            ground (arith, fresh),
            (λ t. young r k now t (ground (arith, fresh))),
            refl,
          ))
      | inr stale ↦ rw stale (inr (refresh-Probed r k b now))
    ]

-- A health query for a registered backend never raises. It returns the cached result, which is not
-- older than the time to live and only if no probe is forced, and changes nothing; or it returns the
-- result of a probe made now, and records that result and the time under this id alone.
pub health-registered :
    (r : BackendRegistry) (k : String) (force : Bool) (now : ℕ) (b : InferenceBackend)
    → Dict.get r.backends k ≡ some b
    → FromCache r k force now (health r k force now) ⊎ Probed r k b now (health r k force now)
unfolding health
health-registered r k force now b e =
    rw e (health_of-cases r k force now b (Dict.get r.health_cache k) refl)
