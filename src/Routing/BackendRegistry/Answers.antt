-- ===== src/Routing/BackendRegistry/Answers.antt =====
-- Where the answers of app/routing/backend_registry.py's `health_map` come from.
use mathlib.Core.Option.{some-injective}
use syn.Common.{
  ℕ, ◌+◌, ◌≤◌, String, ◌≡◌, refl, sym, ap, ◌∙◌, subst, ◌⊎◌, inl, inr, Bool, true, false, some, List,
  [], ◌∷◌, arith, All, Bool-cases, Option-cases, if◌then◌else◌, str_eq, str_eq_iff, str_eq_refl,
}
use syn.Common.Dict.{Dict, elem, elem-keys, get-put}
use syn.Common.Dict
use syn.Errors.{Result, ok}
use syn.Backend.{InferenceBackend, BackendHealthResult}
use syn.Routing.BackendRegistry.{BackendRegistry, probe, health, health_loop, health_map}
use syn.Routing.BackendRegistry.Health.{Probed, health-registered}

-- The cache holds a result that is not older than the time to live.
abbrev pub IsFresh : BackendRegistry → ℕ → String → BackendHealthResult → Type 0
IsFresh r now k h =
    (Dict.get r.health_cache k ≡ some h)
    × ((t : ℕ) → Dict.get r.health_at k ≡ some t → now ≤ t + r.health_ttl)

-- A result is that of a probe of the backend, or is fresh in the cache.
abbrev pub IsFound : BackendRegistry → ℕ → String → BackendHealthResult → Type 0
IsFound r now k h =
    (b : InferenceBackend) × (Dict.get r.backends k ≡ some b) × ((h ≡ probe b) ⊎ IsFresh r now k h)

abbrev pub AreFound : BackendRegistry → ℕ → Dict BackendHealthResult → Type 0
AreFound r now hs = All (λ (e : String × BackendHealthResult). IsFound r now e.0 e.1) hs

-- The registry after some queries of a moment: what is fresh in its cache now was found.
record IsLater (r : BackendRegistry) (now : ℕ) (r' : BackendRegistry) : Type 0 where
  same_backends : r'.backends ≡ r.backends
  fresh :
      (k : String) (h : BackendHealthResult) (b : InferenceBackend)
      → Dict.get r.backends k ≡ some b
      → IsFresh r' now k h
      → (h ≡ probe b) ⊎ IsFresh r now k h

IsLater-refl : (r : BackendRegistry) (now : ℕ) → IsLater r now r
IsLater-refl r now = record { same_backends = refl; fresh = λ k h b e f. inr f }

has_step :
    (k j : String) (ks : List String) (out : Dict BackendHealthResult) (h : BackendHealthResult)
    → (if elem j ks then true else Dict.has (Dict.put out k h) j)
      ≡ (if elem j (k ∷ ks) then true else Dict.has out j)
unfolding elem
has_step k j ks out h = ground (arith, get-put out k j h, str_eq_iff k j, str_eq_iff j k)

module _ (r : BackendRegistry) (now : ℕ) where
  Probed-IsLater :
      (r' : BackendRegistry) (k : String) (b : InferenceBackend)
      (answered : BackendRegistry × Result BackendHealthResult)
      → IsLater r now r'
      → Dict.get r.backends k ≡ some b
      → Probed r' k b now answered
      → IsLater r now answered.0
  Probed-IsLater r' k b answered later known p = record {
    same_backends = p.3 ∙ later.same_backends;
    fresh = λ j h c known' f. elim (Bool-cases (str_eq k j)) [
      | inl e ↦
          let same : k ≡ j = (str_eq_iff k j).0 e in
          let backend : b ≡ c =
            some-injective _ _ (sym known ∙ ap (λ i. Dict.get r.backends i) same ∙ known') in
          inl (some-injective _ _ (sym f.0 ∙ rw e at (p.1 j)) ∙ ap probe backend)
      | inr e ↦ later.fresh j h c known' (
        sym (rw e at (p.1 j)) ∙ f.0,
        λ t at_t. omega (arith, f.1 t ((rw e at (p.2 j)) ∙ at_t), p.4),
      )
    ];
  }

  -- A query of a registered backend finds its health.
  health-IsFound :
      (r' : BackendRegistry) (k : String) (force : Bool)
      → IsLater r now r'
      → Dict.has r.backends k ≡ true
      → (h : BackendHealthResult) × ((health r' k force now).1 ≡ ok h)
        × IsFound r now k h
        × IsLater r now (health r' k force now).0
  health-IsFound r' k force later has = elim (Option-cases (Dict.get r.backends k)) [
    | inl e ↦ absurd (cc (rw (e, Dict.has) at has))
    | inr (b, e) ↦
        let e' : Dict.get r'.backends k ≡ some b = rw later.same_backends e in
        elim (health-registered r' k force now b e') [
          | inl c ↦ (c.0, c.1, (b, e, later.fresh k c.0 b e (c.2, c.4)), rw c.5 later)
          | inr p ↦ (_, p.0, (b, e, inl refl), Probed-IsLater r' k b _ later e p)
        ]
  ]

  put-AreFound :
      (out : Dict BackendHealthResult) (k : String) (h : BackendHealthResult)
      → AreFound r now out
      → IsFound r now k h
      → AreFound r now (Dict.put out k h)
  unfolding Dict.put
  put-AreFound [] k h a f = (f, tt)
  put-AreFound ((j, v) ∷ out) k h a f = elim (Bool-cases (str_eq j k)) [
    | inl e ↦ rw e (subst (λ i. IsFound r now i h) (sym ((str_eq_iff j k).0 e)) f, a.1)
    | inr e ↦ rw e (a.0, put-AreFound out k h a.1 f)
  ]

  -- The loop answers for registered ids, and collects what is found of exactly them.
  health_loop-answers :
      (ks : List String) (r' : BackendRegistry) (force : Bool) (out : Dict BackendHealthResult)
      → IsLater r now r'
      → AreFound r now out
      → ((k : String) → elem k ks ≡ true → Dict.has r.backends k ≡ true)
      → (hs : Dict BackendHealthResult) × ((health_loop r' ks force now out).1 ≡ ok hs)
        × ((k : String) → Dict.has hs k ≡ (if elem k ks then true else Dict.has out k))
        × AreFound r now hs
  unfolding health_loop elem
  health_loop-answers [] r' force out later a known = (out, refl, λ k. refl, a)
  health_loop-answers (k ∷ ks) r' force out later a known =
      let (h, answer, found, later') =
        health-IsFound r' k force later (known k (rw (str_eq_refl k) refl)) in
      let (hs, done, keys, founds) =
        health_loop-answers ks (health r' k force now).0 force (Dict.put out k h) later'
          (put-AreFound out k h a found) (λ j e. known j (ground (arith, e))) in
      (hs, rw (answer, health_loop) done, λ j. keys j ∙ has_step k j ks out h, founds)

if_self : (b : Bool) → (if b then true else false) ≡ b
if_self true = refl
if_self false = refl

-- The health of every backend of the registry is found, and of nothing else.
pub health_map-answers :
    (r : BackendRegistry) (force : Bool) (now : ℕ)
    → (hs : Dict BackendHealthResult) × ((health_map r force now).1 ≡ ok hs)
      × ((k : String) → Dict.has hs k ≡ Dict.has r.backends k)
      × AreFound r now hs
unfolding health_map Dict.get
health_map-answers r force now =
    let (hs, done, keys, founds) =
      health_loop-answers r now (Dict.keys r.backends) r force [] (IsLater-refl r now) tt
        (λ k e. sym (elem-keys r.backends k) ∙ e) in
    (
      hs,
      done,
      λ k. keys k ∙ if_self (elem k (Dict.keys r.backends)) ∙ elem-keys r.backends k,
      founds,
    )
