-- ===== src/Settings/Valid.antt =====
-- What the settings that app/config.py accepts satisfy.
use mathlib.Core.Option.{some-injective}
use syn.Common.{
  ℕ, ◌≤◌, ◌≡◌, refl, sym, ◌∙◌, ap, subst, inl, inr, Bool, true, false, ◌||◌, not, Option, none,
  some, List, [], ◌∷◌, arith, is_empty, All, Bool-cases, Option-cases,
}
use syn.Common.Int.{ℤ, pos, negsuc}
use syn.Common.Text.{Text, text_eq, text_eq_sound, strip, split, is_space, drop_while, rstrip}
use syn.Settings.{
  Settings, Float, nan, infinity, minus_infinity, finite, refuse_if, ◌<&>◌, Serving, Timeouts,
  Sizes, Limits, Remote, build, validate_serving, validate_timeouts, validate_sizes,
  validate_limits, validate_remote, is_negative, is_not_positive, is_over, float_not_positive,
  validate_port, validate_timeout, upper, one_of, log_levels, validate_log_level,
  validate_max_active, validate_not_negative, max_body, validate_max_body, has_scheme, bad_part,
  any_bad, validate_cors, origins, origins_in, cors_origins_list, validate,
}

abbrev pub IsBetween : ℕ → ℕ → ℤ → Type 0
IsBetween low high value = (n : ℕ) × (value ≡ pos n) × (low ≤ n) × (n ≤ high)

abbrev pub IsAtLeast : ℕ → ℤ → Type 0
IsAtLeast low value = (n : ℕ) × (value ≡ pos n) × (low ≤ n)

-- A timeout of accepted settings: no bound, or a positive one. No comparison refuses nan.
abbrev pub IsTimeout : Float → Type 0
IsTimeout nan = Unit
IsTimeout infinity = Unit
IsTimeout minus_infinity = ⊥
IsTimeout (finite n) = IsAtLeast 1 n

pub record IsValid (s : Settings) : Type 0 where
  pub port : IsBetween 1 65535 s.port
  pub log_level : one_of log_levels s.log_level ≡ true
  pub backend_timeout : IsTimeout s.backend_timeout_seconds
  pub connect_timeout : IsTimeout s.backend_connect_timeout_seconds
  pub health_timeout : IsTimeout s.backend_health_timeout_seconds
  pub max_active : IsAtLeast 1 s.max_active_requests
  pub max_queue : IsAtLeast 0 s.max_queue_size
  pub queue_timeout : IsTimeout s.queue_timeout_seconds
  pub requests_per_minute : IsAtLeast 0 s.default_requests_per_minute
  pub requests_per_day : IsAtLeast 0 s.default_requests_per_day
  pub tokens_per_day : IsAtLeast 0 s.default_tokens_per_day
  pub max_body_bytes : IsBetween 1 max_body s.max_request_body_bytes
  pub cors_origins : All (λ o. has_scheme o ≡ true) (cors_origins_list s)

-- A validator that establishes a property of its value, and accepts what it returns.
abbrev Establishes : {A : Type 0} → (A → Option A) → (A → Type 0) → Type 0
Establishes {A} validator P = (v v' : A) → validator v ≡ some v' → P v' × (validator v' ≡ some v')

refuse_if-some :
    {A : Type 0} (bad : Bool) (v v' : A) → refuse_if bad v ≡ some v' → (bad ≡ false) × (v ≡ v')
refuse_if-some true v v' h = absurd (cc)
refuse_if-some false v v' h = (refl, some-injective _ _ h)

-- A validator that tests its value and returns it as it is.
test-Establishes :
    {A : Type 0} (bad : A → Bool) (P : A → Type 0)
    → ((v : A) → bad v ≡ false → P v)
    → Establishes (λ v. refuse_if (bad v) v) P
test-Establishes bad P means v v' h =
    let (good, same) = refuse_if-some (bad v) v v' h in
    let good' = subst (λ w. bad w ≡ false) same good in (means v' good', rw good' refl)

positive : (v : ℤ) → is_not_positive v ≡ false → IsAtLeast 1 v
unfolding is_not_positive
positive (pos n) h = (n, refl, ground (arith, h))
positive (negsuc n) h = absurd (cc)

not_negative : (v : ℤ) → is_negative v ≡ false → IsAtLeast 0 v
unfolding is_negative
not_negative (pos n) h = (n, refl, omega arith)
not_negative (negsuc n) h = absurd (cc)

between : (high : ℕ) (v : ℤ) → is_not_positive v || is_over high v ≡ false → IsBetween 1 high v
unfolding is_not_positive is_over
between high (pos n) h = (n, refl, ground (arith, h), ground (arith, h))
between high (negsuc n) h = absurd (cc)

timeout : (v : Float) → float_not_positive v ≡ false → IsTimeout v
unfolding float_not_positive
timeout nan h = tt
timeout infinity h = tt
timeout minus_infinity h = absurd (cc)
timeout (finite n) h = positive n h

port-Establishes : Establishes validate_port (IsBetween 1 65535)
unfolding validate_port
port-Establishes = test-Establishes _ _ (between 65535)

max_body-Establishes : Establishes validate_max_body (IsBetween 1 max_body)
unfolding validate_max_body
max_body-Establishes = test-Establishes _ _ (between max_body)

timeout-Establishes : Establishes validate_timeout IsTimeout
unfolding validate_timeout
timeout-Establishes = test-Establishes _ _ timeout

max_active-Establishes : Establishes validate_max_active (IsAtLeast 1)
unfolding validate_max_active
max_active-Establishes = test-Establishes _ _ positive

not_negative-Establishes : Establishes validate_not_negative (IsAtLeast 0)
unfolding validate_not_negative
not_negative-Establishes = test-Establishes _ _ not_negative

-- A normalised level is a fixed point.
one_of-upper :
    (ts : List Text) (s : Text)
    → All (λ t. upper (strip t) ≡ t) ts
    → one_of ts s ≡ true
    → upper (strip s) ≡ s
unfolding one_of
one_of-upper [] s a h = absurd (cc)
one_of-upper (t ∷ ts) s (e, a) h = elim (Bool-cases (text_eq t s)) [
  | inl same ↦ subst (λ w. upper (strip w) ≡ w) (text_eq_sound t s same) e
  | inr differs ↦ one_of-upper ts s a (sym (rw differs refl) ∙ h)
]

log_levels-fixed : All (λ t. upper (strip t) ≡ t) log_levels
unfolding upper strip drop_while rstrip is_space
log_levels-fixed = (refl, (refl, (refl, (refl, (refl, tt)))))

log_level-Establishes : Establishes validate_log_level (λ s. one_of log_levels s ≡ true)
unfolding validate_log_level
log_level-Establishes v v' h =
    let (good, same) =
      refuse_if-some (not (one_of log_levels (upper (strip v)))) (upper (strip v)) v' h in
    let member : one_of log_levels v' ≡ true = ground (arith, good, same) in
    (member, rw (one_of-upper log_levels v' log_levels-fixed member, member) refl)

abbrev HasSchemes : List Text → Type 0
HasSchemes = All (λ o. has_scheme o ≡ true)

good_part : (part : Text) → bad_part part ≡ false → is_empty part ≡ false → has_scheme part ≡ true
unfolding bad_part
good_part part good full = ground (arith, good, full)

origins-HasSchemes : (parts : List Text) → any_bad parts ≡ false → HasSchemes (origins parts)
unfolding any_bad origins
origins-HasSchemes [] h = tt
origins-HasSchemes (part ∷ parts) h =
    let good : bad_part (strip part) ≡ false = ground (arith, h) in
    let rest = origins-HasSchemes parts (ground (arith, h)) in
    elim (Bool-cases (is_empty (strip part))) [
      | inl e ↦ rw e rest
      | inr e ↦ rw e (good_part (strip part) good e, rest)
    ]

validate_cors-same : (v v' : Text) → validate_cors v ≡ some v' → v ≡ v'
unfolding validate_cors
validate_cors-same v v' h = ground (arith, h)

-- The list of the origins that a browser may come from has explicit ones only.
validate_cors-HasSchemes : (v : Text) → validate_cors v ≡ some v → HasSchemes (origins_in v)
unfolding validate_cors origins_in
validate_cors-HasSchemes v h = elim (Bool-cases (is_empty (strip v))) [
  | inl blank ↦ rw blank tt
  | inr full ↦ rw full (origins-HasSchemes (split b',' v) (ground (arith, h, full)))
]

cors-Establishes : Establishes validate_cors (λ v. HasSchemes (origins_in v))
cors-Establishes v v' h =
    let kept = subst (λ w. validate_cors w ≡ some v') (validate_cors-same v v' h) h in
    (validate_cors-HasSchemes v' kept, kept)

<&>-some :
    {A B : Type 0} (x : Option A) (y : Option B) (r : A × B)
    → (x <&> y) ≡ some r
    → (x ≡ some r.0) × (y ≡ some r.1)
<&>-some none y r h = absurd (cc)
<&>-some (some a) none r h = absurd (cc)
<&>-some (some a) (some b) r h =
    let same = some-injective _ _ h in (ap (λ t. some t.0) same, ap (λ t. some t.1) same)

-- Two validators beside each other.
<&>-Establishes :
    {A B : Type 0} (f : A → Option A) (g : B → Option B) (P : A → Type 0) (Q : B → Type 0)
    → Establishes f P
    → Establishes g Q
    → Establishes (λ (v : A × B). f v.0 <&> g v.1) (λ v. P v.0 × Q v.1)
<&>-Establishes f g P Q ef eg v v' h =
    let (hf, hg) = <&>-some (f v.0) (g v.1) v' h in
    let (p, kept) = ef v.0 v'.0 hf in
    let (q, kept') = eg v.1 v'.1 hg in ((p, q), rw (kept, kept') refl)

-- The values of the fields, in the groups of the validators.
abbrev Values : Type 0
Values = Serving × (Timeouts × (Sizes × (Limits × Remote)))

abbrev values : Settings → Values
values s = (
  (s.port, s.log_level),
  (
    (
      (s.backend_timeout_seconds, s.backend_connect_timeout_seconds),
      (s.backend_health_timeout_seconds, s.queue_timeout_seconds),
    ),
    (
      (s.max_active_requests, s.max_queue_size),
      (
        (s.default_requests_per_minute, (s.default_requests_per_day, s.default_tokens_per_day)),
        (s.max_request_body_bytes, s.cors_allowed_origins),
      ),
    ),
  ),
)

abbrev settings_of : Values → Settings
settings_of v = build v.0 v.1.0 v.1.1.0 v.1.1.1.0 v.1.1.1.1

abbrev AreValid : Values → Type 0
AreValid v =
    (IsBetween 1 65535 v.0.0 × (one_of log_levels v.0.1 ≡ true))
    × (((IsTimeout v.1.0.0.0 × IsTimeout v.1.0.0.1) × (IsTimeout v.1.0.1.0 × IsTimeout v.1.0.1.1))
        × ((IsAtLeast 1 v.1.1.0.0 × IsAtLeast 0 v.1.1.0.1)
            × ((IsAtLeast 0 v.1.1.1.0.0 × (IsAtLeast 0 v.1.1.1.0.1.0 × IsAtLeast 0 v.1.1.1.0.1.1))
                × (IsBetween 1 max_body v.1.1.1.1.0 × HasSchemes (origins_in v.1.1.1.1.1)))))

validate_all : Values → Option Values
unfolding validate_serving validate_timeouts validate_sizes validate_limits validate_remote
validate_all v =
    let s = settings_of v in
    validate_serving s
    <&> (validate_timeouts s <&> (validate_sizes s <&> (validate_limits s <&> validate_remote s)))

validate_all-Establishes : Establishes validate_all AreValid
unfolding validate_all build
validate_all-Establishes =
    let serving = <&>-Establishes _ _ _ _ port-Establishes log_level-Establishes in
    let two = <&>-Establishes _ _ _ _ timeout-Establishes timeout-Establishes in
    let timeouts = <&>-Establishes _ _ _ _ two two in
    let sizes = <&>-Establishes _ _ _ _ max_active-Establishes not_negative-Establishes in
    let days = <&>-Establishes _ _ _ _ not_negative-Establishes not_negative-Establishes in
    let limits = <&>-Establishes _ _ _ _ not_negative-Establishes days in
    let remote = <&>-Establishes _ _ _ _ max_body-Establishes cors-Establishes in
    <&>-Establishes _ _ _ _ serving (
      <&>-Establishes _ _ _ _ timeouts
        (<&>-Establishes _ _ _ _ sizes (<&>-Establishes _ _ _ _ limits remote)))

settings_of-IsValid : (v : Values) → AreValid v → IsValid (settings_of v)
unfolding build cors_origins_list
settings_of-IsValid v ((p, l), (((b, c), (h, w)), ((a, q), ((rm, (rd, td)), (m, o))))) = record {
  port = p;
  log_level = l;
  backend_timeout = b;
  connect_timeout = c;
  health_timeout = h;
  max_active = a;
  max_queue = q;
  queue_timeout = w;
  requests_per_minute = rm;
  requests_per_day = rd;
  tokens_per_day = td;
  max_body_bytes = m;
  cors_origins = o;
}

validate-settings_of :
    (s : Settings) (v : Values)
    → validate_all (values s) ≡ some v
    → validate s ≡ some (settings_of v)
unfolding validate validate_all build
validate-settings_of s v h = rw (h, validate) refl

validate-none : (s : Settings) → validate_all (values s) ≡ none → validate s ≡ none
unfolding validate validate_all build
validate-none s h = rw (h, validate) refl

-- Accepted settings are in range: a port from 1 to 65535, a level of logging, timeouts that are
-- positive unless they are nan, at least one slot, a queue and limits that are not negative, a bound
-- on bodies of 1 byte to 50 MiB, and only origins of http or https. Accepting them again changes
-- nothing.
pub validate-IsValid :
    (s s' : Settings) → validate s ≡ some s' → IsValid s' × (validate s' ≡ some s')
unfolding build
validate-IsValid s s' h = elim (Option-cases (validate_all (values s))) [
  | inl e ↦ absurd (cc (validate-none s e))
  | inr (v, e) ↦
      let (valid, kept) = validate_all-Establishes (values s) v e in
      let same = some-injective _ _ (sym (validate-settings_of s v e) ∙ h) in
      subst (λ w. IsValid w × (validate w ≡ some w)) same
        (settings_of-IsValid v valid, validate-settings_of (settings_of v) v kept)
]
