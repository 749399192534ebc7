-- ===== src/RateLimit/Traces.antt =====
-- Sequences of `check` calls against app/core/rate_limit.py's promise: at most `limit` admissions
-- of a key in a window.
use syn.Common.{
  ℕ, zero, suc, ◌+◌, ◌≤◌, ◌<◌, String, ◌≡◌, refl, inl, inr, Bool, true, false, ◌&&◌, Option, none,
  some, List, [], ◌∷◌, arith, ltb, ◌==◌, str_eq, str_eq_refl, str_eq-cases, if◌then◌else◌, All,
}
use syn.Common.Int.{ℤ, pos, negsuc}
use syn.Common.Dict
use syn.RateLimit.{RateLimiter, Window, init, span, window_start, count_in, check, current_count}
use syn.RateLimit.Branches.{next_window, check-allowed, get-check, get-check_ne, span-check}

pub record Call : Type 0 where
  pub now : ℕ
  pub key : String
  pub limit : ℤ

-- How many calls of a key are admitted while the window that begins at `start` runs.
unfoldable pub admitted : RateLimiter → String → ℕ → List Call → ℕ
admitted l key start [] = 0
admitted l key start (c ∷ cs) =
    let rest = admitted (check l c.now c.key c.limit).0 key start cs in
    if str_eq c.key key
      && window_start (span l) c.now == start
      && (check l c.now c.key c.limit).1.allowed
    then suc rest
    else rest

-- The clock does not run backwards.
abbrev pub InOrder : ℕ → List Call → Type 0
InOrder t [] = Unit
InOrder t (c ∷ cs) = (t ≤ c.now) × InOrder c.now cs

-- Every call of the key is made at a positive limit that is at most `limit`.
abbrev pub LimitedTo : ℕ → String → List Call → Type 0
LimitedTo limit key = All λ c. c.key ≡ key → (n : ℕ) × (c.limit ≡ pos (suc n)) × (suc n ≤ limit)

pub window_start_mono : (w a b : ℕ) → a ≤ b → window_start w a ≤ window_start w b
unfolding window_start
window_start_mono w a b h = grind arith

-- A window that is over admits nothing more.
admitted_later :
    (l : RateLimiter) (key : String) (start t : ℕ) (cs : List Call)
    → start < window_start (span l) t
    → InOrder t cs
    → admitted l key start cs ≡ 0
unfolding admitted
admitted_later l key start t [] h o = refl
admitted_later l key start t (c ∷ cs) h o =
    let l' = (check l c.now c.key c.limit).0 in
    let later : start < window_start (span l) c.now =
      omega (arith, window_start_mono (span l) t c.now o.0) in
    let rest : admitted l' key start cs ≡ 0 =
      admitted_later l' key start c.now cs (rw (span-check l c.now c.key c.limit) later) o.1 in
    ground (arith, rest)

-- The recorded window of a key is not later than the clock's.
abbrev Past : Option Window → ℕ → Type 0
Past none start = Unit
Past (some w) start = w.start ≤ start

Past-mono : (w : Option Window) (a b : ℕ) → a ≤ b → Past w a → Past w b
Past-mono none a b h p = tt
Past-mono (some w) a b h p = omega arith

Past-next_window : (w : Option Window) (s n : ℕ) → Past w s → Past (next_window w s n) s
unfolding count_in
Past-next_window none s n p = ground arith
Past-next_window (some w) s n p = ground arith

Past-check :
    (l : RateLimiter) (now : ℕ) (key k : String) (limit : ℤ)
    → Past (Dict.get l.windows key) (window_start (span l) now)
    → Past (Dict.get (check l now k limit).0.windows key) (window_start (span l) now)
Past-check l now key k (pos zero) p = unfold check in p
Past-check l now key k (pos (suc n)) p = rw (get-check l now k n key) (elim (str_eq-cases k key) [
  | inl e ↦ rw (e, str_eq_refl key) (Past-next_window _ _ (suc n) p)
  | inr (_, e) ↦ rw e p
])
Past-check l now key k (negsuc n) p = unfold check in p

-- One call of the key, with what the calls after it admit.
count_step :
    (w w' : Option Window) (a : Bool) (s start n limit rest : ℕ)
    → Past w s
    → suc n ≤ limit
    → a ≡ ltb (count_in w s) (suc n)
    → w' ≡ next_window w s (suc n)
    → count_in w start ≤ limit
    → (count_in w' start ≤ limit → count_in w' start + rest ≤ limit)
    → (start < s → rest ≡ 0)
    → count_in w start + (if s == start && a then suc rest else rest) ≤ limit
unfolding count_in
count_step none w' a s start n limit rest p hn ea ew hc ih over = ground (arith, ea, ew)
count_step (some w) w' a s start n limit rest p hn ea ew hc ih over = ground (arith, ea, ew)

module _ (limit : ℕ) (key : String) (start : ℕ) where
  Bounded : RateLimiter → List Call → Type 0
  Bounded l cs =
      count_in (Dict.get l.windows key) start ≤ limit
      → count_in (Dict.get l.windows key) start + admitted l key start cs ≤ limit

  module _ (l : RateLimiter) (now : ℕ) (cs : List Call) where
    abbrev before : Option Window
    before = Dict.get l.windows key

    abbrev begin : ℕ
    begin = window_start (span l) now

    counted_call :
        (k : String) (lim : ℤ) (n : ℕ)
        → k ≡ key
        → lim ≡ pos (suc n)
        → suc n ≤ limit
        → Past before begin
        → Bounded (check l now k lim).0 cs
        → (start < begin → admitted (check l now k lim).0 key start cs ≡ 0)
        → Bounded l (record { now = now; key = k; limit = lim } ∷ cs)
    unfolding admitted Bounded count_in current_count
    counted_call k lim n ek el hn past ih over h =
        rw same (count_step before after a begin start n limit rest past hn ea ew h ih over)
      where
        a : Bool
        a = (check l now k lim).1.allowed

        after : Option Window
        after = Dict.get (check l now k lim).0.windows key

        rest : ℕ
        rest = admitted (check l now k lim).0 key start cs

        same : str_eq k key ≡ true
        same = rw ek (str_eq_refl key)

        ea : a ≡ ltb (count_in before begin) (suc n)
        ea = rw (ek, el) (check-allowed l now key n)

        ew : after ≡ next_window before begin (suc n)
        ew = rw (ek, el, get-check l now key n key, str_eq_refl key) refl

    other_call :
        (k : String) (lim : ℤ)
        → str_eq k key ≡ false
        → Bounded (check l now k lim).0 cs
        → Bounded l (record { now = now; key = k; limit = lim } ∷ cs)
    unfolding admitted Bounded
    other_call k lim e ih h = rw e (rw (get-check_ne l now k lim key e) at ih h)

  all_calls :
      (l : RateLimiter) (t : ℕ) (cs : List Call)
      → Past (Dict.get l.windows key) (window_start (span l) t)
      → InOrder t cs
      → LimitedTo limit key cs
      → Bounded l cs
  all_calls l t [] past ordered limited = unfold Bounded admitted in λ h. omega arith
  all_calls l t (c ∷ cs) past ordered limited =
      let rest =
        all_calls (check l c.now c.key c.limit).0 c.now cs
          (rw (span-check l c.now c.key c.limit) (Past-check l c.now key c.key c.limit later))
          ordered.1 limited.1 in
      elim (str_eq-cases c.key key) [
        | inl e ↦
            counted_call l c.now cs c.key c.limit (limited.0 e).0 e (limited.0 e).1 (limited.0 e).2
              later rest
              (λ h.
                admitted_later (check l c.now c.key c.limit).0 key start c.now cs
                  (rw (span-check l c.now c.key c.limit) h) ordered.1)
        | inr (_, e) ↦ other_call l c.now cs c.key c.limit e rest
      ]
    where
      later : Past (Dict.get l.windows key) (window_start (span l) c.now)
      later =
          Past-mono (Dict.get l.windows key) (window_start (span l) t) (window_start (span l) c.now)
            (window_start_mono (span l) t c.now ordered.0) past

-- From a fresh limiter, whatever the calls, their keys and their limits: while the clock does not
-- run backwards and the key's own calls are enforced at limits of at most `limit`, at most `limit`
-- of them are admitted in any window.
pub admitted-le-limit :
    (scale seconds limit : ℕ) (key : String) (start t : ℕ) (cs : List Call)
    → InOrder t cs
    → LimitedTo limit key cs
    → admitted (init scale seconds) key start cs ≤ limit
unfolding Bounded init count_in Dict.get
admitted-le-limit scale seconds limit key start t cs ordered limited =
    let bound =
      all_calls limit key start (init scale seconds) t cs tt ordered limited (omega arith) in
    omega arith
