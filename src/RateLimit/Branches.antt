-- ===== src/RateLimit/Branches.antt =====
-- What one `check` of app/core/rate_limit.py does, on every branch.
use native.Mathlib.Nat.{div-le_of_le-mul, mul_comm}
use syn.Common.{
  ℕ, zero, suc, ◌+◌, ◌-◌, ◌/◌, ◌%◌, ◌≤◌, ◌<◌, String, ◌≡◌, refl, ◌⊎◌, inl, inr, true, false, Option,
  none, some, arith, ltb, str_eq, str_eq_refl, str_eq-cases, Bool-cases, if◌then◌else◌,
}
use syn.Common.Int.{ℤ, pos, negsuc}
use syn.Common.Dict
use syn.Common.Dict.{Dict, get-put}
use syn.RateLimit.{
  RateLimiter, RateLimitResult, Window, span, window_start, count_in, retry_after, check,
  decide_window, current_count,
}

-- The window of a key after a call at a positive limit.
abbrev pub next_window : Option Window → ℕ → ℕ → Option Window
next_window w start limit =
    if ltb (count_in w start) limit
    then some (record { start = start; count = count_in w start + 1 })
    else w

abbrev next_windows : RateLimiter → String → ℕ → ℕ → Option Window → Dict Window
next_windows l key limit start w =
    if ltb (count_in w start) limit
    then Dict.put l.windows key (record { start = start; count = count_in w start + 1 })
    else l.windows

windows-decide_window :
    (l : RateLimiter) (key : String) (n now : ℕ) (w : Option Window)
    → (decide_window l key (suc n) now w).0.windows
      ≡ next_windows l key (suc n) (window_start (span l) now) w
unfolding decide_window count_in
windows-decide_window l key n now none = ground arith
windows-decide_window l key n now (some w) = ground arith

get-next_windows :
    (l : RateLimiter) (key j : String) (n start : ℕ)
    → Dict.get (next_windows l key n start (Dict.get l.windows key)) j ≡ (
        if str_eq key j then next_window (Dict.get l.windows key) start n else Dict.get l.windows j)
get-next_windows l key j n start =
    elim (Bool-cases (ltb (count_in (Dict.get l.windows key) start) n)) [
      | inl e ↦ rw e (get-put l.windows key j _)
      | inr e ↦ rw e (elim (str_eq-cases key j) [
        | inl same ↦ rw (same, str_eq_refl j)
        | inr (_, other) ↦ rw other
      ])
    ]

module _ (l : RateLimiter) (now : ℕ) (key : String) where
  -- A positive limit admits exactly while the window's count is below it.
  pub check-allowed :
      (n : ℕ) → (check l now key (pos (suc n))).1.allowed ≡ ltb (current_count l now key) (suc n)
  unfolding check current_count
  check-allowed n = ground arith

  -- The window of every key after a call: only the caller's changes, and only on admission.
  pub get-check :
      (n : ℕ) (j : String)
      → Dict.get (check l now key (pos (suc n))).0.windows j ≡ (
          if str_eq key j
          then next_window (Dict.get l.windows key) (window_start (span l) now) (suc n)
          else Dict.get l.windows j)
  unfolding check
  get-check n j =
      rw (windows-decide_window l key n now (Dict.get l.windows key))
        (get-next_windows l key j (suc n) (window_start (span l) now))

  pub span-check : (limit : ℤ) → span (check l now key limit).0 ≡ span l
  unfolding check
  span-check (pos zero) = refl
  span-check (pos (suc n)) = ground arith
  span-check (negsuc n) = refl

-- The wait that a refusal names: at least one second, and at most the window.
retry_after_bounds :
    (l : RateLimiter) (now : ℕ)
    → 0 < l.scale
    → 0 < l.window_seconds
    → (1 ≤ retry_after l (window_start (span l) now) now)
      × (retry_after l (window_start (span l) now) now ≤ l.window_seconds)
unfolding retry_after window_start
retry_after_bounds l now hs hw =
    let fits : (now - now % span l + span l - now) / l.scale ≤ l.window_seconds =
      div-le_of_le-mul l.scale (omega (arith, mul_comm l.window_seconds l.scale)) in
    ground arith

-- What a call answers when the window holds `count` admissions.
abbrev pub Answer : RateLimiter → RateLimitResult → ℕ → ℕ → Type 0
Answer l r count limit =
    ((r.allowed ≡ true) × (r.remaining ≡ pos (limit - (count + 1))) × (r.retry_after_seconds ≡ 0))
    ⊎ ((r.allowed ≡ false)
        × (r.remaining ≡ pos 0)
        × (1 ≤ r.retry_after_seconds)
        × (r.retry_after_seconds ≤ l.window_seconds))

decide_window-Answer :
    (l : RateLimiter) (key : String) (n now : ℕ) (w : Option Window)
    → 0 < l.scale
    → 0 < l.window_seconds
    → Answer l
        (decide_window l key (suc n) now w).1
        (count_in w (window_start (span l) now))
        (suc n)
unfolding decide_window count_in
decide_window-Answer l key n now none hs hw = inl (refl, refl, refl)
decide_window-Answer l key n now (some w) hs hw = ground (arith, retry_after_bounds l now hs hw)

-- An enforced call admits and names the room that is left after it, or refuses and names a wait
-- between one second and the length of the window. The clock's scale and the window are positive.
pub check-Answer :
    (l : RateLimiter) (now : ℕ) (key : String) (n : ℕ)
    → 0 < l.scale
    → 0 < l.window_seconds
    → Answer l (check l now key (pos (suc n))).1 (current_count l now key) (suc n)
unfolding check current_count
check-Answer l now key n hs hw = decide_window-Answer l key n now (Dict.get l.windows key) hs hw

-- Another key's window is left alone, whatever the limit.
pub get-check_ne :
    (l : RateLimiter) (now : ℕ) (key : String) (limit : ℤ) (j : String)
    → str_eq key j ≡ false
    → Dict.get (check l now key limit).0.windows j ≡ Dict.get l.windows j
get-check_ne l now key (pos zero) j h = unfold check in refl
get-check_ne l now key (pos (suc n)) j h = rw (get-check l now key n j, h)
get-check_ne l now key (negsuc n) j h = unfold check in refl
