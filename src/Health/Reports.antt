-- ===== src/Health/Reports.antt =====
-- What the health routes of app/api/health.py tell of several backends.
use syn.Common.{String, ◌≡◌, refl, ◌↔◌, true, false, ◌||◌, [], ◌∷◌, arith, All, is_empty}
use syn.Common.Dict.{Dict, elem, elem-keys, get-put}
use syn.Common.Dict
use syn.Errors.{Result, ok, err}
use syn.Schemas.{optional_str}
use syn.Backend.{BackendHealthResult}
use syn.Routing.BackendRegistry.{BackendRegistry}
use syn.Health.{healthy, unhealthy, BackendHealth, all_up, any_up, first_up}

abbrev IsUp : String × BackendHealthResult → Type 0
IsUp e = e.1.is_reachable ≡ true

abbrev IsDown : String × BackendHealthResult → Type 0
IsDown e = e.1.is_reachable ≡ false

any_up_iff : (hs : Dict BackendHealthResult) → (any_up hs ≡ false) ↔ All IsDown hs
unfolding any_up
any_up_iff [] = (λ h. tt, λ a. refl)
any_up_iff ((k, h) ∷ hs) = (
  λ e. (ground (arith, e), (any_up_iff hs).0 (ground (arith, e))),
  λ (down, a). rw (down, (any_up_iff hs).1 a) refl,
)

-- What is told of several backends agrees with what was found of each.
pub record IsAggregate (hs : Dict BackendHealthResult) (b : BackendHealth) : Type 0 where
  pub down_iff : (b.is_reachable ≡ false) ↔ ((is_empty hs ≡ false) × All IsDown hs)
  pub healthy_iff : (b.state ≡ healthy) ↔ All IsUp hs
  pub unhealthy_iff : (b.state ≡ unhealthy) ↔ ((is_empty hs ≡ false) × All IsDown hs)
  pub shown_model : b.model ≡ (first_up hs).1

-- The answer, or the exception for a version that is no text.
abbrev pub Told : Dict BackendHealthResult → Result BackendHealth → Type 0
Told hs (ok b) = IsAggregate hs b
Told hs (err e) = (optional_str (first_up hs).0 ≡ err e) × (any_up hs ≡ true)

down :
    (hs : Dict BackendHealthResult)
    → (all_up hs || any_up hs ≡ false) ↔ ((is_empty hs ≡ false) × All IsDown hs)
unfolding all_up
down [] = (λ h. absurd (cc), λ h. absurd (cc))
down (e ∷ hs) = (
  λ h. (refl, (any_up_iff (e ∷ hs)).0 (ground (arith, h))),
  λ (full, a). ground (arith, a.0, (any_up_iff (e ∷ hs)).1 a),
)
