-- ===== src/AdminAuth/Tests.antt =====
-- Requests of app/core/admin_auth.py.
use syn.Common.{◌≡◌, refl, none, some, ◌∷◌}
use syn.Common.Text.{codes}
use syn.Errors.{err, other}
use syn.ApiKeys.{all_chars}
use syn.AdminAuth.{provided, check_secret, compare_digest, require_admin}

-- A secret that is not ASCII ends in the TypeError of the comparison.
not_ascii : require_admin (codes "secret") (some (233 ∷ codes "t")) none ≡ err other
unfolding require_admin provided check_secret compare_digest all_chars
not_ascii = refl
