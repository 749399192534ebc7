-- ===== src/Policy.antt =====
-- app/core/policy.py: the effective limits of a key, `key override ?? client value ?? default`.
mod Tests
use syn.Common.{ℕ, ◌≡◌, ◌≤◌, ◌⊎◌, Option, none, some, arith, refl}
use syn.Common.Int.{ℤ, pos, negsuc, max_zero}

-- The three policy columns of an ApiKey row and of a Client row.
pub record Limits : Type 0 where
  pub requests_per_minute : Option ℤ
  pub requests_per_day : Option ℤ
  pub tokens_per_day : Option ℤ

-- The configured defaults, which are plain integers.
pub record Defaults : Type 0 where
  pub requests_per_minute : ℤ
  pub requests_per_day : ℤ
  pub tokens_per_day : ℤ

pub record EffectivePolicy : Type 0 where
  pub requests_per_minute : ℤ
  pub requests_per_day : ℤ
  pub tokens_per_day : ℤ

unfoldable pub resolve : Option ℤ → Option ℤ → ℤ → ℤ
resolve (some key_value) client_value default_value = max_zero key_value
resolve none (some client_value) default_value = max_zero client_value
resolve none none default_value = max_zero default_value

unfoldable pub resolve_policy : Limits → Limits → Defaults → EffectivePolicy
unfolding resolve
resolve_policy api_key client d = record {
  requests_per_minute =
      resolve api_key.requests_per_minute client.requests_per_minute d.requests_per_minute;
  requests_per_day = resolve api_key.requests_per_day client.requests_per_day d.requests_per_day;
  tokens_per_day = resolve api_key.tokens_per_day client.tokens_per_day d.tokens_per_day;
}

-- The first value that is set, in the order key, client.
abbrev or_else : Option ℤ → Option ℤ → Option ℤ
or_else (some a) b = some a
or_else none b = b

abbrev or_default : Option ℤ → ℤ → ℤ
or_default (some a) d = a
or_default none d = d

abbrev pub inherited : Option ℤ → Option ℤ → ℤ → ℤ
inherited a b d = max_zero (or_default (or_else a b) d)

resolve-inherited : (a b : Option ℤ) (d : ℤ) → resolve a b d ≡ inherited a b d
unfolding resolve
resolve-inherited (some a) b d = refl
resolve-inherited none (some b) d = refl
resolve-inherited none none d = refl

-- Each limit of the effective policy is the first of the key's and the client's values that is
-- set, or else the default, and never below zero.
pub resolve_policy-inherited :
    (k c : Limits) (d : Defaults)
    → ((resolve_policy k c d).requests_per_minute
        ≡ inherited k.requests_per_minute c.requests_per_minute d.requests_per_minute)
      × ((resolve_policy k c d).requests_per_day
          ≡ inherited k.requests_per_day c.requests_per_day d.requests_per_day)
      × ((resolve_policy k c d).tokens_per_day
          ≡ inherited k.tokens_per_day c.tokens_per_day d.tokens_per_day)
unfolding resolve_policy
resolve_policy-inherited k c d = (
  resolve-inherited k.requests_per_minute c.requests_per_minute d.requests_per_minute,
  resolve-inherited k.requests_per_day c.requests_per_day d.requests_per_day,
  resolve-inherited k.tokens_per_day c.tokens_per_day d.tokens_per_day,
)
