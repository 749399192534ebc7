-- ===== src/Policy/Tests.antt =====
-- An instance of the theorem about app/core/policy.py.
use syn.Common.{◌≡◌, refl, none, some}
use syn.Common.Int.{pos, negsuc}
use syn.Policy.{Limits, Defaults, resolve_policy}

-- The key has its own daily limit, the client is exempt from the limit per minute.
abbrev key_limits : Limits
key_limits = record {
  requests_per_minute = none;
  requests_per_day = some (pos 5);
  tokens_per_day = none;
}

abbrev client_limits : Limits
client_limits = record {
  requests_per_minute = some (negsuc 0);
  requests_per_day = some (pos 9);
  tokens_per_day = none;
}

abbrev defaults : Defaults
defaults = record {
  requests_per_minute = pos 60;
  requests_per_day = pos 100;
  tokens_per_day = pos 1000;
}

policy :
    resolve_policy key_limits client_limits defaults
    ≡ record { requests_per_minute = pos 0; requests_per_day = pos 5; tokens_per_day = pos 1000 }
unfolding resolve_policy
policy = refl
