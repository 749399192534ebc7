-- ===== src/Admin/Policies/Tests.antt =====
-- An instance of the theorem about updates of a policy.
use syn.Common.{str_eq_iff, ◌≡◌, refl, none, some, [], ◌∷◌}
use syn.Common.Int.{pos}
use syn.Common.Text.{codes}
use syn.Errors.{ok}
use syn.Admin.{Client, Database, find, get_client}
use syn.Admin.Policies.{
  ClientPolicyUpdate, policy_out, get_client_policy, updated_limits, update_client_policy,
}
use syn.Admin.Policies.Updates.{update_client_policy-Updated}

abbrev app : Client
app = record {
  id = "c";
  user_id = "u";
  name = codes "app";
  description = none;
  status = "active";
  limits = record {
    requests_per_minute = some (pos 5);
    requests_per_day = some (pos 9);
    tokens_per_day = none;
  };
  created_at = 2;
  updated_at = 2;
}

abbrev database : Database
database = record { users = []; clients = app ∷ []; allowed = []; keys = [] }

-- One limit is set to null, one to a number, and one is left out.
abbrev body : ClientPolicyUpdate
body = record {
  requests_per_minute = some none;
  requests_per_day = none;
  tokens_per_day = some (some 7);
}

only_given_fields : updated_limits body app.limits ≡ record {
  requests_per_minute = none;
  requests_per_day = some (pos 9);
  tokens_per_day = some (pos 7);
}
unfolding updated_limits
only_given_fields = refl

update_client_policy-Updated_example :
    (let (later, result) = update_client_policy "c" body database in
      let policy = policy_out (record app { limits = updated_limits body app.limits }) in
      (result ≡ ok policy)
      × (get_client_policy "c" later ≡ ok policy)
      × (get_client "d" later ≡ get_client "d" database)
      × (later.users ≡ database.users)
      × (later.allowed ≡ database.allowed)
      × (later.keys ≡ database.keys))
unfolding get_client find
update_client_policy-Updated_example =
    update_client_policy-Updated "c" "d" body database app refl
      (λ e. absurd (cc ((str_eq_iff "d" "c").1 e)))
