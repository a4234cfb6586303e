-- ===== src/Tests/Access.antt =====
-- Runs of the middlewares and of a login.
use taillight.Base.{◌≡◌, ◌⊎◌, refl, true, false, codes, text_eq, [], ◌∷◌, none, some, any}
use taillight.Auth.{
  User, Context, Request, Lookups, LoginDeps, deny_writes, session_or_api_key, require_scope,
  err_invalid_password, row, directory, password_login, resolved, falls_through, from_session,
  has_grant,
}
use taillight.Auth.Access.{
  deny_writes_private, empty_context, ByAdminSession, ByAdminKey, admin_passes,
}
use taillight.Auth.Login.{IsLocal, password_login_sound}

abbrev operator : User
operator = record {
  id = codes "u1";
  username = codes "ola";
  email = none;
  password_hash = codes "hash";
  is_active = true;
  is_admin = true;
  auth_source = codes "local";
  preferences = [];
  created_at = 0;
  updated_at = 0;
  last_login_at = none;
}

abbrev ingest_request : Request
ingest_request = record {
  method = codes "POST";
  path = codes "/ingest";
  session_cookie = some (codes "cookie");
  authorization = [];
  client_ip = codes "10.0.0.1";
  remote_addr = codes "10.0.0.2";
}

abbrev no_context : Context
no_context = record { user = none; scopes = none; api_key_id = none }

deny_writes_private_example :
    (any (λ p. text_eq ingest_request.path p) (codes "/ingest" ∷ []) ≡ true)
    × (true ≡ true)
    × (true ≡ true)
unfolding deny_writes text_eq
deny_writes_private_example =
    deny_writes_private (λ ip. true) (codes "/ingest" ∷ []) ingest_request no_context no_context
      refl refl

abbrev sessions : Lookups
sessions = record {
  hash_token = λ t. t;
  get_session_user = λ h. some operator;
  get_api_key_user = λ h. none;
}

abbrev as_operator : Context
as_operator = record { user = some operator; scopes = none; api_key_id = none }

admin_passes_example :
    ByAdminSession sessions ingest_request as_operator
    ⊎ ((from_session sessions ingest_request empty_context ≡ none)
        × ByAdminKey sessions ingest_request as_operator)
unfolding session_or_api_key require_scope from_session has_grant text_eq
admin_passes_example = admin_passes sessions ingest_request as_operator refl

abbrev deps : LoginDeps
deps = record {
  has_ldap = false;
  authenticate = λ name password. err_invalid_password;
  upsert_ldap_user = λ name email admin. none;
  get_user_by_username = λ name. row operator;
  check_password = λ password hash. true;
}

password_login_sound_example :
    (operator.is_active ≡ true)
    × (((deps.has_ldap ≡ true) × (directory deps (codes "ola") (codes "pw") ≡ resolved operator))
        ⊎ ((directory deps (codes "ola") (codes "pw") ≡ falls_through)
            × IsLocal deps (codes "ola") (codes "pw") operator))
unfolding password_login text_eq
password_login_sound_example = password_login_sound deps (codes "ola") (codes "pw") operator refl
