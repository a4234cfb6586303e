-- ===== src/Auth.antt =====
-- api/internal/auth: who a request comes from and what it may do (middleware.go), and how a login
-- is resolved (login.go). The database lookups, the directory, the token hash and bcrypt are
-- parameters.
pub mod Access
pub mod Login
use taillight.Base.{
  ℕ, Bool, true, false, not, ◌&&◌, ◌||◌, if◌then◌else◌, Text, codes, text_eq, is_empty, List, [],
  ◌∷◌, Option, none, some, any, length, drop, ◌==◌,
}
use taillight.Model.Filter.{has_prefix}

pub record User : Type 0 where
  pub id : Text
  pub username : Text
  pub email : Option Text
  pub password_hash : Text
  pub is_active : Bool
  pub is_admin : Bool
  pub auth_source : Text
  pub preferences : Text
  pub created_at : ℕ
  pub updated_at : ℕ
  pub last_login_at : Option ℕ

-- What the middlewares keep in the request's context. A `none` of the scopes is the nil slice.
pub record Context : Type 0 where
  pub user : Option User
  pub scopes : Option (List Text)
  pub api_key_id : Option Text

-- The next handler runs with a context, or an error is written.
pub data Outcome : Type 0 where
  next : Context → Outcome
  err_unauthorized err_forbidden err_demo_mode : Outcome

pub record Request : Type 0 where
  pub method : Text
  pub path : Text
  pub session_cookie : Option Text  -- tl_session
  pub authorization : Text
  pub client_ip : Text
  pub remote_addr : Text

-- HashToken, and the lookups by its result: `none` is an error or no user.
pub record Lookups : Type 0 where
  pub hash_token : Text → Text
  pub get_session_user : Text → Option User
  pub get_api_key_user : Text → Option (User × Option (List Text) × Text)

abbrev pub scope_admin : Text
scope_admin = codes "admin"

unfoldable pub allow_anonymous : Context → Outcome
allow_anonymous ctx = next (record ctx {
  user = some (record {
    id = [];
    username = codes "anonymous";
    email = none;
    password_hash = [];
    is_active = true;
    is_admin = false;
    auth_source = [];
    preferences = [];
    created_at = 0;
    updated_at = 0;
    last_login_at = none;
  });
})

unfoldable pub extract_bearer : Request → Text
extract_bearer r =
    if has_prefix r.authorization (codes "Bearer ") then drop 7 r.authorization else []

-- The context of the session cookie's user, if there is one.
unfoldable pub from_session : Lookups → Request → Context → Option Context
from_session l r ctx = elim r.session_cookie [
  | none ↦ none
  | some value ↦ if is_empty value then none else elim (l.get_session_user (l.hash_token value)) [
    | none ↦ none
    | some u ↦ some (record ctx { user = some u })
  ]
]

-- The context of the API key's owner, with its scopes.
unfoldable pub from_api_key : Lookups → Request → Context → Option Context
unfolding extract_bearer
from_api_key l r ctx =
    if has_prefix (extract_bearer r) (codes "tl_")
    then elim (l.get_api_key_user (l.hash_token (extract_bearer r))) [
      | none ↦ none
      | some (u, scopes, key_id) ↦
          some (record ctx { user = some u; scopes = scopes; api_key_id = some key_id })
    ]
    else none

unfoldable pub session_or_api_key : Lookups → Request → Context → Outcome
unfolding from_session from_api_key
session_or_api_key l r ctx = elim (from_session l r ctx) [
  | some c ↦ next c
  | none ↦ elim (from_api_key l r ctx) [ some c ↦ next c | none ↦ err_unauthorized ]
]

unfoldable pub has_scope : List Text → Text → Bool
has_scope scopes target = any (λ s. text_eq s target || text_eq s scope_admin) scopes

unfoldable pub has_grant : Option (List Text) → Option User → Text → Bool
unfolding has_scope
has_grant (some scopes) user scope = has_scope scopes scope
has_grant none none scope = false
has_grant none (some u) scope = if text_eq scope scope_admin then u.is_admin else true

unfoldable pub require_scope : Text → Context → Outcome
unfolding has_grant
require_scope scope ctx = elim ctx.user [
  | none ↦ err_unauthorized
  | some u ↦ if has_grant ctx.scopes (some u) scope then next ctx else err_forbidden
]

-- One middleware behind another.
abbrev pub then_with : (Context → Outcome) → Outcome → Outcome
then_with handler (next ctx) = handler ctx
then_with handler err_unauthorized = err_unauthorized
then_with handler err_forbidden = err_forbidden
then_with handler err_demo_mode = err_demo_mode

abbrev pub is_read : Text → Bool
is_read method =
    text_eq method (codes "GET")
    || text_eq method (codes "HEAD")
    || text_eq method (codes "OPTIONS")

-- `is_private_ip` parses an address.
unfoldable pub deny_writes : (Text → Bool) → List Text → Request → Context → Outcome
deny_writes is_private_ip exempt r ctx =
    if is_read r.method
    then next ctx
    else if any
        (λ path. text_eq r.path path && is_private_ip r.client_ip && is_private_ip r.remote_addr)
        exempt
    then next ctx
    else err_demo_mode

abbrev pub source_ldap : Text
source_ldap = codes "ldap"

abbrev pub source_oidc : Text
source_oidc = codes "oidc"

unfoldable pub is_external_source : Text → Bool
is_external_source source = text_eq source source_ldap || text_eq source source_oidc

-- A denial with the reason that is logged, or a failure of the infrastructure.
pub data LoginError : Type 0 where
  denied : Text → LoginError
  err_inactive err_store : LoginError

pub data LoginResult : Type 0 where
  logged_in : User → LoginResult
  refused : LoginError → LoginResult

-- What the directory answers to a username and a password.
pub data Directory : Type 0 where
  found : Text → Text → Bool → Directory  -- username, email, is_admin
  err_user_not_found err_not_authorized err_invalid_password err_directory : Directory

pub data Lookup : Type 0 where
  row : User → Lookup
  err_no_rows err_lookup : Lookup

pub record LoginDeps : Type 0 where
  pub has_ldap : Bool
  pub authenticate : Text → Text → Directory
  pub upsert_ldap_user : Text → Text → Bool → Option User
  pub get_user_by_username : Text → Lookup
  pub check_password : Text → Text → Bool

-- A user, an error, or neither: go on with the local table.
pub data Tried : Type 0 where
  resolved : User → Tried
  failed : LoginError → Tried
  falls_through : Tried

module _ (d : LoginDeps) where
  unfoldable pub directory : Text → Text → Tried
  directory username password =
      if not d.has_ldap then falls_through else elim (d.authenticate username password) [
        | found name email admin ↦ elim (d.upsert_ldap_user name email admin) [
          | none ↦ failed err_store
          | some u ↦ resolved u
        ]
        | err_user_not_found ↦ falls_through
        | err_not_authorized ↦ failed (denied (codes "LDAP user not in any authorized group"))
        | err_invalid_password ↦ failed (denied (codes "LDAP wrong password"))
        | err_directory ↦ falls_through
      ]

  unfoldable pub local : Text → Text → LoginResult
  unfolding is_external_source
  local username password = elim (d.get_user_by_username username) [
    | err_no_rows ↦ refused (denied (codes "unknown user"))
    | err_lookup ↦ refused err_store
    | row u ↦
        if is_external_source u.auth_source
        then refused (denied (codes "external-auth user attempted local auth"))
        else if d.check_password password u.password_hash
        then logged_in u
        else refused (denied (codes "wrong password"))
  ]

  unfoldable pub check_active : LoginResult → LoginResult
  check_active (refused e) = refused e
  check_active (logged_in u) =
      if u.is_active then logged_in u else refused (denied (codes "inactive account"))

  -- Login.Password
  unfoldable pub password_login : Text → Text → LoginResult
  unfolding directory local check_active
  password_login username password = elim (directory username password) [
    | failed e ↦ refused e
    | resolved u ↦ check_active (logged_in u)
    | falls_through ↦ check_active (local username password)
  ]

-- Login.OIDC, after the store's answer: `none` is an error.
unfoldable pub oidc_login : Option User → LoginResult
oidc_login none = refused err_store
oidc_login (some u) = if u.is_active then logged_in u else refused err_inactive
