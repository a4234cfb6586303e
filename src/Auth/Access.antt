-- ===== src/Auth/Access.antt =====
-- Requests and the middlewares of api/internal/auth/middleware.go.
use taillight.Base.{
  ◌≡◌, refl, sym, ◌∙◌, Bool, true, false, ◌&&◌, Text, text_eq, text_eq_iff, List, [], ◌∷◌, Option,
  none, some, any, arith, Bool-cases, Option-cases, inl, inr, codes, ◌⊎◌,
}
use taillight.Auth.{
  Context, next, Request, is_read, deny_writes, User, Lookups, session_or_api_key, require_scope,
  has_grant, has_scope, scope_admin, then_with, from_session, from_api_key, extract_bearer,
}
use taillight.Model.Filter.{has_prefix}

any_exempt :
    (path : Text) (a b : Bool) (exempt : List Text)
    → any (λ p. text_eq path p && a && b) exempt ≡ true
    → (any (λ p. text_eq path p) exempt ≡ true) × (a ≡ true) × (b ≡ true)
any_exempt path a b [] h = cc
any_exempt path a b (p ∷ exempt) h = ground (arith, any_exempt path a b exempt)

-- In demo mode a request that is not a GET, HEAD or OPTIONS passes only to an exempt path, and only
-- if both the resolved client address and the peer's address are private.
pub deny_writes_private :
    (is_private_ip : Text → Bool) (exempt : List Text) (r : Request) (ctx c : Context)
    → is_read r.method ≡ false
    → deny_writes is_private_ip exempt r ctx ≡ next c
    → (any (λ p. text_eq r.path p) exempt ≡ true)
      × (is_private_ip r.client_ip ≡ true)
      × (is_private_ip r.remote_addr ≡ true)
unfolding deny_writes
deny_writes_private is_private_ip exempt r ctx c writes passes =
    any_exempt r.path (is_private_ip r.client_ip) (is_private_ip r.remote_addr) exempt
      (ground arith)

-- The admin flag for a principal without scopes, and admin among the scopes of any other.
abbrev pub is_admin_principal : User → Option (List Text) → Bool
is_admin_principal u none = u.is_admin
is_admin_principal u (some scopes) = any (λ s. text_eq s scope_admin) scopes

has_scope_admin :
    (scopes : List Text) → has_scope scopes scope_admin ≡ any (λ s. text_eq s scope_admin) scopes
unfolding has_scope
has_scope_admin [] = refl
has_scope_admin (s ∷ scopes) = ground (arith, has_scope_admin scopes)

has_grant_admin :
    (u : User) (scopes : Option (List Text))
    → has_grant scopes (some u) scope_admin ≡ is_admin_principal u scopes
unfolding has_grant
has_grant_admin u none = ground (arith, text_eq_iff scope_admin scope_admin)
has_grant_admin u (some scopes) = has_scope_admin scopes

-- The context of a request before any middleware.
abbrev pub empty_context : Context
empty_context = record { user = none; scopes = none; api_key_id = none }

-- The cookie of a session whose user is an administrator.
abbrev pub ByAdminSession : Lookups → Request → Context → Type 0
ByAdminSession l r c =
    (value : Text) × (u : User) × (r.session_cookie ≡ some value)
    × (l.get_session_user (l.hash_token value) ≡ some u)
    × (u.is_admin ≡ true)
    × (c ≡ record empty_context { user = some u })

-- The bearer token of an API key that lists admin, or that lists no scopes and is an administrator's.
abbrev pub ByAdminKey : Lookups → Request → Context → Type 0
ByAdminKey l r c =
    (u : User) × (scopes : Option (List Text)) × (key_id : Text) × (has_prefix (extract_bearer r)
        (codes "tl_")
      ≡ true)
    × (l.get_api_key_user (l.hash_token (extract_bearer r)) ≡ some (u, scopes, key_id))
    × (is_admin_principal u scopes ≡ true)
    × (c ≡ record { user = some u; scopes = scopes; api_key_id = some key_id })

require_scope_admin :
    (scopes : Option (List Text)) (u : User) (key : Option Text) (c : Context)
    → require_scope scope_admin (record { user = some u; scopes = scopes; api_key_id = key })
      ≡ next c
    → (is_admin_principal u scopes ≡ true)
      × (c ≡ record { user = some u; scopes = scopes; api_key_id = key })
unfolding require_scope
require_scope_admin scopes u key c h = elim (Bool-cases (has_grant scopes (some u) scope_admin)) [
  | inr refused ↦ cc (rw refused at h)
  | inl granted ↦ (sym (has_grant_admin u scopes) ∙ granted, ground (arith, rw granted at h))
]

from_session_user :
    (l : Lookups) (r : Request) (ctx : Context)
    → from_session l r empty_context ≡ some ctx
    → (value : Text) × (u : User) × (r.session_cookie ≡ some value)
      × (l.get_session_user (l.hash_token value) ≡ some u)
      × (ctx ≡ record empty_context { user = some u })
unfolding from_session
from_session_user l r ctx h = ground arith

from_api_key_user :
    (l : Lookups) (r : Request) (ctx : Context)
    → from_api_key l r empty_context ≡ some ctx
    → (u : User) × (scopes : Option (List Text)) × (key_id : Text) × (has_prefix
          (extract_bearer r)
          (codes "tl_")
        ≡ true)
      × (l.get_api_key_user (l.hash_token (extract_bearer r)) ≡ some (u, scopes, key_id))
      × (ctx ≡ record { user = some u; scopes = scopes; api_key_id = some key_id })
unfolding from_api_key
from_api_key_user l r ctx h =
    elim (Option-cases (l.get_api_key_user (l.hash_token (extract_bearer r)))) [
      | inl unknown ↦ ground arith
      | inr ((u, scopes, key_id), found) ↦ (u, scopes, key_id, ground arith, found, ground arith)
    ]

-- A request that comes with an empty context and passes the authentication and then the check of the
-- admin scope has either a session whose user has the admin flag, or else the token of an API key
-- whose scopes list admin, where a key without scopes needs the flag of its owner: a session is no
-- blanket grant. The next handler gets that user, and the scopes and the id of the key.
pub admin_passes :
    (l : Lookups) (r : Request) (c : Context)
    → then_with (require_scope scope_admin) (session_or_api_key l r empty_context) ≡ next c
    → ByAdminSession l r c ⊎ ((from_session l r empty_context ≡ none) × ByAdminKey l r c)
unfolding session_or_api_key
admin_passes l r c h = elim (Option-cases (from_session l r empty_context)) [
  | inr (ctx, by_session) ↦
      let (value, u, cookie, found, same) = from_session_user l r ctx by_session in
      let (admin, is_c) =
        require_scope_admin none u none c (rw same at (rw (by_session, session_or_api_key) at h)) in
      inl (value, u, cookie, found, admin, is_c)
  | inl no_session ↦ elim (Option-cases (from_api_key l r empty_context)) [
    | inl no_key ↦ cc (rw (no_session, no_key, session_or_api_key) at h)
    | inr (ctx, by_key) ↦
        let (u, scopes, key_id, prefix, found, same) = from_api_key_user l r ctx by_key in
        let (admin, is_c) =
          require_scope_admin scopes u (some key_id) c
            (rw same at (rw (no_session, by_key, session_or_api_key) at h)) in
        inr (no_session, (u, scopes, key_id, prefix, found, admin, is_c))
  ]
]
