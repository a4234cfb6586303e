-- ===== src/Auth/Login.antt =====
-- Password logins (api/internal/auth/login.go).
use taillight.Base.{◌≡◌, refl, true, false, Text, arith, inl, inr, ◌⊎◌}
use taillight.Auth.{
  User, LoginDeps, LoginResult, logged_in, refused, LoginError, row, Tried, resolved, failed,
  falls_through, directory, local, check_active, password_login, is_external_source,
}

check_active_sound :
    (d : LoginDeps) (o : LoginResult) (u : User)
    → check_active d o ≡ logged_in u
    → (o ≡ logged_in u) × (u.is_active ≡ true)
unfolding check_active
check_active_sound d (refused e) u h = cc
check_active_sound d (logged_in v) u h = ground arith

-- What the local table grants.
abbrev pub IsLocal : LoginDeps → Text → Text → User → Type 0
IsLocal d username password u =
    (d.get_user_by_username username ≡ row u)
    × (is_external_source u.auth_source ≡ false)
    × (d.check_password password u.password_hash ≡ true)

local_sound :
    (d : LoginDeps) (username password : Text) (u : User)
    → local d username password ≡ logged_in u
    → IsLocal d username password u
unfolding local
local_sound d username password u h = ground arith

Tried-cases :
    (t : Tried)
    → ((u : User) × (t ≡ resolved u)) ⊎ ((e : LoginError) × (t ≡ failed e)) ⊎ (t ≡ falls_through)
Tried-cases (resolved u) = inl (u, refl)
Tried-cases (failed e) = inr (inl (e, refl))
Tried-cases falls_through = inr (inr refl)

resolved_by_ldap :
    (d : LoginDeps) (username password : Text) (u : User)
    → directory d username password ≡ resolved u
    → d.has_ldap ≡ true
unfolding directory
resolved_by_ldap d username password u h = ground arith

-- Whoever a password login lets in is active, and either the directory resolved them, or the
-- directory was left aside and the local table has them, not managed by a directory or a provider,
-- with the password right.
pub password_login_sound :
    (d : LoginDeps) (username password : Text) (u : User)
    → password_login d username password ≡ logged_in u
    → (u.is_active ≡ true)
      × (((d.has_ldap ≡ true) × (directory d username password ≡ resolved u))
          ⊎ ((directory d username password ≡ falls_through) × IsLocal d username password u))
unfolding password_login
password_login_sound d username password u h = elim (Tried-cases (directory d username password)) [
  | inl (v, found_user) ↦
      let (same, active) =
        check_active_sound d (logged_in v) u (rw (found_user, password_login) at h) in
      (active, ground (arith, resolved_by_ldap d username password v))
  | inr (inl (e, out)) ↦ cc (rw (out, password_login) at h)
  | inr (inr through) ↦
      let (inside, active) =
        check_active_sound d (local d username password) u (rw (through, password_login) at h) in
      (active, inr (through, local_sound d username password u inside))
]
