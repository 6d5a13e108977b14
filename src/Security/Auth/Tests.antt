-- ===== src/Security/Auth/Tests.antt =====
-- The theorem on accounts at a concrete table.
use ares_os.Prelude.{ℕ, ◌-◌, ◌^◌, ◌≡◌, refl, false, [], ◌∷◌, arith, replicate}
use ares_os.Security.Auth.{
  Accounts, no_account, auth_login, auth_create_user, add_user, scan_slots, is_taken,
}
use ares_os.Security.Auth.Login.{auth_login-auth_create_user}

abbrev blank : Accounts
blank = record { users = replicate 16 no_account; user_count = 0; current_uid = 2 ^ 32 - 1 }

-- the user "ab" with the password "c"
abbrev created : ℕ × Accounts
created = auth_create_user blank (97 ∷ 98 ∷ []) (99 ∷ []) false

created_uid : created.0 ≡ 0
unfolding auth_create_user add_user scan_slots is_taken
created_uid = refl

auth_login-auth_create_user_example : auth_login created.1 (97 ∷ 98 ∷ []) (99 ∷ []) ≡ created.0
auth_login-auth_create_user_example =
    auth_login-auth_create_user blank created.1 (97 ∷ 98 ∷ []) (99 ∷ []) false created.0 refl
      (omega (arith, created_uid))
