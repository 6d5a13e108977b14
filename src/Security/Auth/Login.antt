-- ===== src/Security/Auth/Login.antt =====
-- A user that was created can log in.
use ares_os.Prelude.{
  ℕ, zero, suc, ◌+◌, ◌≤◌, ◌<◌, ◌%◌, ◌^◌, ◌≡◌, ◌≢◌, ◌⊎◌, refl, ◌∙◌, sym, ap, Bool, true, false,
  Option, none, some, List, [], ◌∷◌, arith, length, set, take, ◌==◌, leb, if◌then◌else◌, inl, inr,
  Bool-cases,
}
use ares_os.Security.Auth.{
  UserAccount, Accounts, minus_one, auth_strcmp, auth_strcpy_n, auth_hash_password, hash_matches,
  is_named, login_loop, auth_login, is_taken, scan_slots, account, add_user, auth_create_user,
}

strcmp_self : (a : List ℕ) → auth_strcmp a a ≡ 0
unfolding auth_strcmp
strcmp_self [] = refl
strcmp_self (x ∷ a) = ground (arith, strcmp_self a)

take_short : (n : ℕ) (a : List ℕ) → length a ≤ n → take n a ≡ a
take_short zero [] h = refl
take_short (suc n) [] h = refl
take_short zero (x ∷ a) h = absurd (omega arith)
take_short (suc n) (x ∷ a) h = ap (λ t. x ∷ t) (take_short n a (omega arith))

hash_matches_self : (n j : ℕ) (a : List ℕ) → hash_matches n j a a ≡ true
unfolding hash_matches
hash_matches_self zero j a = refl
hash_matches_self (suc n) j a = let rest = hash_matches_self n (j + 1) a in ground arith

kept_slot :
    (is_active : Bool) (slot : Option ℕ) (i j : ℕ)
    → ((j : ℕ) → slot ≡ some j → j < i)
    → (if is_active then slot else elim slot [ none ↦ some i | some k ↦ some k ]) ≡ some j
    → j < i + 1
kept_slot true slot i j h e = omega (arith, h j e)
kept_slot false none i j h e = let f : i ≡ j = ground arith in omega arith
kept_slot false (some k) i j h e = omega (arith, h j e)

-- The slot that the scan finds is one of the table's.
scan_slots-lt :
    (us : List UserAccount) (i n k : ℕ) (slot : Option ℕ)
    → (scan_slots us i slot n).0 ≡ some k
    → ((j : ℕ) → slot ≡ some j → j < i)
    → k < i + length us
unfolding scan_slots
scan_slots-lt [] i n k slot e h = omega (arith, h k e)
scan_slots-lt (u ∷ us) i n k slot e h =
    omega (arith, scan_slots-lt us (i + 1) _ k _ e λ j f. kept_slot u.active slot i j h f)

module _ (name hash : List ℕ) (u : UserAccount) where
  login_loop-set :
      (us : List UserAccount) (i : ℕ)
      → i < length us
      → is_taken us name ≡ false
      → is_named name u ≡ true
      → hash_matches 32 0 u.password_hash hash ≡ true
      → login_loop (set us i u) name hash ≡ u.uid
  unfolding login_loop is_taken
  login_loop-set [] i h t e m = elim h [ ]
  login_loop-set (v ∷ us) zero h t e m = rw (e, m)
  login_loop-set (v ∷ us) (suc i) h t e m =
      let other : is_named name v ≡ false = ground arith in
      let rest : is_taken us name ≡ false = ground arith in
      rw other (login_loop-set us i (omega arith) rest e m)

module _ (s : Accounts) (name password : List ℕ) (is_root : Bool) where
  abbrev scanned : Option ℕ × ℕ
  scanned = scan_slots s.users 0 none 0

  abbrev with_user : ℕ → Accounts
  with_user i = record s {
    users = set s.users i (account name password is_root scanned.1);
    user_count = (s.user_count + 1) % 2 ^ 32;
  }

  add_user_at :
      (i : ℕ) → scanned.0 ≡ some i → add_user s name password is_root ≡ (scanned.1, with_user i)
  unfolding add_user
  add_user_at i e = rw (e, add_user)

  add_user_full : scanned.0 ≡ none → add_user s name password is_root ≡ (minus_one, s)
  unfolding add_user
  add_user_full e = rw (e, add_user)

  create_user-cases :
      (auth_create_user s name password is_root ≡ (minus_one, s))
      ⊎ ((length name < 24)
          × (is_taken s.users name ≡ false)
          × (auth_create_user s name password is_root ≡ add_user s name password is_root))
  unfolding auth_create_user
  create_user-cases = elim (Bool-cases (length name == 0)) [
    | inl a ↦ inl (rw a)
    | inr a ↦ elim (Bool-cases (leb 24 (length name))) [
      | inl b ↦ inl (rw (a, b))
      | inr b ↦ elim (Bool-cases (is_taken s.users name)) [
        | inl c ↦ inl (rw (a, b, c))
        | inr c ↦ inr (ground arith, c, rw (a, b, c))
      ]
    ]
  ]

  login_added :
      (i : ℕ)
      → scanned.0 ≡ some i
      → length name < 24
      → is_taken s.users name ≡ false
      → auth_login (with_user i) name password ≡ scanned.1
  unfolding auth_login
  login_added i e l t =
      let copy : auth_strcpy_n name 24 ≡ name = take_short 23 name (omega arith) in
      let same : auth_strcmp (auth_strcpy_n name 24) name ≡ 0 =
        ap (λ a. auth_strcmp a name) copy ∙ strcmp_self name in
      login_loop-set name (auth_hash_password password) (account name password is_root scanned.1)
        s.users i (omega (arith, scan_slots-lt s.users 0 0 i none e (λ j f. absurd (cc)))) t
        (ground (arith, same)) (hash_matches_self 32 0 (auth_hash_password password))

-- A user that `auth_create_user` has created, with whatever name and password it accepted, can log in
-- with them: `auth_login` then returns the new uid.
pub auth_login-auth_create_user :
    (s s' : Accounts) (name password : List ℕ) (is_root : Bool) (uid : ℕ)
    → auth_create_user s name password is_root ≡ (uid, s')
    → uid ≢ minus_one
    → auth_login s' name password ≡ uid
auth_login-auth_create_user s s' name password is_root uid e n =
    elim (create_user-cases s name password is_root) [
      | inl f ↦ absurd (n (ap (λ r. r.0) (sym e ∙ f)))
      | inr (l, t, f) ↦ go (scan_slots s.users 0 none 0).0 refl l t (sym e ∙ f)
    ]
  where
    go :
        (slot : Option ℕ)
        → (scan_slots s.users 0 none 0).0 ≡ slot
        → length name < 24
        → is_taken s.users name ≡ false
        → (uid, s') ≡ add_user s name password is_root
        → auth_login s' name password ≡ uid
    go none g l t f = absurd (n (ap (λ r. r.0) (f ∙ add_user_full s name password is_root g)))
    go (some i) g l t f =
        let h = f ∙ add_user_at s name password is_root i g in
        ap (λ r. auth_login r.1 name password) h
        ∙ login_added s name password is_root i g l t
        ∙ sym (ap (λ r. r.0) h)
