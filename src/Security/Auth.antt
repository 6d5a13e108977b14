-- ===== src/Security/Auth.antt =====
-- security/auth.c: user accounts and permissions. The globals are the fields of `Accounts`; a C string
-- is the list of its characters before the NUL, and an `int` is a word of 32 bits, -1 being 2^32 - 1.
-- The interactive login and the checks for NULL arguments are left out.
pub mod Login
mod Tests
use ares_os.Prelude.{
  ℕ, zero, suc, ◌+◌, ◌-◌, ◌%◌, ◌^◌, Bool, true, false, not, ◌&&◌, Option, none, some, List, [], ◌∷◌,
  length, get_or, set, take, replicate, ◌==◌, leb, ltb, if◌then◌else◌, bit_and, bit_xor,
}

abbrev pub max_users : ℕ
max_users = 16

abbrev pub username_max : ℕ
username_max = 24

abbrev pub pass_hash_len : ℕ
pass_hash_len = 32

abbrev pub minus_one : ℕ
minus_one = 2 ^ 32 - 1

pub record UserAccount : Type 0 where
  pub username : List ℕ
  pub password_hash : List ℕ
  pub uid : ℕ
  pub gid : ℕ
  pub is_root : Bool
  pub active : Bool

pub record Accounts : Type 0 where
  pub users : List UserAccount
  pub user_count : ℕ
  pub current_uid : ℕ

-- The difference of the first two characters that differ, as an `int`.
pub auth_strcmp : List ℕ → List ℕ → ℕ
auth_strcmp [] [] = 0
auth_strcmp (a ∷ as') [] = a
auth_strcmp [] (b ∷ bs) = (2 ^ 32 - b) % 2 ^ 32
auth_strcmp (a ∷ as') (b ∷ bs) =
    let rest = auth_strcmp as' bs in if a == b then rest else (a + 2 ^ 32 - b) % 2 ^ 32

-- At most `cap - 1` characters are kept.
abbrev pub auth_strcpy_n : List ℕ → ℕ → List ℕ
auth_strcpy_n src cap = take (cap - 1) src

-- `for (i = 0; password[i] != '\0'; i++)`
pub hash_loop : ℕ → List ℕ → List ℕ → List ℕ
hash_loop i [] hash = hash
hash_loop i (c ∷ password) hash =
    let idx = i % pass_hash_len in
    let mix = (c + i % 256) % 256 in
    hash_loop (i + 1) password (set hash idx (bit_xor (get_or hash idx 0) mix))

pub auth_hash_password : List ℕ → List ℕ
auth_hash_password password = hash_loop 0 password (replicate pass_hash_len 0)

-- the inner loop of `auth_login`, with the rounds left
pub hash_matches : ℕ → ℕ → List ℕ → List ℕ → Bool
hash_matches zero j a b = true
hash_matches (suc n) j a b =
    let rest = hash_matches n (j + 1) a b in if get_or a j 0 == get_or b j 0 then rest else false

-- `g_users[i].active && auth_strcmp(g_users[i].username, username) == 0`
abbrev pub is_named : List ℕ → UserAccount → Bool
is_named username u = u.active && (auth_strcmp u.username username == 0)

pub login_loop : List UserAccount → (username hash : List ℕ) → ℕ
login_loop [] username hash = minus_one
login_loop (u ∷ us) username hash =
    let rest = login_loop us username hash in
    if not (is_named username u)
    then rest
    else if hash_matches pass_hash_len 0 u.password_hash hash
    then u.uid
    else rest

pub auth_login : Accounts → (username password : List ℕ) → ℕ
auth_login s username password = login_loop s.users username (auth_hash_password password)

pub is_taken : List UserAccount → List ℕ → Bool
is_taken [] username = false
is_taken (u ∷ us) username =
    let rest = is_taken us username in if is_named username u then true else rest

-- The first free slot, and one past the largest live uid.
pub scan_slots : List UserAccount → ℕ → Option ℕ → ℕ → Option ℕ × ℕ
scan_slots [] i slot next_uid = (slot, next_uid)
scan_slots (u ∷ us) i slot next_uid =
    let slot' : Option ℕ =
      if u.active then slot else elim slot [ none ↦ some i | some k ↦ some k ] in
    let next' = if u.active && leb next_uid u.uid then (u.uid + 1) % 2 ^ 32 else next_uid in
    scan_slots us (i + 1) slot' next'

abbrev pub account : (username password : List ℕ) (is_root : Bool) (uid : ℕ) → UserAccount
account username password is_root uid = record {
  username = auth_strcpy_n username username_max;
  password_hash = auth_hash_password password;
  uid = uid;
  gid = if is_root then uid else 100;
  is_root = is_root;
  active = true;
}

-- the end of `auth_create_user`, after the duplicates were rejected
pub add_user : Accounts → (username password : List ℕ) (is_root : Bool) → ℕ × Accounts
add_user s username password is_root =
    let (slot, next_uid) = scan_slots s.users 0 none 0 in
    elim slot [
      | none ↦ (minus_one, s)
      | some i ↦ (
        next_uid,
        record s {
          users = set s.users i (account username password is_root next_uid);
          user_count = (s.user_count + 1) % 2 ^ 32;
        },
      )
    ]

pub auth_create_user : Accounts → (username password : List ℕ) (is_root : Bool) → ℕ × Accounts
auth_create_user s username password is_root =
    if length username == 0
    then (minus_one, s)
    else if leb username_max (length username)
    then (minus_one, s)
    else if is_taken s.users username
    then (minus_one, s)
    else add_user s username password is_root

-- The index of the first active account with that uid.
pub find_uid : List UserAccount → ℕ → ℕ → Option ℕ
find_uid [] i uid = none
find_uid (u ∷ us) i uid =
    let rest = find_uid us (i + 1) uid in if u.active && (u.uid == uid) then some i else rest

abbrev pub no_account : UserAccount
no_account = record {
  username = [];
  password_hash = replicate pass_hash_len 0;
  uid = 0;
  gid = 0;
  is_root = false;
  active = false;
}

abbrev pub is_positive : ℕ → Bool
is_positive n = ltb 0 n && ltb n (2 ^ 31)

pub auth_delete_user : Accounts → ℕ → ℕ × Accounts
auth_delete_user s uid = if uid == 0 then (minus_one, s) else elim (find_uid s.users 0 uid) [
  | none ↦ (minus_one, s)
  | some i ↦ (
    0,
    record s {
      users = set s.users i no_account;
      user_count = if is_positive s.user_count then s.user_count - 1 else s.user_count;
    },
  )
]

pub auth_change_password : Accounts → ℕ → (new_password : List ℕ) → ℕ × Accounts
auth_change_password s uid new_password = elim (find_uid s.users 0 uid) [
  | none ↦ (minus_one, s)
  | some i ↦
      let u = record (get_or s.users i no_account) {
        password_hash = auth_hash_password new_password;
      } in
      (0, record s { users = set s.users i u })
]

-- the masks of `auth_check_permission`
abbrev pub mode_mask : (is_owner is_group is_write : Bool) → ℕ
mode_mask is_owner is_group is_write =
    if is_owner
    then if is_write then 0x80 else 0x100
    else if is_group
    then if is_write then 0x10 else 0x20
    else if is_write
    then 0x02
    else 0x04

pub auth_check_permission : Accounts → (file_uid file_gid file_mode : ℕ) (is_write : Bool) → Bool
auth_check_permission s file_uid file_gid file_mode is_write =
    if leb (2 ^ 31) s.current_uid
    then false
    else if s.current_uid == 0
    then true
    else elim (find_uid s.users 0 s.current_uid) [
      | none ↦ false
      | some i ↦
          let cur_gid = (get_or s.users i no_account).gid in
          let mask = mode_mask (s.current_uid == file_uid) (cur_gid == file_gid) is_write in
          not (bit_and file_mode mask == 0)
    ]

pub auth_username : Accounts → ℕ → Option (List ℕ)
auth_username s uid = elim (find_uid s.users 0 uid) [
  | none ↦ none
  | some i ↦ some ((get_or s.users i no_account).username)
]
