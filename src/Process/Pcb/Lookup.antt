-- ===== src/Process/Pcb/Lookup.antt =====
-- The two walks over the table: `pcb_by_pid` and `pcb_enum_active`.
use ares_os.Prelude.{
  ℕ, zero, suc, ◌+◌, ◌≤◌, ◌<◌, ◌≡◌, refl, ◌∙◌, sym, ap, Bool, true, false, ◌&&◌, none, some, List,
  [], ◌∷◌, ◌++◌, append-nil, append_assoc, arith, ◌==◌, ◌⊎◌, inl, inr, Bool-cases, ltb, length,
  length-append, take, if◌then◌else◌,
}
use ares_os.Process.Table.{Table, max_processes}
use ares_os.Process.Pcb.{PcbTable, is_active, by_pid_loop, pcb_by_pid, enum_loop, pcb_enum_active}

-- Entry `i` is active and has that pid.
abbrev pub is_match : Table → ℕ → ℕ → Bool
is_match t pid i = ((t i).pid == pid) && is_active (t i)

by_pid_loop-first :
    (n i : ℕ) (t : Table) (pid : ℕ)
    → (((j : ℕ) → i ≤ j → j < i + n → is_match t pid j ≡ false) × (by_pid_loop n i t pid ≡ none))
      ⊎ ((k : ℕ) × (i ≤ k)
          × (k < i + n)
          × (is_match t pid k ≡ true)
          × ((j : ℕ) → i ≤ j → j < k → is_match t pid j ≡ false)
          × (by_pid_loop n i t pid ≡ some k))
unfolding by_pid_loop
by_pid_loop-first zero i t pid = inl ((λ j a b. absurd (omega arith)), refl)
by_pid_loop-first (suc n) i t pid = elim (Bool-cases (is_match t pid i)) [
  | inl hit ↦ inr (i, omega arith, omega arith, hit, (λ j a b. absurd (omega arith)), rw hit)
  | inr miss ↦ elim (by_pid_loop-first n (i + 1) t pid) [
    | inl (not_yet, e) ↦ inl ((λ j a b. from not_yet miss j a (omega arith)), rw miss e)
    | inr (k, a, b, hit, not_yet, e) ↦
        inr (k, omega arith, omega arith, hit, (λ j c d. until k not_yet miss j c d), rw miss e)
  ]
]
  where
    from :
        ((j : ℕ) → i + 1 ≤ j → j < i + 1 + n → is_match t pid j ≡ false)
        → is_match t pid i ≡ false
        → (j : ℕ) → i ≤ j
        → j < i + 1 + n
        → is_match t pid j ≡ false
    from not_yet miss j a b = elim (Bool-cases (i == j)) [
      | inl e ↦ let e' : i ≡ j = ground arith in ap (is_match t pid) (sym e') ∙ miss
      | inr e ↦ not_yet j (ground arith) b
    ]

    until :
        (k : ℕ)
        → ((j : ℕ) → i + 1 ≤ j → j < k → is_match t pid j ≡ false)
        → is_match t pid i ≡ false
        → (j : ℕ) → i ≤ j
        → j < k
        → is_match t pid j ≡ false
    until k not_yet miss j a b = elim (Bool-cases (i == j)) [
      | inl e ↦ let e' : i ≡ j = ground arith in ap (is_match t pid) (sym e') ∙ miss
      | inr e ↦ not_yet j (ground arith) b
    ]

-- `pcb_by_pid` returns the first active entry with that pid, and NULL when there is no such entry.
pub pcb_by_pid-first :
    (m : PcbTable) (pid : ℕ)
    → (((j : ℕ) → j < max_processes → is_match m.entries pid j ≡ false) × (pcb_by_pid m pid ≡ none))
      ⊎ ((k : ℕ) × (k < max_processes)
          × (is_match m.entries pid k ≡ true)
          × ((j : ℕ) → j < k → is_match m.entries pid j ≡ false)
          × (pcb_by_pid m pid ≡ some k))
unfolding pcb_by_pid
pcb_by_pid-first m pid = elim (by_pid_loop-first 64 0 m.entries pid) [
  | inl (not_yet, e) ↦ inl ((λ j l. not_yet j (omega arith) l), e)
  | inr (k, a, b, hit, not_yet, e) ↦ inr (k, b, hit, (λ j l. not_yet j (omega arith) l), e)
]

-- The active entries from `i` on, among `n`.
unfoldable pub active_from : ℕ → ℕ → Table → List ℕ
active_from zero i t = []
active_from (suc n) i t =
    if is_active (t i) then i ∷ active_from n (i + 1) t else active_from n (i + 1) t

enum_loop-take :
    (n i : ℕ) (t : Table) (max k : ℕ) (buf : List ℕ)
    → max ≡ length buf + k
    → enum_loop n i t max buf ≡ buf ++ take k (active_from n i t)
unfolding enum_loop active_from
enum_loop-take zero i t max zero buf e = sym (append-nil buf)
enum_loop-take zero i t max (suc k) buf e = sym (append-nil buf)
enum_loop-take (suc n) i t max zero buf e =
    let full : ltb (length buf) max ≡ false = ground arith in rw full (sym (append-nil buf))
enum_loop-take (suc n) i t max (suc k) buf e =
    let more : ltb (length buf) max ≡ true = ground arith in
    elim (Bool-cases (is_active (t i))) [
      | inl y ↦
          rw (more, y)
            (enum_loop-take n (i + 1) t max k (buf ++ (i ∷ []))
                (omega (arith, length-append {0} buf (i ∷ [])))
              ∙ append_assoc buf (i ∷ []) _)
      | inr n' ↦ rw (more, n') (enum_loop-take n (i + 1) t max (suc k) buf e)
    ]

-- `pcb_enum_active` writes the active entries in the order of the table, at most `max` of them.
pub pcb_enum_active-take :
    (m : PcbTable) (max : ℕ)
    → pcb_enum_active m max ≡ take max (active_from max_processes 0 m.entries)
unfolding pcb_enum_active
pcb_enum_active-take m max = enum_loop-take 64 0 m.entries max max [] (omega arith)
