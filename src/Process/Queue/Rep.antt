-- ===== src/Process/Queue/Rep.antt =====
-- Which list of processes a queue holds.
use ares_os.Prelude.{
  ℕ, ◌%◌, ◌^◌, ◌≡◌, refl, ap, true, false, none, some, List, [], ◌∷◌, ◌++◌, arith, ◌==◌, length,
  has, Distinct, Below, inl, inr, Bool-cases, ◌≤◌, length-le_of_Distinct,
}
use ares_os.Process.Table.{Table, Ptr, set_next, max_processes}
use ares_os.Process.Queue.{ProcessQueue}

-- From `p` the links lead through `xs` to `NULL`.
abbrev pub Chain : Table → Ptr → List ℕ → Type 0
Chain t p [] = p ≡ none
Chain t p (x ∷ xs) = (p ≡ some x) × Chain t (t x).next xs

-- The last of `xs`, or `d`.
abbrev pub last_or : Ptr → List ℕ → Ptr
last_or d [] = d
last_or d (x ∷ xs) = last_or (some x) xs

-- The queue holds the entries `xs` of the table, in order, each once.
pub record IsQueue (t : Table) (q : ProcessQueue) (xs : List ℕ) : Type 0 where
  pub chain : Chain t q.head xs
  pub tail : q.tail ≡ last_or none xs
  pub count : q.count ≡ length xs % 2 ^ 32
  pub distinct : Distinct xs
  pub entries : Below max_processes xs

-- A change of links outside the chain spares it.
pub Chain-frame :
    (t u : Table) (p : Ptr) (xs : List ℕ)
    → ((a : ℕ) → has a xs ≡ true → (u a).next ≡ (t a).next)
    → Chain t p xs
    → Chain u p xs
Chain-frame t u p [] same c = c
Chain-frame t u p (x ∷ xs) same c = (
  c.0,
  Chain-frame t u (u x).next xs (λ a h. same a (ground arith)) (rw (same x (ground arith)) c.1),
)

pub Chain-set_next :
    (t : Table) (a : ℕ) (r p : Ptr) (xs : List ℕ)
    → has a xs ≡ false
    → Chain t p xs
    → Chain (set_next t a r) p xs
unfolding set_next
Chain-set_next t a r p xs out c = Chain-frame t (set_next t a r) p xs (frame xs out) c
  where
    frame :
        (ys : List ℕ)
        → has a ys ≡ false
        → (b : ℕ) → has b ys ≡ true
        → (set_next t a r b).next ≡ (t b).next
    frame ys o b h = elim (Bool-cases (a == b)) [
      | inl e ↦ let e' : a ≡ b = ground arith in absurd (cc (ap (λ k. has k ys) e'))
      | inr e ↦ rw e
    ]

-- The queue depends on the links of its entries alone.
pub IsQueue-frame :
    (t u : Table) (q : ProcessQueue) (xs : List ℕ)
    → ((a : ℕ) → has a xs ≡ true → (u a).next ≡ (t a).next)
    → IsQueue t q xs
    → IsQueue u q xs
IsQueue-frame t u q xs same v = record {
  chain = Chain-frame t u q.head xs same v.chain;
  tail = v.tail;
  count = v.count;
  distinct = v.distinct;
  entries = v.entries;
}

pub last_or-append : (d : Ptr) (xs : List ℕ) (a : ℕ) → last_or d (xs ++ (a ∷ [])) ≡ some a
last_or-append d [] a = refl
last_or-append d (x ∷ xs) a = last_or-append (some x) xs a

pub last_or-has :
    (x : ℕ) (xs : List ℕ) (l : ℕ) → last_or (some x) xs ≡ some l → has l (x ∷ xs) ≡ true
last_or-has x [] l e = ground arith
last_or-has x (y ∷ xs) l e = ground (arith, last_or-has y xs l e)

pub length-le-max : (t : Table) (q : ProcessQueue) (xs : List ℕ) → IsQueue t q xs → length xs ≤ 64
length-le-max t q xs v = length-le_of_Distinct max_processes xs v.distinct v.entries
