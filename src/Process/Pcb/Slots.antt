-- ===== src/Process/Pcb/Slots.antt =====
-- Which slot `pcb_alloc` takes, and how many there are.
use mathlib.Core.Path.{subst}
use ares_os.Prelude.{
  ℕ, ◌<◌, ◌^◌, ◌≡◌, ◌≢◌, ◌∙◌, sym, ap, Bool, true, false, not, ◌&&◌, ◌||◌, none, some, arith, ◌==◌,
  ◌⊎◌, inl, inr, Bool-cases, leb,
}
use ares_os.Prelude.Word.{
  bit, set_bit, bit-set_bit, bit-clear_bit, set_bit-lt, clear_bit-le, zero-bit, eq_of_bits,
}
use ares_os.Prelude.Lowest.{first_set, first_set_lem}
use ares_os.Process.Table.{
  terminated, write, set_state, set_state-next, set_state_self, max_processes,
}
use ares_os.Process.Pcb.{
  PcbTable, find_free_slot, mark_slot_used, mark_slot_free, embryo_of, pcb_alloc, pcb_free,
}

abbrev pub is_free_slot : PcbTable → ℕ → Bool
is_free_slot m i = bit m.slot_free_map i

-- The bitmap is a `uint64_t`.
abbrev pub IsSlots : PcbTable → Type 0
IsSlots m = m.slot_free_map < 2 ^ 64

-- `i` is the lowest free slot.
pub record IsLowestSlot (m : PcbTable) (i : ℕ) : Type 0 where
  pub inside : i < max_processes
  pub is_free : is_free_slot m i ≡ true
  pub lower : (j : ℕ) → j < i → is_free_slot m j ≡ false

-- The table after slot `i` was given out.
unfoldable pub given : PcbTable → ℕ → PcbTable
unfolding write mark_slot_used
given m i = record (mark_slot_used m i) { entries = write m.entries i (embryo_of m i) }

-- What changes when slot `i` is given out: only that slot's bit and entry.
pub record IsGiven (m : PcbTable) (i : ℕ) (m' : PcbTable) : Type 0 where
  pub slots : (j : ℕ) → j < max_processes → is_free_slot m' j ≡ (not (i == j) && is_free_slot m j)
  pub entry : m'.entries i ≡ embryo_of m i
  pub others : (j : ℕ) → (i == j) ≡ false → m'.entries j ≡ m.entries j
  pub word : IsSlots m'

given-IsGiven : (m : PcbTable) (i : ℕ) → IsSlots m → i < max_processes → IsGiven m i (given m i)
unfolding given mark_slot_used write
given-IsGiven m i w h = record {
  slots = λ j l. bit-clear_bit 64 m.slot_free_map i j h l;
  entry = ground arith;
  others = λ j e. rw e;
  word = omega (arith, clear_bit-le 64 m.slot_free_map i);
}

find_free_slot-lowest :
    (m : PcbTable)
    → IsSlots m
    → m.slot_free_map ≢ 0
    → (i : ℕ) × IsLowestSlot m i × (find_free_slot m ≡ some (some i))
unfolding find_free_slot
find_free_slot-lowest m w ne =
    let (i, e, l, s) = first_set_lem 64 m.slot_free_map 0 ne w in
    let e' : first_set 64 m.slot_free_map 0 ≡ some i = e ∙ ap some (omega arith) in
    let z : (m.slot_free_map == 0) ≡ false = ground arith in
    (i, record { inside = s; is_free = l.is_set; lower = l.lower }, rw (z, e'))

alloc_given :
    (m : PcbTable) (i : ℕ)
    → find_free_slot m ≡ some (some i)
    → pcb_alloc m ≡ some (some i, given m i)
unfolding pcb_alloc given
alloc_given m i e = rw (e, pcb_alloc)

alloc_none : (m : PcbTable) → (m.slot_free_map == 0) ≡ true → pcb_alloc m ≡ some (none, m)
unfolding pcb_alloc find_free_slot
alloc_none m z = rw (z, pcb_alloc, find_free_slot)

-- `pcb_alloc` returns NULL exactly when no slot is free, and then changes nothing. Otherwise it
-- gives out the lowest free slot, and no other slot and no other entry changes.
pub pcb_alloc-lowest :
    (m : PcbTable)
    → IsSlots m
    → (((j : ℕ) → is_free_slot m j ≡ false) × (pcb_alloc m ≡ some (none, m)))
      ⊎ ((i : ℕ) × IsLowestSlot m i
          × (pcb_alloc m ≡ some (some i, given m i))
          × IsGiven m i (given m i))
pcb_alloc-lowest m w = elim (Bool-cases (m.slot_free_map == 0)) [
  | inl z ↦
      let z' : m.slot_free_map ≡ 0 = ground arith in
      inl ((λ j. ap (λ k. bit k j) z' ∙ zero-bit j), alloc_none m z)
  | inr n ↦
      let (i, l, e) = find_free_slot-lowest m w (ground arith) in
      inr (i, l, alloc_given m i e, given-IsGiven m i w l.inside)
]

-- Freeing the slot that `pcb_alloc` has just given out restores the bitmap, and the entry is
-- terminated.
pub pcb_free-alloc :
    (m m' : PcbTable) (i : ℕ)
    → IsSlots m
    → pcb_alloc m ≡ some (some i, m')
    → ((pcb_free m' (some i)).slot_free_map ≡ m.slot_free_map)
      × (((pcb_free m' (some i)).entries i).state ≡ terminated)
unfolding pcb_free mark_slot_free set_state write
pcb_free-alloc m m' i w e = elim (pcb_alloc-lowest m w) [
  | inl (z, n) ↦ absurd (cc)
  | inr (k, l, a, g) ↦
      let i' : k ≡ i = cc in
      let same : given m k ≡ m' = cc in
      let inside : i < 64 = omega (arith, l.inside) in
      let g' : IsGiven m i m' =
        subst (λ t. t) (ap (λ u. IsGiven m u (given m k)) i' ∙ ap (IsGiven m i) same) g in
      let free : is_free_slot m i ≡ true = ap (is_free_slot m) (sym i') ∙ l.is_free in
      let guard : leb 64 i ≡ false = ground arith in
      rw guard (
        eq_of_bits 64 (set_bit m'.slot_free_map i) m.slot_free_map
            (set_bit-lt 64 m'.slot_free_map i inside g'.word) w
            (λ j h. bit-set_bit m'.slot_free_map i j ∙ back j (g'.slots j h) free),
        ground arith,
      )
]
  where
    back :
        (j : ℕ)
        → bit m'.slot_free_map j ≡ (not (i == j) && bit m.slot_free_map j)
        → bit m.slot_free_map i ≡ true
        → ((i == j) || bit m'.slot_free_map j) ≡ bit m.slot_free_map j
    back j h f = elim (Bool-cases (i == j)) [
      | inl e ↦ let e' : i ≡ j = ground arith in rw e (sym (ap (bit m.slot_free_map) (sym e') ∙ f))
      | inr e ↦ rw e (h ∙ rw e)
    ]

-- What freeing slot `i` does: the slot is free and its entry terminated, no link changes.
pub record IsFreed (m : PcbTable) (i : ℕ) (m' : PcbTable) : Type 0 where
  pub word : IsSlots m'
  pub slots : (j : ℕ) → is_free_slot m' j ≡ ((i == j) || is_free_slot m j)
  pub state : (m'.entries i).state ≡ terminated
  pub links : (a : ℕ) → (m'.entries a).next ≡ (m.entries a).next

pub pcb_free-IsFreed :
    (m : PcbTable) (i : ℕ) → IsSlots m → i < max_processes → IsFreed m i (pcb_free m (some i))
unfolding pcb_free mark_slot_free
pcb_free-IsFreed m i w h =
    let guard : leb 64 i ≡ false = ground arith in
    let e : pcb_free m (some i)
        ≡ mark_slot_free (record m { entries = set_state m.entries i terminated }) i =
      rw guard in
    subst (IsFreed m i) (sym e) (record {
      word = set_bit-lt 64 m.slot_free_map i h w;
      slots = bit-set_bit m.slot_free_map i;
      state = set_state_self m.entries i terminated;
      links = set_state-next m.entries i terminated;
    })
