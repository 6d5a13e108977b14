-- ===== src/Fs/State/Transfer.antt =====
-- What one block transfer does to the disk that later transfers see.
use ares_os.Prelude.{
  ℕ, ◌+◌, ◌≡◌, ◌≢◌, ◌<◌, refl, ap, ◌∙◌, false, List, length, leb, Bool-cases, inl, inr, ◌⊎◌, arith,
}
use ares_os.Fs.Layout.{AresStatus, ares_ok, total_blocks, base_lba}
use ares_os.Fs.Device.{Device, IsDevice, IsReliable}
use ares_os.Fs.State.{Fs, Result, ok, fail, block_read, block_write, ◌>>◌}

module _ (dev : Device) (law : IsDevice dev) where
  pub block_read-block_write :
      (n : ℕ) (b : List ℕ) (fs : Fs dev.State)
      → length b ≡ 512
      → (block_write dev n b fs).0 ≡ ares_ok
      → block_read dev (block_write dev n b fs).1 n ≡ ok b
  unfolding block_read block_write
  block_read-block_write n b fs e h = ground (arith, law.read-write fs.disk (base_lba + n) b e)

  pub block_read-block_write_ne :
      (n m : ℕ) (b : List ℕ) (fs : Fs dev.State)
      → n ≢ m
      → block_read dev (block_write dev n b fs).1 m ≡ block_read dev fs m
  unfolding block_read block_write
  block_read-block_write_ne n m b fs d =
      ground (arith, law.read-write_ne fs.disk (base_lba + n) (base_lba + m) b)

  pub length-block_read :
      (n : ℕ) (fs : Fs dev.State) {b : List ℕ} → block_read dev fs n ≡ ok b → length b ≡ 512
  unfolding block_read
  length-block_read n fs {b} h = ground (arith, law.length-read fs.disk (base_lba + n) {b = b})

  -- A read that fails has a status that says so.
  pub block_read_failed :
      (n : ℕ) (fs : Fs dev.State) (st : AresStatus) → block_read dev fs n ≡ fail st → st ≢ ares_ok
  unfolding block_read
  block_read_failed n fs st h e = ground arith

pub Result-cases :
    {A : Type 0} (r : Result A) → ((a : A) × (r ≡ ok a)) ⊎ ((st : AresStatus) × (r ≡ fail st))
Result-cases (ok a) = inl (a, refl)
Result-cases (fail st) = inr (st, refl)

-- After a step that is known to succeed the rest of the function runs.
pub >>-ok :
    {S : Type 0} (p : AresStatus × S) (k : S → AresStatus × S) → p.0 ≡ ares_ok → (p >> k) ≡ k p.1
>>-ok (st, s) k e = rw e

pub >>-next :
    {S : Type 0} (k : S → AresStatus × S) {p : AresStatus × S} {s : S}
    → p ≡ (ares_ok, s)
    → (k s).0 ≡ ares_ok
    → (p >> k) ≡ (ares_ok, (k s).1)
>>-next k {p} {s} e h = ap (λ t. t >> k) e ∙ λ i. (h i, (k s).1)

-- Only the disk differs.
abbrev pub OnlyDisk : {D : Type 0} → Fs D → Fs D → Type 0
OnlyDisk fs fs' = fs' ≡ record fs { disk = fs'.disk }

pub OnlyDisk-trans : {D : Type 0} (a b c : Fs D) → OnlyDisk a b → OnlyDisk b c → OnlyDisk a c
OnlyDisk-trans a b c p q = q ∙ ap (λ (t : Fs _). record t { disk = c.disk }) p

module _ (dev : Device) where
  pub block_write-OnlyDisk :
      (n : ℕ) (b : List ℕ) (fs : Fs dev.State) → OnlyDisk fs (block_write dev n b fs).1
  unfolding block_write
  block_write-OnlyDisk n b fs = elim (Bool-cases (leb total_blocks n)) [
    | inl out ↦ rw out
    | inr inside ↦ rw inside
  ]

  pub block_write-reliable :
      (n : ℕ) (b : List ℕ) (fs : Fs dev.State)
      → IsReliable dev
      → n < total_blocks
      → (block_write dev n b fs).0 ≡ ares_ok
  unfolding block_write
  block_write-reliable n b fs r h = ground (arith, r.writes fs.disk (base_lba + n) b)

  pub block_read-reliable :
      (n : ℕ) (fs : Fs dev.State)
      → IsReliable dev
      → n < total_blocks
      → (b : List ℕ) × (block_read dev fs n ≡ ok b)
  unfolding block_read
  block_read-reliable n fs r h =
      let (b, e) = r.reads fs.disk (base_lba + n) in
      let inside : leb total_blocks n ≡ false = ground arith in (b, rw (inside, e))
