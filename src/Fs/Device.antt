-- ===== src/Fs/Device.antt =====
-- What the file system calls of drivers/ata.c, over an unknown state: whether a drive was found, and
-- transfers of one sector. A read that fails leaves the buffer as it was, since the driver copies a
-- sector only after the drive has offered it; a write that fails may have changed that sector.
use ares_os.Prelude.{
  ℕ, ◌≡◌, ◌≢◌, Bool, true, false, Option, some, List, [], ◌++◌, length, take, replicate, ◌==◌,
  if◌then◌else◌, refl, ap, Bool-cases, inl, inr, has, length-take, length-append, arith,
}
use ares_os.Fs.Bytes.Copy.{take-append}

pub record Device : Type 1 where
  pub State : Type 0
  pub ata_init : State → State
  pub ata_is_present : State → Bool
  pub ata_read_sectors : State → ℕ → Option (List ℕ)
  pub ata_write_sectors : State → ℕ → List ℕ → Bool × State

-- A sector that was written reads back, a write leaves every other sector alone, and a sector has
-- 512 bytes.
pub record IsDevice (dev : Device) : Type 0 where
  pub read-write :
      (s : dev.State) (lba : ℕ) (b : List ℕ)
      → length b ≡ 512
      → (dev.ata_write_sectors s lba b).0 ≡ true
      → dev.ata_read_sectors (dev.ata_write_sectors s lba b).1 lba ≡ some b
  pub read-write_ne :
      (s : dev.State) (lba other : ℕ) (b : List ℕ)
      → lba ≢ other
      → dev.ata_read_sectors (dev.ata_write_sectors s lba b).1 other ≡ dev.ata_read_sectors s other
  pub length-read :
      (s : dev.State) (lba : ℕ) {b : List ℕ} → dev.ata_read_sectors s lba ≡ some b → length b ≡ 512
  pub present-write :
      (s : dev.State) (lba : ℕ) (b : List ℕ)
      → dev.ata_is_present (dev.ata_write_sectors s lba b).1 ≡ dev.ata_is_present s

-- A drive on which no transfer fails.
pub record IsReliable (dev : Device) : Type 0 where
  pub writes : (s : dev.State) (lba : ℕ) (b : List ℕ) → (dev.ata_write_sectors s lba b).0 ≡ true
  pub reads : (s : dev.State) (lba : ℕ) → (b : List ℕ) × (dev.ata_read_sectors s lba ≡ some b)
  pub present : (s : dev.State) → dev.ata_is_present s ≡ true

abbrev fitted : List ℕ → List ℕ
fitted b = take 512 (b ++ replicate 512 0)

-- A drive in memory, with the list of the sectors that can not be written.
abbrev ram_write : List ℕ → (ℕ → List ℕ) → ℕ → List ℕ → Bool × (ℕ → List ℕ)
ram_write broken sectors lba b =
    if has lba broken
    then (false, sectors)
    else (true, λ (k : ℕ). if k == lba then b else sectors k)

abbrev pub ram_device : List ℕ → Device
ram_device broken = record {
  State = ℕ → List ℕ;
  ata_init = λ (s : ℕ → List ℕ). s;
  ata_is_present = λ (s : ℕ → List ℕ). true;
  ata_read_sectors = λ (s : ℕ → List ℕ) (lba : ℕ). some (fitted (s lba));
  ata_write_sectors = ram_write broken;
}

fitted_all : (b : List ℕ) → length b ≡ 512 → fitted b ≡ b
fitted_all b e = take-append 512 b (replicate 512 0) e

length-fitted : (b : List ℕ) → length (fitted b) ≡ 512
length-fitted b =
    omega (arith, length-take 512 (b ++ replicate 512 0), length-append {0} b (replicate 512 0))

module _ (broken : List ℕ) (s : ℕ → List ℕ) (lba : ℕ) (b : List ℕ) where
  ram_read-write :
      length b ≡ 512
      → (ram_write broken s lba b).0 ≡ true
      → fitted ((ram_write broken s lba b).1 lba) ≡ b
  ram_read-write e h = elim (Bool-cases (has lba broken)) [
    | inl bad ↦ absurd (ground arith)
    | inr good ↦ let same : (lba == lba) ≡ true = ground arith in rw (good, same) (fitted_all b e)
  ]

  ram_read-write_ne : (other : ℕ) → lba ≢ other → (ram_write broken s lba b).1 other ≡ s other
  ram_read-write_ne other d = ground arith

sized_sector : (c b : List ℕ) → some (fitted c) ≡ some b → length b ≡ 512
sized_sector c b h = ground (arith, length-fitted c)

pub ram_device-IsDevice : (broken : List ℕ) → IsDevice (ram_device broken)
ram_device-IsDevice broken = record {
  read-write = λ s lba b e h. ap some (ram_read-write broken s lba b e h);
  read-write_ne =
      λ s lba other b h. ap (λ t. some (fitted t)) (ram_read-write_ne broken s lba b other h);
  length-read = λ s lba {b} h. sized_sector (s lba) b h;
  present-write = λ s lba b. refl;
}

pub ram_device-IsReliable : IsReliable (ram_device [])
ram_device-IsReliable = record {
  writes = λ s lba b. refl;
  reads = λ s lba. (fitted (s lba), refl);
  present = λ s. refl;
}
