-- ===== src/Fs/State.antt =====
-- The static variables of fs/aresfs.c, and the transfers of one block.
pub mod Transfer
use ares_os.Prelude.{ℕ, ◌+◌, Bool, List, leb, if◌then◌else◌, true, false, none, some}
use ares_os.Fs.Layout.{
  AresStatus, ares_ok, ares_error, ares_enomem, ares_einval, ares_enodev, ares_ebusy, Superblock,
  base_lba, total_blocks,
}
use ares_os.Fs.Device.{Device}

pub record FdEntry : Type 0 where
  pub used : Bool
  pub inode_num : ℕ
  pub pos : ℕ
  pub flags : ℕ

abbrev pub free_entry : FdEntry
free_entry = record { used = false; inode_num = 0; pos = 0; flags = 0 }

pub record Fs (D : Type 0) : Type 0 where
  pub disk : D
  pub sb : Superblock
  pub block_bitmap : List ℕ
  pub inode_bitmap : List ℕ
  pub mounted : Bool
  pub fds : List FdEntry

-- A result, or the status of the failure.
pub data Result (A : Type 0) : Type 0 where
  ok : A → Result A
  fail : AresStatus → Result A

-- `if (st != ARES_OK) return st;` and then the rest of the function.
infixl 5 ◌>>◌
abbrev pub ◌>>◌ : {S : Type 0} → AresStatus × S → (S → AresStatus × S) → AresStatus × S
(ares_ok, s) >> k = k s
(ares_error, s) >> k = (ares_error, s)
(ares_enomem, s) >> k = (ares_enomem, s)
(ares_einval, s) >> k = (ares_einval, s)
(ares_enodev, s) >> k = (ares_enodev, s)
(ares_ebusy, s) >> k = (ares_ebusy, s)

-- `st == ARES_OK`
abbrev pub is_ok : AresStatus → Bool
is_ok ares_ok = true
is_ok ares_error = false
is_ok ares_enomem = false
is_ok ares_einval = false
is_ok ares_enodev = false
is_ok ares_ebusy = false

module _ (dev : Device) where
  unfoldable pub block_read : Fs dev.State → ℕ → Result (List ℕ)
  block_read fs n =
      if leb total_blocks n
      then fail ares_einval
      else elim (dev.ata_read_sectors fs.disk (base_lba + n)) [
        | none ↦ fail ares_error
        | some b ↦ ok b
      ]

  unfoldable pub block_write : ℕ → List ℕ → Fs dev.State → AresStatus × Fs dev.State
  block_write n buf fs =
      if leb total_blocks n
      then (ares_einval, fs)
      else let (done, d) = dev.ata_write_sectors fs.disk (base_lba + n) buf in
        (if done then ares_ok else ares_error, record fs { disk = d })
