-- ===== src/Fs/Layout.antt =====
-- fs/aresfs.h and kernel/kernel.h: the constants, the status codes and the packed structures of the
-- disk, each a record with the bytes it is stored as.
pub mod Coding
use ares_os.Prelude.{
  ℕ, ◌+◌, ◌*◌, ◌/◌, List, [], ◌∷◌, ◌++◌, length, take, drop, replicate, ◌==◌, ltb, if◌then◌else◌,
}
use ares_os.Fs.Bytes.{
  le_bytes, le_at, words_bytes, words_value, fs_memset, fs_memcpy, slice, fs_strlen,
}

pub data AresStatus : Type 0 where
  ares_ok ares_error ares_enomem ares_einval ares_enodev ares_ebusy : AresStatus

abbrev pub aresfs_magic : ℕ
aresfs_magic = 0x41524553

abbrev pub aresfs_version : ℕ
aresfs_version = 1

abbrev pub block_size : ℕ
block_size = 512

abbrev pub total_blocks : ℕ
total_blocks = 4096

abbrev pub base_lba : ℕ
base_lba = 2048

abbrev pub superblock_block : ℕ
superblock_block = 1

abbrev pub block_bitmap_block : ℕ
block_bitmap_block = 2

abbrev pub inode_bitmap_block : ℕ
inode_bitmap_block = 3

abbrev pub inode_start_block : ℕ
inode_start_block = 4

abbrev pub inode_table_blocks : ℕ
inode_table_blocks = 128

abbrev pub data_start_block : ℕ
data_start_block = 132

abbrev pub inode_size : ℕ
inode_size = 128

abbrev pub inodes_per_block : ℕ
inodes_per_block = 4

abbrev pub inode_count : ℕ
inode_count = 512

abbrev pub direct_blocks : ℕ
direct_blocks = 12

abbrev pub indirect_ptrs : ℕ
indirect_ptrs = 128

abbrev pub max_file_blocks : ℕ
max_file_blocks = 140

abbrev pub name_max : ℕ
name_max = 55

abbrev pub dirent_size : ℕ
dirent_size = 60

abbrev pub dirents_per_block : ℕ
dirents_per_block = 8

abbrev pub inode_invalid : ℕ
inode_invalid = 0

abbrev pub root_inode : ℕ
root_inode = 1

abbrev pub type_mask : ℕ
type_mask = 0xF000

abbrev pub type_file : ℕ
type_file = 0x8000

abbrev pub type_dir : ℕ
type_dir = 0x4000

abbrev pub perm_default : ℕ
perm_default = 0x01B6

abbrev pub max_open_files : ℕ
max_open_files = 16

pub record Superblock : Type 0 where
  pub magic : ℕ
  pub version : ℕ
  pub total_blocks : ℕ
  pub block_size : ℕ
  pub root_inode : ℕ
  pub block_bitmap_blocks : ℕ
  pub inode_bitmap_blocks : ℕ
  pub data_bitmap_blocks : ℕ
  pub inode_start_block : ℕ
  pub data_start_block : ℕ
  pub pad : List ℕ
  pub checksum : ℕ

unfoldable pub superblock_bytes : Superblock → List ℕ
superblock_bytes s =
    le_bytes 4 s.magic
    ++ (le_bytes 4 s.version
        ++ (le_bytes 4 s.total_blocks
            ++ (le_bytes 4 s.block_size
                ++ (le_bytes 4 s.root_inode
                    ++ (le_bytes 4 s.block_bitmap_blocks
                        ++ (le_bytes 4 s.inode_bitmap_blocks
                            ++ (le_bytes 4 s.data_bitmap_blocks
                                ++ (le_bytes 4 s.inode_start_block
                                    ++ (le_bytes 4 s.data_start_block
                                        ++ (s.pad ++ le_bytes 4 s.checksum))))))))))

unfoldable pub superblock_of : List ℕ → Superblock
superblock_of bs = record {
  magic = le_at 4 0 bs;
  version = le_at 4 4 bs;
  total_blocks = le_at 4 8 bs;
  block_size = le_at 4 12 bs;
  root_inode = le_at 4 16 bs;
  block_bitmap_blocks = le_at 4 20 bs;
  inode_bitmap_blocks = le_at 4 24 bs;
  data_bitmap_blocks = le_at 4 28 bs;
  inode_start_block = le_at 4 32 bs;
  data_start_block = le_at 4 36 bs;
  pad = slice 40 468 bs;
  checksum = le_at 4 508 bs;
}

pub record Inode : Type 0 where
  pub mode : ℕ
  pub uid : ℕ
  pub gid : ℕ
  pub size : ℕ
  pub create_time : ℕ
  pub mod_time : ℕ
  pub direct : List ℕ
  pub indirect : ℕ
  pub double_indirect : ℕ
  pub pad : List ℕ

unfoldable pub inode_bytes : Inode → List ℕ
inode_bytes i =
    le_bytes 4 i.mode
    ++ (le_bytes 4 i.uid
        ++ (le_bytes 4 i.gid
            ++ (le_bytes 8 i.size
                ++ (le_bytes 8 i.create_time
                    ++ (le_bytes 8 i.mod_time
                        ++ (words_bytes i.direct
                            ++ (le_bytes 4 i.indirect
                                ++ (le_bytes 4 i.double_indirect ++ i.pad))))))))

unfoldable pub inode_of : List ℕ → Inode
inode_of bs = record {
  mode = le_at 4 0 bs;
  uid = le_at 4 4 bs;
  gid = le_at 4 8 bs;
  size = le_at 8 12 bs;
  create_time = le_at 8 20 bs;
  mod_time = le_at 8 28 bs;
  direct = words_value 12 (drop 36 bs);
  indirect = le_at 4 84 bs;
  double_indirect = le_at 4 88 bs;
  pad = slice 92 36 bs;
}

-- `fs_memset(&ino, 0, sizeof(ino))`
abbrev pub zero_inode : Inode
zero_inode = record {
  mode = 0;
  uid = 0;
  gid = 0;
  size = 0;
  create_time = 0;
  mod_time = 0;
  direct = replicate 12 0;
  indirect = 0;
  double_indirect = 0;
  pad = replicate 36 0;
}

pub record Dirent : Type 0 where
  pub inode : ℕ
  pub name : List ℕ

-- `des[slot]`, read and written
unfoldable pub dirent_at : List ℕ → ℕ → Dirent
dirent_at buf slot = record {
  inode = le_at 4 (slot * dirent_size) buf;
  name = slice (slot * dirent_size + 4) 56 buf;
}

unfoldable pub put_dirent : List ℕ → ℕ → Dirent → List ℕ
put_dirent buf slot de = fs_memcpy (slot * dirent_size) (le_bytes 4 de.inode ++ de.name) buf

-- The name is cut at 55 characters and padded with NULs.
unfoldable pub dirent_set_name : Dirent → List ℕ → Dirent
dirent_set_name de name =
    let n = if ltb name_max (fs_strlen name) then name_max else fs_strlen name in
    record de { name = fs_memcpy 0 (take n name) (fs_memset 0 56) }
