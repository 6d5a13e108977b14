-- ===== src/Fs/Layout/Coding.antt =====
-- The packed structures read back from the bytes that store them.
use ares_os.Prelude.{
  ℕ, ◌+◌, ◌^◌, ◌<◌, ◌≡◌, refl, ap, ◌∙◌, List, [], ◌++◌, All, length, drop, take, length-append,
  arith,
}
use ares_os.Fs.Bytes.{le_bytes, le_value, words_bytes}
use ares_os.Fs.Bytes.Copy.{take-append, drop-append, drop-append_more, take_all}
use ares_os.Fs.Bytes.Words.{le_value-le_bytes, words_value-words_bytes, length-words_bytes}
use ares_os.Fs.Layout.{Superblock, superblock_bytes, superblock_of, Inode, inode_bytes, inode_of}

abbrev pub Fits : ℕ → ℕ → Type 0
Fits n v = v < 256 ^ n

-- The fields of an inode fit their widths.
pub record IsInode (i : Inode) : Type 0 where
  pub mode : Fits 4 i.mode
  pub uid : Fits 4 i.uid
  pub gid : Fits 4 i.gid
  pub size : Fits 8 i.size
  pub create_time : Fits 8 i.create_time
  pub mod_time : Fits 8 i.mod_time
  pub direct : All (Fits 4) i.direct
  pub indirect : Fits 4 i.indirect
  pub double_indirect : Fits 4 i.double_indirect
  pub length_direct : length i.direct ≡ 12
  pub length_pad : length i.pad ≡ 36

pub length-inode_bytes : (i : Inode) → IsInode i → length (inode_bytes i) ≡ 128
unfolding inode_bytes
length-inode_bytes i v = omega (
  arith,
  length-append (words_bytes i.direct)
      (le_bytes 4 i.indirect ++ (le_bytes 4 i.double_indirect ++ i.pad)),
  length-words_bytes i.direct,
  v.length_direct,
  v.length_pad,
)

pub inode_of-inode_bytes : (i : Inode) → IsInode i → inode_of (inode_bytes i) ≡ i
unfolding inode_of inode_bytes
inode_of-inode_bytes i v =
    let tail : List ℕ = le_bytes 4 i.indirect ++ (le_bytes 4 i.double_indirect ++ i.pad) in
    let after : drop 48 (words_bytes i.direct ++ tail) ≡ tail =
      drop-append 48 (words_bytes i.direct) tail
        (omega (arith, length-words_bytes i.direct, v.length_direct)) in
    let beyond : (m n : ℕ) → m + 48 ≡ n → drop n (words_bytes i.direct ++ tail) ≡ drop m tail =
      λ m n e.
        drop-append_more m n m (words_bytes i.direct) tail
          (omega (arith, length-words_bytes i.direct, v.length_direct)) refl in
    λ k. record {
      mode = le_value-le_bytes 4 i.mode [] v.mode k;
      uid = le_value-le_bytes 4 i.uid [] v.uid k;
      gid = le_value-le_bytes 4 i.gid [] v.gid k;
      size = le_value-le_bytes 8 i.size [] v.size k;
      create_time = le_value-le_bytes 8 i.create_time [] v.create_time k;
      mod_time = le_value-le_bytes 8 i.mod_time [] v.mod_time k;
      direct = words_value-words_bytes 12 i.direct tail v.length_direct v.direct k;
      indirect = (ap (le_value 4) after ∙ le_value-le_bytes 4 i.indirect [] v.indirect) k;
      double_indirect =
          (ap (le_value 4) (beyond 4 52 refl)
              ∙ le_value-le_bytes 4 i.double_indirect [] v.double_indirect)
            k;
      pad = (ap (take 36) (beyond 8 56 refl) ∙ take_all 36 i.pad v.length_pad) k;
    }

-- The fields of a superblock fit their widths.
pub record IsSuperblock (s : Superblock) : Type 0 where
  pub magic : Fits 4 s.magic
  pub version : Fits 4 s.version
  pub total_blocks : Fits 4 s.total_blocks
  pub block_size : Fits 4 s.block_size
  pub root_inode : Fits 4 s.root_inode
  pub block_bitmap_blocks : Fits 4 s.block_bitmap_blocks
  pub inode_bitmap_blocks : Fits 4 s.inode_bitmap_blocks
  pub data_bitmap_blocks : Fits 4 s.data_bitmap_blocks
  pub inode_start_block : Fits 4 s.inode_start_block
  pub data_start_block : Fits 4 s.data_start_block
  pub checksum : Fits 4 s.checksum
  pub length_pad : length s.pad ≡ 468

pub length-superblock_bytes : (s : Superblock) → IsSuperblock s → length (superblock_bytes s) ≡ 512
unfolding superblock_bytes
length-superblock_bytes s v =
    omega (arith, length-append s.pad (le_bytes 4 s.checksum), v.length_pad)

pub superblock_of-superblock_bytes :
    (s : Superblock) → IsSuperblock s → superblock_of (superblock_bytes s) ≡ s
unfolding superblock_of superblock_bytes
superblock_of-superblock_bytes s v =
    let sum : List ℕ = le_bytes 4 s.checksum in
    let after : drop 468 (s.pad ++ sum) ≡ sum = drop-append 468 s.pad sum v.length_pad in
    λ k. record {
      magic = le_value-le_bytes 4 s.magic [] v.magic k;
      version = le_value-le_bytes 4 s.version [] v.version k;
      total_blocks = le_value-le_bytes 4 s.total_blocks [] v.total_blocks k;
      block_size = le_value-le_bytes 4 s.block_size [] v.block_size k;
      root_inode = le_value-le_bytes 4 s.root_inode [] v.root_inode k;
      block_bitmap_blocks = le_value-le_bytes 4 s.block_bitmap_blocks [] v.block_bitmap_blocks k;
      inode_bitmap_blocks = le_value-le_bytes 4 s.inode_bitmap_blocks [] v.inode_bitmap_blocks k;
      data_bitmap_blocks = le_value-le_bytes 4 s.data_bitmap_blocks [] v.data_bitmap_blocks k;
      inode_start_block = le_value-le_bytes 4 s.inode_start_block [] v.inode_start_block k;
      data_start_block = le_value-le_bytes 4 s.data_start_block [] v.data_start_block k;
      pad = take-append 468 s.pad sum v.length_pad k;
      checksum = (ap (le_value 4) after ∙ le_value-le_bytes 4 s.checksum [] v.checksum) k;
    }
