-- ===== src/Fs/Dir/Added.antt =====
-- dir_find_entry after dir_add_entry.
use ares_os.Prelude.{
  ℕ, ◌^◌, ◌≤◌, ◌<◌, ◌≡◌, ◌≢◌, refl, sym, ap, ◌∙◌, Bool, true, false, none, some, List, length, ◌==◌,
  arith,
}
use ares_os.Fs.Bytes.{fs_strcmp}
use ares_os.Fs.Layout.{
  ares_ok, Inode, Dirent, dirent_at, put_dirent, dirent_set_name, inode_invalid, data_start_block,
  inode_count,
}
use ares_os.Fs.Device.{Device, IsDevice}
use ares_os.Fs.State.{Fs, ok, block_read, block_write}
use ares_os.Fs.State.Transfer.{block_read-block_write, block_read-block_write_ne, length-block_read}
use ares_os.Fs.Inodes.{inode_read, inode_block}
use ares_os.Fs.Inodes.Table.{inode_read-congr}
use ares_os.Fs.Dir.{
  Found, is_dir, match_by_name, match_empty_slot, walk_block, walk_blocks, dir_walk, dir_find_entry,
  fill_slot, dir_add_entry,
}
use ares_os.Fs.Dir.Entries.{IsDirent, IsName, length-put_dirent, fs_strcmp-dirent_set_name}
use ares_os.Fs.Dir.Add.{
  walk_slots-Stops, walk_slots-filled, walk_block-read, walk_block-Stopped, walk_blocks-Stopped,
  walk_blocks-filled, walk_blocks-none,
}

inode-dirent_set_name : (de : Dirent) (name : List ℕ) → (dirent_set_name de name).inode ≡ de.inode
unfolding dirent_set_name
inode-dirent_set_name de name = refl

module _ (dev : Device) where
  inode_read-inside :
      (fs : Fs dev.State) (n : ℕ) (ino : Inode) → inode_read dev fs n ≡ ok ino → n < inode_count
  unfolding inode_read
  inode_read-inside fs n ino e = ground arith

  dir_walk-known :
      (fs : Fs dev.State) (dir : ℕ) (ino : Inode) (match : Dirent → Bool)
      → inode_read dev fs dir ≡ ok ino
      → is_dir ino ≡ true
      → dir_walk dev fs dir match ≡ walk_blocks dev fs match ino.direct
  unfolding dir_walk
  dir_walk-known fs dir ino match e d = rw (e, d, dir_walk)

  dir_add_entry-fill :
      (fs : Fs dev.State) (dir : ℕ) (name : List ℕ) (child : ℕ) (ino : Inode) (f : Found)
      → inode_read dev fs dir ≡ ok ino
      → is_dir ino ≡ true
      → dir_walk dev fs dir (match_by_name name) ≡ none
      → dir_walk dev fs dir match_empty_slot ≡ some f
      → dir_add_entry dev dir name child fs ≡ fill_slot dev f name child fs
  unfolding dir_add_entry dir_find_entry
  dir_add_entry-fill fs dir name child ino f e d absent empty =
      let missing : dir_find_entry dev fs dir name ≡ inode_invalid = rw (absent, dir_find_entry) in
      rw (missing, e, d, empty, dir_add_entry)

  fill_slot-write :
      (fs : Fs dev.State) (name : List ℕ) (child : ℕ) (f : Found) (buf : List ℕ)
      → block_read dev fs f.block ≡ ok buf
      → fill_slot dev f name child fs
        ≡ block_write dev f.block
            (put_dirent buf f.slot
              (dirent_set_name (record (dirent_at buf f.slot) { inode = child }) name))
            fs
  unfolding fill_slot
  fill_slot-write fs name child f buf e = rw (e, fill_slot)

  dir_find_entry-found :
      (fs : Fs dev.State) (dir : ℕ) (name : List ℕ) (f : Found)
      → dir_walk dev fs dir (match_by_name name) ≡ some f
      → dir_find_entry dev fs dir name ≡ f.entry.inode
  unfolding dir_find_entry
  dir_find_entry-found fs dir name f e = rw (e, dir_find_entry)

  matches :
      (de : Dirent) (name : List ℕ) (child : ℕ)
      → child ≢ 0
      → de.inode ≡ child
      → fs_strcmp de.name name ≡ 0
      → match_by_name name de ≡ true
  matches de name child ne e s =
      let used : (de.inode == inode_invalid) ≡ false = ground arith in
      let same : (fs_strcmp de.name name == 0) ≡ true = ap (λ t. t == 0) s in rw (used, same)

  -- On a device that keeps its laws, in a directory that has an empty slot, in a block of the data area, and
  -- no entry of that name: after a dir_add_entry that succeeds, of a name of at most 55 characters and a
  -- child that is not 0, dir_find_entry answers the child.
  pub dir_find_entry-dir_add_entry :
      IsDevice dev
      → (fs : Fs dev.State) (dir : ℕ) (name : List ℕ) (child : ℕ) (ino : Inode) (f : Found)
      → inode_read dev fs dir ≡ ok ino
      → is_dir ino ≡ true
      → dir_walk dev fs dir (match_by_name name) ≡ none
      → dir_walk dev fs dir match_empty_slot ≡ some f
      → data_start_block ≤ f.block
      → child ≢ 0
      → child < 2 ^ 32
      → IsName name
      → length name ≤ 55
      → (dir_add_entry dev dir name child fs).0 ≡ ares_ok
      → dir_find_entry dev (dir_add_entry dev dir name child fs).1 dir name ≡ child
  dir_find_entry-dir_add_entry law fs dir name child ino f e d absent empty region ne small named
        short done =
      let wanted : Dirent → Bool = match_by_name name in
      let none_there = sym (dir_walk-known fs dir ino wanted e d) ∙ absent in
      let one_empty = sym (dir_walk-known fs dir ino match_empty_slot e d) ∙ empty in
      let stop = walk_blocks-Stopped dev fs match_empty_slot ino.direct f one_empty in
      let s = walk_block-Stopped dev fs match_empty_slot f.block f stop in
      let size = length-block_read dev law f.block fs s.read in
      let limit : f.slot < 8 =
        omega (arith, (walk_slots-Stops match_empty_slot f.block s.buf 8 0 f s.slots).inside) in
      let de : Dirent = dirent_set_name (record (dirent_at s.buf f.slot) { inode = child }) name in
      let set =
        fs_strcmp-dirent_set_name (record (dirent_at s.buf f.slot) { inode = child }) name named
          short in
      let number : de.inode ≡ child =
        inode-dirent_set_name (record (dirent_at s.buf f.slot) { inode = child }) name in
      let v : IsDirent de = record { inode = omega (arith, number); name = set.1 } in
      let block : List ℕ = put_dirent s.buf f.slot de in
      let step =
        dir_add_entry-fill fs dir name child ino f e d absent empty
        ∙ fill_slot-write fs name child f s.buf s.read in
      let fs' : Fs dev.State = (block_write dev f.block block fs).1 in
      let read' : block_read dev fs' f.block ≡ ok block =
        block_read-block_write dev law f.block block fs
          (length-put_dirent s.buf f.slot de size limit v) (sym (ap (λ t. t.0) step) ∙ done) in
      let others : (k : ℕ) → k ≢ f.block → block_read dev fs' k ≡ block_read dev fs k =
        λ k h. block_read-block_write_ne dev law f.block k block fs (λ q. h (sym q)) in
      let before =
        sym (walk_block-read dev fs wanted f.block s.buf s.given s.read)
        ∙ walk_blocks-none dev fs match_empty_slot wanted ino.direct f one_empty none_there in
      let g : Found = record { block = f.block; slot = f.slot; entry = de } in
      let now : walk_block dev fs' wanted f.block ≡ some g =
        walk_block-read dev fs' wanted f.block block s.given read'
        ∙ walk_slots-filled wanted f.block s.buf de size v (matches de name child ne number set.0) 8
            0 f (omega arith) s.slots before in
      let found =
        dir_walk-known fs' dir ino wanted
          (inode_read-congr dev law dir fs' fs
              (others (inode_block dir) (omega (arith, inode_read-inside fs dir ino e)))
            ∙ e)
          d
        ∙ walk_blocks-filled dev fs fs' wanted f g stop now others ino.direct one_empty
            none_there in
      ap (λ t. dir_find_entry dev t.1 dir name) step
      ∙ dir_find_entry-found fs' dir name g found
      ∙ number
