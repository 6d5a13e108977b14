-- ===== src/Fs/Dir/Add.antt =====
-- An entry that was added to a directory is found.
use mathlib.Core.Option.{some-injective, none-ne-some}
use ares_os.Prelude.{
  ℕ, zero, suc, ◌+◌, ◌≤◌, ◌<◌, ◌≡◌, ◌≢◌, sym, ap, ◌∙◌, Bool, true, false, none, some, List, [], ◌∷◌,
  length, ◌==◌, Bool-cases, Option-cases, Nat-cases, inl, inr, arith,
}
use ares_os.Fs.Layout.{Dirent, dirent_at, put_dirent, dirents_per_block}
use ares_os.Fs.Device.{Device}
use ares_os.Fs.State.{Fs, ok, block_read}
use ares_os.Fs.State.Transfer.{Result-cases}
use ares_os.Fs.Dir.{Found, match_empty_slot, walk_slots, walk_block, walk_blocks}
use ares_os.Fs.Dir.Entries.{IsDirent, dirent_at-put_dirent, dirent_at-put_dirent_ne}

module _ (match : Dirent → Bool) (blk : ℕ) (buf : List ℕ) where
  walk_slots-hit :
      (n i : ℕ)
      → match (dirent_at buf i) ≡ true
      → walk_slots (suc n) i match blk buf
        ≡ some (record { block = blk; slot = i; entry = dirent_at buf i })
  unfolding walk_slots
  walk_slots-hit n i e = rw (e, walk_slots)

  walk_slots-miss :
      (n i : ℕ)
      → match (dirent_at buf i) ≡ false
      → walk_slots (suc n) i match blk buf ≡ walk_slots n (i + 1) match blk buf
  unfolding walk_slots
  walk_slots-miss n i e = rw (e, walk_slots)

  -- Where a walk over the slots stops.
  pub record Stops (i n : ℕ) (f : Found) : Type 0 where
    pub block : f.block ≡ blk
    pub from : i ≤ f.slot
    pub inside : f.slot < i + n

  hit-Stops :
      (n i : ℕ) (f : Found)
      → some (record { block = blk; slot = i; entry = dirent_at buf i }) ≡ some f
      → Stops i (suc n) f
  hit-Stops n i f e =
      let p : record { block = blk; slot = i; entry = dirent_at buf i } ≡ f =
        some-injective _ _ e in
      let place : i ≡ f.slot = ap (λ (t : Found). t.slot) p in
      record {
        block = sym (ap (λ (t : Found). t.block) p);
        from = omega arith;
        inside = omega arith;
      }

  pub walk_slots-Stops : (n i : ℕ) (f : Found) → walk_slots n i match blk buf ≡ some f → Stops i n f
  unfolding walk_slots
  walk_slots-Stops zero i f e = absurd (ground arith)
  walk_slots-Stops (suc n) i f e = elim (Bool-cases (match (dirent_at buf i))) [
    | inl hit ↦ hit-Stops n i f (sym (walk_slots-hit n i hit) ∙ e)
    | inr miss ↦
        let r = walk_slots-Stops n (i + 1) f (sym (walk_slots-miss n i miss) ∙ e) in
        record { block = r.block; from = omega (arith, r.from); inside = omega (arith, r.inside) }
  ]

-- A slot that was empty is filled with an entry that matches.
module _ (wanted : Dirent → Bool) (blk : ℕ) (buf : List ℕ) (de : Dirent) (size : length buf ≡ 512)
    (v : IsDirent de) (good : wanted de ≡ true) where
  pub walk_slots-filled :
      (n i : ℕ) (f : Found)
      → i + n ≤ 8
      → walk_slots n i match_empty_slot blk buf ≡ some f
      → walk_slots n i wanted blk buf ≡ none
      → walk_slots n i wanted blk (put_dirent buf f.slot de)
        ≡ some (record { block = blk; slot = f.slot; entry = de })
  unfolding walk_slots
  walk_slots-filled zero i f l e w = absurd (ground arith)
  walk_slots-filled (suc n) i f l e w =
      let inside = walk_slots-Stops match_empty_slot blk buf (suc n) i f e in
      let limit : f.slot < 8 = omega (arith, inside.inside) in
      elim (Bool-cases (match_empty_slot (dirent_at buf i))) [
        | inl hit ↦
            let p =
              some-injective _ _ (sym (walk_slots-hit match_empty_slot blk buf n i hit) ∙ e) in
            let place : i ≡ f.slot = ap (λ (t : Found). t.slot) p in
            let at : dirent_at (put_dirent buf f.slot de) i ≡ de =
              ap (dirent_at (put_dirent buf f.slot de)) place
              ∙ dirent_at-put_dirent buf f.slot de size limit v in
            walk_slots-hit wanted blk (put_dirent buf f.slot de) n i (ap wanted at ∙ good) ∙ λ k.
            some (record { block = blk; slot = place k; entry = at k })
        | inr miss ↦
            let next = sym (walk_slots-miss match_empty_slot blk buf n i miss) ∙ e in
            let later = walk_slots-Stops match_empty_slot blk buf n (i + 1) f next in
            let at : dirent_at (put_dirent buf f.slot de) i ≡ dirent_at buf i =
              dirent_at-put_dirent_ne buf f.slot i de size limit (omega (arith, later.from)) v in
            elim (Bool-cases (wanted (dirent_at buf i))) [
              | inl there ↦
                  absurd (none-ne-some _ (sym w ∙ walk_slots-hit wanted blk buf n i there))
              | inr other ↦
                  walk_slots-miss wanted blk (put_dirent buf f.slot de) n i (ap wanted at ∙ other)
                  ∙ walk_slots-filled n (i + 1) f (omega arith) next
                      (sym (walk_slots-miss wanted blk buf n i other) ∙ w)
            ]
      ]

module _ (dev : Device) where
  pub walk_block-read :
      (fs : Fs dev.State) (match : Dirent → Bool) (blk : ℕ) (buf : List ℕ)
      → blk ≢ 0
      → block_read dev fs blk ≡ ok buf
      → walk_block dev fs match blk ≡ walk_slots dirents_per_block 0 match blk buf
  unfolding walk_block
  walk_block-read fs match blk buf ne e =
      let given : (blk == 0) ≡ false = ground arith in rw (given, e, walk_block)

  walk_block-same :
      (fs fs' : Fs dev.State) (match : Dirent → Bool) (blk : ℕ)
      → block_read dev fs' blk ≡ block_read dev fs blk
      → walk_block dev fs' match blk ≡ walk_block dev fs match blk
  unfolding walk_block
  walk_block-same fs fs' match blk e = rw e

  -- What is known of a block in which a walk stops.
  pub record Stopped (fs : Fs dev.State) (match : Dirent → Bool) (blk : ℕ) (f : Found)
      : Type 0 where
    pub given : blk ≢ 0
    pub buf : List ℕ
    pub read : block_read dev fs blk ≡ ok buf
    pub slots : walk_slots dirents_per_block 0 match blk buf ≡ some f

  pub walk_block-Stopped :
      (fs : Fs dev.State) (match : Dirent → Bool) (blk : ℕ) (f : Found)
      → walk_block dev fs match blk ≡ some f
      → Stopped fs match blk f
  unfolding walk_block
  walk_block-Stopped fs match blk f e = elim (Nat-cases blk 0) [
    | inl zero_block ↦
        let z : (blk == 0) ≡ true = ground arith in
        absurd (
          none-ne-some _
            (let n : walk_block dev fs match blk ≡ none = rw (z, walk_block) in sym n ∙ e))
    | inr ne ↦ elim (Result-cases (block_read dev fs blk)) [
      | inl good ↦ record {
        given = ne;
        buf = good.0;
        read = good.1;
        slots = sym (walk_block-read fs match blk good.0 ne good.1) ∙ e;
      }
      | inr bad ↦
          let z : (blk == 0) ≡ false = ground arith in
          let b = bad.1 in
          absurd (
            none-ne-some _
              (let n : walk_block dev fs match blk ≡ none = rw (z, b, walk_block) in sym n ∙ e))
    ]
  ]

  -- The walk over the blocks stops in the block that it answers.
  pub walk_blocks-Stopped :
      (fs : Fs dev.State) (match : Dirent → Bool) (blks : List ℕ) (f : Found)
      → walk_blocks dev fs match blks ≡ some f
      → walk_block dev fs match f.block ≡ some f
  unfolding walk_blocks
  walk_blocks-Stopped fs match [] f e = absurd (none-ne-some _ e)
  walk_blocks-Stopped fs match (blk ∷ blks) f e =
      elim (Option-cases (walk_block dev fs match blk)) [
        | inl miss ↦ walk_blocks-Stopped fs match blks f (sym (rw (miss, walk_blocks)) ∙ e)
        | inr hit ↦
            let q : hit.0 ≡ f = some-injective _ _ (sym (rw (hit.1, walk_blocks)) ∙ e) in
            let here : walk_block dev fs match blk ≡ some f = hit.1 ∙ ap some q in
            let s = walk_block-Stopped fs match blk f here in
            let place = (walk_slots-Stops match blk s.buf dirents_per_block 0 f s.slots).block in
            ap (walk_block dev fs match) place ∙ here
      ]

  module _ (fs fs' : Fs dev.State) (wanted : Dirent → Bool) (f g : Found)
      (stop : walk_block dev fs match_empty_slot f.block ≡ some f)
      (now : walk_block dev fs' wanted f.block ≡ some g)
      (others : (k : ℕ) → k ≢ f.block → block_read dev fs' k ≡ block_read dev fs k) where
    pub walk_blocks-filled :
        (blks : List ℕ)
        → walk_blocks dev fs match_empty_slot blks ≡ some f
        → walk_blocks dev fs wanted blks ≡ none
        → walk_blocks dev fs' wanted blks ≡ some g
    unfolding walk_blocks
    walk_blocks-filled [] e w = absurd (none-ne-some _ e)
    walk_blocks-filled (blk ∷ blks) e w = elim (Nat-cases blk f.block) [
      | inl same ↦
          let here : walk_block dev fs' wanted blk ≡ some g =
            ap (walk_block dev fs' wanted) same ∙ now in
          rw (here, walk_blocks)
      | inr other ↦ elim (Option-cases (walk_block dev fs match_empty_slot blk)) [
        | inr hit ↦
            let q : hit.0 ≡ f = some-injective _ _ (sym (rw (hit.1, walk_blocks)) ∙ e) in
            let s = walk_block-Stopped fs match_empty_slot blk f (hit.1 ∙ ap some q) in
            absurd (
              other (
                sym
                  (walk_slots-Stops match_empty_slot blk s.buf dirents_per_block 0 f
                    s.slots).block))
        | inl miss ↦ elim (Option-cases (walk_block dev fs wanted blk)) [
          | inr there ↦ absurd (
              none-ne-some _ (
                sym w
                ∙ (let n : walk_blocks dev fs wanted (blk ∷ blks) ≡ some there.0 =
                      rw (there.1, walk_blocks) in
                    n)))
          | inl absent ↦
              let still : walk_block dev fs' wanted blk ≡ none =
                walk_block-same fs fs' wanted blk (others blk other) ∙ absent in
              rw (still, walk_blocks)
                (walk_blocks-filled blks (sym (rw (miss, walk_blocks)) ∙ e)
                  (sym (rw (absent, walk_blocks)) ∙ w))
        ]
      ]
    ]

  -- A walk that finds nothing finds nothing in any block.
  pub walk_blocks-none :
      (fs : Fs dev.State) (match wanted : Dirent → Bool) (blks : List ℕ) (f : Found)
      → walk_blocks dev fs match blks ≡ some f
      → walk_blocks dev fs wanted blks ≡ none
      → walk_block dev fs wanted f.block ≡ none
  unfolding walk_blocks
  walk_blocks-none fs match wanted [] f e w = absurd (none-ne-some _ e)
  walk_blocks-none fs match wanted (blk ∷ blks) f e w =
      elim (Option-cases (walk_block dev fs wanted blk)) [
        | inr there ↦ absurd (
            none-ne-some _ (
              sym w
              ∙ (let n : walk_blocks dev fs wanted (blk ∷ blks) ≡ some there.0 =
                    rw (there.1, walk_blocks) in
                  n)))
        | inl absent ↦ elim (Option-cases (walk_block dev fs match blk)) [
          | inl miss ↦
              walk_blocks-none fs match wanted blks f (sym (rw (miss, walk_blocks)) ∙ e)
                (sym (rw (absent, walk_blocks)) ∙ w)
          | inr hit ↦
              let q : hit.0 ≡ f = some-injective _ _ (sym (rw (hit.1, walk_blocks)) ∙ e) in
              let s = walk_block-Stopped fs match blk f (hit.1 ∙ ap some q) in
              let place = (walk_slots-Stops match blk s.buf dirents_per_block 0 f s.slots).block in
              ap (walk_block dev fs wanted) place ∙ absent
        ]
      ]
