-- ===== src/Lsmt/File/Write.antt =====
-- `pwrite` and `discard` of `LSMTFile` of src/overlaybd/lsmt/file.cpp against what the sectors hold.
use dadi_fast_cdc.Prelude.{length-take}
use dadi_fast_cdc.Prelude.{
  ℕ, zero, suc, ◌+◌, ◌-◌, ◌%◌, ◌^◌, ◌≤◌, ◌<◌, ◌≡◌, refl, ap, ◌∙◌, inl, inr, Bool, true, Option,
  some,
}
use dadi_fast_cdc.Prelude.{List, [], ◌∷◌, ltb, leb, ◌&&◌, if◌then◌else◌, arith, Bool-cases}
use dadi_fast_cdc.Prelude.{length, length-drop, take, drop, get_or, get_or-drop}
use dadi_fast_cdc.Lsmt.Segment.{SegmentMapping, discard}
use dadi_fast_cdc.Lsmt.Segment.Place.{covers, FitsFields}
use dadi_fast_cdc.Lsmt.Index0.{insert}
use dadi_fast_cdc.Lsmt.Index0.Insert.{insert-override, insert-IsCounted}
use dadi_fast_cdc.Lsmt.File.{LsmtFile, mapping_of, pwrite, discard_mapping}
use dadi_fast_cdc.Lsmt.File.Content.{
  AppendLaws, content, Stored, Written, append_index-Buffered, mapping_of-fields,
  write_piece-Written,
}

get_or-take :
    {A : Type 0} (n : ℕ) (xs : List A) (i : ℕ) (d : A)
    → i < n
    → get_or (take n xs) i d ≡ get_or xs i d
get_or-take zero xs i d h = absurd (omega arith)
get_or-take (suc n) [] i d h = refl
get_or-take (suc n) (x ∷ xs) zero d h = refl
get_or-take (suc n) (x ∷ xs) (suc i) d h = get_or-take n xs i d (omega arith)

get_or-behind :
    {A : Type 0} (k offset x : ℕ) (xs : List A) (d : A)
    → offset + k ≤ x
    → get_or (drop k xs) (x - (offset + k)) d ≡ get_or xs (x - offset) d
get_or-behind k offset x xs d h =
    get_or-drop k xs (x - (offset + k)) d ∙ ap (λ i. get_or xs i d) (omega arith)

module _ {A F G : Type 0} (size : F → ℕ) (append_data : F → List A → F × Bool)
    (append_log : G → List SegmentMapping → G × Bool)
    (log_ok : (g : G) (ms : List SegmentMapping) → (append_log g ms).1 ≡ true)
    (read : F → ℕ → Option A) (zeros : A) (laws : AppendLaws size append_data read) where
  Written-trans :
      (f f1 f2 : LsmtFile F G) (sectors : List A) (k offset : ℕ)
      → k ≤ length sectors
      → Written size read zeros f f1 (take k sectors) offset
      → Written size read zeros f1 f2 (drop k sectors) (offset + k)
      → Written size read zeros f f2 sectors offset
  Written-trans f f1 f2 sectors k offset h w w' =
      let front = length-take k sectors h in
      let rest = length-drop k sectors in
      record {
        stored = w'.stored;
        grown = omega (arith, w.grown, w'.grown, front, rest);
        holds = λ x.
            w'.holds x
            ∙ ground (
              arith,
              w.holds x,
              front,
              rest,
              get_or-take k sectors (x - offset) zeros,
              get_or-behind k offset x sectors zeros,
            );
      }

  -- `pwrite` of one sector or more, in pieces of `max_io` sectors, to a file to which the data file
  -- and the index file take every append, below 2^50 sectors and with room for it in the data file:
  -- with fuel for one piece more than there are sectors it succeeds, the range then holds what was
  -- written, every other sector holds what it held, the index stays valid, and the data file has
  -- grown by the sectors written.
  pub pwrite-Written :
      (data_ok : (d : F) (xs : List A) → (append_data d xs).1 ≡ true)
      → (max_io fuel : ℕ) (f : LsmtFile F G) (sectors : List A) (offset : ℕ) → 0 < max_io
      → max_io < 2 ^ 14
      → Stored size f
      → 0 < size f.fdata
      → 0 < length sectors
      → length sectors < fuel
      → offset + length sectors ≤ 2 ^ 50
      → size f.fdata + length sectors ≤ 2 ^ 55
      → (f' : LsmtFile F G) × (pwrite size append_data append_log max_io fuel f sectors offset
          ≡ some (f', true))
        × Written size read zeros f f' sectors offset
  unfolding pwrite
  pwrite-Written data_ok max_io zero f sectors offset some_io io stored header busy enough low fit =
      absurd (omega arith)
  pwrite-Written data_ok max_io (suc fuel) f sectors offset some_io io stored header busy enough low
        fit =
      elim (Bool-cases (ltb max_io (length sectors))) [
        | inr t ↦ rw t (
            write_piece-Written size append_data append_log log_ok read zeros laws f sectors offset
              stored (data_ok f.fdata sectors) header busy (ground arith) low fit)
        | inl t ↦
            let front = length-take max_io sectors (ground arith) in
            let rest = length-drop max_io sectors in
            let first =
              write_piece-Written size append_data append_log log_ok read zeros laws f
                (take max_io sectors) offset stored (data_ok f.fdata _) header
                (omega (arith, front)) (omega (arith, front)) (ground (arith, front))
                (ground (arith, front)) in
            let onward =
              pwrite-Written data_ok max_io fuel first.0 (drop max_io sectors) (offset + max_io)
                some_io io first.2.stored (omega (arith, first.2.grown)) (ground (arith, rest))
                (ground (arith, rest)) (ground (arith, rest))
                (ground (arith, rest, front, first.2.grown)) in
            rw (t, first.1)
              (
                onward.0,
                onward.1,
                Written-trans f first.0 onward.0 sectors max_io offset (ground arith) first.2
                    onward.2,
              )
      ]

  -- `discard` of a range of one sector or more, below 2^50 sectors, when the index file takes every
  -- append: it succeeds, the range then reads as zeros, every other sector holds what it held, the
  -- index stays valid, and the data file stays as it was.
  pub discard_mapping-zeros :
      (f : LsmtFile F G) (offset count : ℕ)
      → Stored size f
      → 0 < count
      → count < 2 ^ 14
      → offset + count ≤ 2 ^ 50
      → (f' : LsmtFile F G) × (discard_mapping size append_data append_log f
            (discard (mapping_of size append_data append_log offset count 0))
          ≡ some f')
        × Stored size f'
        × (f'.fdata ≡ f.fdata)
        × ((x : ℕ)
            → content read zeros f' x
              ≡ (if leb offset x && ltb x (offset + count) then zeros else content read zeros f x))
  unfolding discard_mapping discard
  discard_mapping-zeros f offset count stored busy short low =
      let made =
        mapping_of-fields size append_data append_log log_ok offset count 0 busy short low
          (omega arith) in
      let m : SegmentMapping = record {
        offset = offset;
        length = count;
        moffset = size f.fdata % 2 ^ 55;
        zeroed = true;
        tag = 0;
      } in
      let fits : FitsFields m = (short, low, omega arith) in
      let logged =
        append_index-Buffered size append_data append_log log_ok
          (record f { index = insert f.index m }) m stored.buffered in
      rw (made, logged.1)
        (
          logged.0,
          refl,
          record {
            counted = rw logged.3 (insert-IsCounted f.index m stored.counted fits);
            below = λ x.
                rw (logged.2, logged.3, insert-override f.index m x stored.counted.in_order fits)
                  (elim (Bool-cases (covers m x)) [
                    | inl t ↦ rw t (λ z. ground arith)
                    | inr t ↦ rw t (stored.below x)
                  ]);
            buffered = logged.4;
          },
          logged.2,
          λ x.
              rw (logged.2, logged.3, insert-override f.index m x stored.counted.in_order fits)
                (elim (Bool-cases (covers m x)) [ inl t ↦ rw t refl | inr t ↦ rw t refl ]),
        )
