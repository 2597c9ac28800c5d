-- ===== src/Lsmt/File/RoundTrip.antt =====
-- `pread` after `pwrite` of `LSMTFile` of src/overlaybd/lsmt/file.cpp.
use dadi_fast_cdc.Prelude.{
  ℕ, suc, ◌+◌, ◌-◌, ◌^◌, ◌≤◌, ◌<◌, ◌≡◌, refl, ap, ◌∙◌, Bool, true, Option, none, some,
}
use dadi_fast_cdc.Prelude.{List, [], ◌∷◌, ltb, leb, ◌&&◌, arith, length, get_or}
use dadi_fast_cdc.Lsmt.Segment.{SegmentMapping}
use dadi_fast_cdc.Lsmt.Segment.Place.{at}
use dadi_fast_cdc.Lsmt.File.{LsmtFile, pwrite}
use dadi_fast_cdc.Lsmt.File.Content.{AppendLaws, Stored, Written}
use dadi_fast_cdc.Lsmt.File.Write.{pwrite-Written}
use dadi_fast_cdc.Lsmt.File.Pread.{pread}
use dadi_fast_cdc.Lsmt.File.Read.{ReadLaws, Holds, pread-Holds}

-- Lists of one length with the same elements.
list_ext :
    {A : Type 0} (xs ys : List A) (d : A)
    → length xs ≡ length ys
    → ((i : ℕ) → i < length ys → get_or xs i d ≡ get_or ys i d)
    → xs ≡ ys
list_ext [] [] d h same = refl
list_ext [] (y ∷ ys) d h same = absurd (omega arith)
list_ext (x ∷ xs) [] d h same = absurd (omega arith)
list_ext (x ∷ xs) (y ∷ ys) d h same =
    let rest = list_ext xs ys d (omega arith) (λ i a. same (suc i) (omega arith)) in
    rw (same 0 (omega arith), rest) refl

module _ {A F G : Type 0} (size : F → ℕ) (append_data : F → List A → F × Bool)
    (append_log : G → List SegmentMapping → G × Bool)
    (log_ok : (g : G) (ms : List SegmentMapping) → (append_log g ms).1 ≡ true)
    (read : F → ℕ → Option A) (pread_data : F → ℕ → ℕ → Option (List A)) (zeros : A)
    (laws : AppendLaws size append_data read)
    (read_laws : ReadLaws size read pread_data zeros) where
  -- What holds the sectors written and is read is the sectors written.
  read_back :
      (f f' : LsmtFile F G) (sectors buf : List A) (offset : ℕ)
      → Written size read zeros f f' sectors offset
      → Holds size read pread_data zeros read_laws f'.fdata
          (at f'.index.mapping)
          offset
          (offset + length sectors)
          buf
      → buf ≡ sectors
  read_back f f' sectors buf offset w h =
      list_ext buf sectors zeros (omega (arith, h.size_of)) (λ i a.
        let back : offset + i - offset ≡ i = omega arith in
        let inside : (leb offset (offset + i) && ltb (offset + i) (offset + length sectors))
            ≡ true =
          ground arith in
        let written = rw (inside, back) at (w.holds (offset + i)) in
        let seen = rw back at (h.same (offset + i) (omega arith) (omega arith)) in seen ∙ written)

  -- Round trip: a `pwrite` of one sector or more in pieces, to a valid file whose data file and index
  -- file take every append, below the last sector of all and with room for it in the data file, and
  -- then a `pread` of the same range in pieces, where the read of the data file is short only at its
  -- end: both succeed, and the sectors read are the sectors written.
  pub pread-pwrite :
      (data_ok : (d : F) (xs : List A) → (append_data d xs).1 ≡ true)
      → (max_io : ℕ) (f : LsmtFile F G) (sectors : List A) (offset : ℕ) → 0 < max_io
      → max_io < 2 ^ 14
      → Stored size f
      → 0 < size f.fdata
      → 0 < length sectors
      → offset + length sectors < 2 ^ 50
      → size f.fdata + length sectors ≤ 2 ^ 55
      → (f' : LsmtFile F G) × (pwrite size append_data append_log max_io
            (length sectors + 1)
            f
            sectors
            offset
          ≡ some (f', true))
        × (pread pread_data zeros max_io (length sectors + 1) f' (length sectors) offset
            ≡ some (sectors, none))
  pread-pwrite data_ok max_io f sectors offset some_io io stored header busy low fit =
      let w =
        pwrite-Written size append_data append_log log_ok read zeros laws data_ok max_io
          (length sectors + 1) f sectors offset some_io io stored header busy (omega arith)
          (omega arith) fit in
      let r =
        pread-Holds size read pread_data zeros read_laws max_io (length sectors + 1) w.0
          (length sectors) offset w.2.stored some_io io (omega arith) low in
      (w.0, w.1, r.1 ∙ ap (λ xs. some (xs, none)) (read_back f w.0 sectors r.0 offset w.2 r.2))
