-- ===== src/Zfile/Builder/Fini.antt =====
-- `fini` of `ZFileBuilder` of src/overlaybd/zfile/zfile.cpp: the last block, the index, the trailer,
-- and the header again where that is wanted.
use mathlib.Core.List.{append_assoc}
use dadi_fast_cdc.Prelude.{
  ℕ, ◌+◌, ◌-◌, ◌≤◌, ◌<◌, ◌≡◌, refl, ap, ◌∙◌, inl, inr, Option, some, Bool, true, false,
}
use dadi_fast_cdc.Prelude.{
  List, [], ◌∷◌, ◌++◌, ◌==◌, Bool-cases, ==_iff, arith, length, length-append, length-drop, drop,
  drop-append_right, concat, lengths, All,
}
use dadi_fast_cdc.Zfile.BlockReader.{CompressionFile}
use dadi_fast_cdc.Zfile.JumpTable.Total.{IsLength}
use dadi_fast_cdc.Zfile.Pread.Stored.{AreCodes}
use dadi_fast_cdc.Zfile.Pread.Fixed.{AreFull}
use dadi_fast_cdc.Zfile.Decompress.Whole.{Takes}
use dadi_fast_cdc.Zfile.Builder.{
  HeaderTrailer, ZFileBuilder, index_bytes, set_flags, write_index, overwrite_header, fini, wrote,
}
use dadi_fast_cdc.Zfile.Builder.Written.{
  Compresses, Stores, write_buffer-lem, stored_code, stored_code-Stores, concat-snoc,
}
use dadi_fast_cdc.Zfile.Builder.Session.{Written, blocks-whole, no_length}

-- A file whose first bytes can be written again, and headers of 512 bytes.
pub record Rewrites {D : Type 0} (pwrite : D → List ℕ → ℕ → D × Option ℕ) (contents : D → List ℕ)
    (pack : HeaderTrailer → List ℕ) : Type 0 where
  pub all : (d : D) (xs : List ℕ) → (pwrite d xs 0).1 ≡ some (length xs)
  pub over :
      (d : D) (xs : List ℕ) → contents ((pwrite d xs 0).0) ≡ xs ++ drop (length xs) (contents d)
  pub packed : (ht : HeaderTrailer) → length (pack ht) ≡ 512

AreFull-snoc :
    (n : ℕ) (xss : List (List ℕ)) (xs : List ℕ)
    → All (λ l. length l ≡ n) xss
    → length xs ≤ n
    → AreFull n (lengths (xss ++ (xs ∷ [])))
AreFull-snoc n [] xs full few = few
AreFull-snoc n (x ∷ []) xs full few = (full.0, few)
AreFull-snoc n (x ∷ (y ∷ xss)) xs full few = (full.0, AreFull-snoc n (y ∷ xss) xs full.1 few)

AreFull-All : (n : ℕ) (xss : List (List ℕ)) → All (λ l. length l ≡ n) xss → AreFull n (lengths xss)
AreFull-All n [] full = tt
AreFull-All n (x ∷ []) full = omega (arith, full.0)
AreFull-All n (x ∷ (y ∷ xss)) full = (full.0, AreFull-All n (y ∷ xss) full.1)

module _ {D : Type 0} (crc32c_salt crc32c : List ℕ → ℕ)
    (compress dec : List ℕ → ℕ → Option (List ℕ)) (write_to : D → List ℕ → D × Option ℕ)
    (pwrite_to : D → List ℕ → ℕ → D × Option ℕ) (pack : HeaderTrailer → List ℕ)
    (z : CompressionFile) (longest : ℕ) (contents : D → List ℕ) (takes : Takes write_to contents)
    (laws : Compresses crc32c_salt dec compress z.block_size longest) (busy : 0 < z.block_size)
    (front : List ℕ) (rewrites : Rewrites pwrite_to contents pack)
    (header : length front ≡ 512) where
  -- All blocks are stored, the last one shorter.
  record Closed (b : ZFileBuilder D) (whole : List ℕ) : Type 0 where
    codes : List (List ℕ)
    blocks : List (List ℕ)
    stores :
        Stores crc32c_salt crc32c compress dec write_to pwrite_to pack z longest contents takes laws
          front b codes blocks
    full : AreFull z.block_size (lengths blocks)
    all : concat blocks ≡ whole
    raw_of : b.raw_data_size ≡ length whole

  -- The file when it is finished: `rest` is the index and the trailer.
  pub record Finished (b : ZFileBuilder D) (whole : List ℕ) : Type 0 where
    pub codes : List (List ℕ)
    pub blocks : List (List ℕ)
    pub rest : List ℕ
    pub coded : AreCodes crc32c_salt dec z codes blocks
    pub held : drop 512 (contents b.dest) ≡ concat codes ++ rest
    pub size : length (contents b.dest) ≡ 512 + length (concat codes) + length rest
    pub rest_of : length rest ≡ length (index_bytes (lengths codes)) + 512
    pub lens : b.block_len ≡ lengths codes
    pub short : All (IsLength z.verify longest) (lengths codes)
    pub full : AreFull z.block_size (lengths blocks)
    pub all : concat blocks ≡ whole
    pub raw_of : b.raw_data_size ≡ length whole

  overwrite_header-Finished :
      (again : Bool) (b : ZFileBuilder D) (whole : List ℕ)
      → Finished b whole
      → (b1 : ZFileBuilder D) × (overwrite_header crc32c_salt crc32c compress write_to pwrite_to
            pack z.block_size z.verify again
            (b, true)
          ≡ (b1, true))
        × Finished b1 whole
  overwrite_header-Finished false b whole f = (b, refl, f)
  overwrite_header-Finished true b whole f =
      let ht = set_flags b.ht true false true true in
      let new = (pwrite_to b.dest (pack ht) 0).0 in
      let size = rewrites.packed ht in
      let over = rewrites.over b.dest (pack ht) in
      let tail = drop (length (pack ht)) (contents b.dest) in
      let none_left : 512 - length (pack ht) ≡ 0 = omega arith in
      rw (rewrites.all b.dest (pack ht)) (
        record b { ht = ht; dest = new },
        refl,
        record {
          codes = f.codes;
          blocks = f.blocks;
          rest = f.rest;
          coded = f.coded;
          held =
              ap (drop 512) over
              ∙ drop-append_right 512 (pack ht) tail (omega arith)
              ∙ ap (λ k. drop k tail) none_left
              ∙ ap (λ k. drop k (contents b.dest)) size
              ∙ f.held;
          size =
              ap length over
              ∙ omega (
                arith,
                length-append (pack ht) tail,
                f.size,
                length-drop (length (pack ht)) (contents b.dest),
              );
          rest_of = f.rest_of;
          lens = f.lens;
          short = f.short;
          full = f.full;
          all = f.all;
          raw_of = f.raw_of;
        },
      )

  write_index-Finished :
      (again : Bool) (b : ZFileBuilder D) (whole : List ℕ)
      → Closed b whole
      → (b1 : ZFileBuilder D) × (write_index crc32c_salt crc32c compress write_to pwrite_to pack
            z.block_size z.verify again b
          ≡ (b1, true))
        × Finished b1 whole
  write_index-Finished again b whole c =
      let index = index_bytes b.block_len in
      let dest1 = (write_to b.dest index).0 in
      let ht =
        set_flags
          (record b.ht {
            index_crc = crc32c index;
            index_offset = b.moffset;
            index_size = length b.block_len;
            original_file_size = b.raw_data_size;
          })
          false true true false in
      let b2 = record b { dest = (write_to dest1 (pack ht)).0; ht = ht } in
      let codes = concat c.codes in
      let layout : contents b2.dest ≡ front ++ (codes ++ (index ++ pack ht)) =
        takes.behind dest1 (pack ht)
        ∙ ap (λ l. l ++ pack ht) (takes.behind b.dest index ∙ ap (λ l. l ++ index) c.stores.stored)
        ∙ append_assoc (front ++ codes) index (pack ht)
        ∙ append_assoc front codes (index ++ pack ht) in
      let none_left : 512 - length front ≡ 0 = omega arith in
      let f : Finished b2 whole = record {
        codes = c.codes;
        blocks = c.blocks;
        rest = index ++ pack ht;
        coded = c.stores.coded;
        held =
            ap (drop 512) layout
            ∙ drop-append_right 512 front (codes ++ (index ++ pack ht)) (omega arith)
            ∙ ap (λ k. drop k (codes ++ (index ++ pack ht))) none_left;
        size =
            ap length layout
            ∙ length-append front (codes ++ (index ++ pack ht))
            ∙ omega (arith, length-append codes (index ++ pack ht));
        rest_of =
            length-append index (pack ht)
            ∙ omega (arith, rewrites.packed ht, ap (λ l. length (index_bytes l)) c.stores.lens);
        lens = c.stores.lens;
        short = c.stores.short;
        full = c.full;
        all = c.all;
        raw_of = c.raw_of;
      } in
      let all : wrote crc32c_salt crc32c compress write_to pwrite_to pack z.block_size z.verify
            ((write_to b.dest index).1) (length index)
          ≡ true =
        rw (takes.all b.dest index) ((==_iff (length index) (length index)).1 refl) in
      rw (all, takes.all dest1 (pack ht)) (overwrite_header-Finished again b2 whole f)

  -- What is reserved is stored as the last block.
  pub fini-Finished :
      (again : Bool) (b : ZFileBuilder D) (whole : List ℕ)
      → Written crc32c_salt crc32c compress dec write_to pwrite_to pack z longest contents takes
          laws busy front b whole
          (length whole)
      → (b1 : ZFileBuilder D) × (fini crc32c_salt crc32c compress write_to pwrite_to pack
            z.block_size z.verify again b
          ≡ (b1, true))
        × Finished b1 whole
  unfolding fini
  fini-Finished again b whole w = elim (Bool-cases (length b.reserved == 0)) [
    | inl t ↦
        let none_left = no_length b.reserved ((==_iff (length b.reserved) 0).0 t) in
        let c : Closed b whole = record {
          codes = w.codes;
          blocks = w.blocks;
          stores = w.stores;
          full = AreFull-All z.block_size w.blocks w.full;
          all =
              blocks-whole crc32c_salt crc32c compress dec write_to pwrite_to pack z longest
                contents takes laws busy front b whole (length whole) w none_left;
          raw_of = w.raw_of;
        } in
        rw t (write_index-Finished again b whole c)
    | inr t ↦
        let xs = b.reserved in
        let some_bytes : 0 < length xs = ground arith in
        let few : length xs ≤ z.block_size = omega (arith, w.short) in
        let b0 =
          stored_code crc32c_salt crc32c compress dec write_to pwrite_to pack z longest contents
            takes laws b xs in
        let c : Closed b0 whole = record {
          codes = _;
          blocks = w.blocks ++ (xs ∷ []);
          stores =
              stored_code-Stores crc32c_salt crc32c compress dec write_to pwrite_to pack z longest
                contents takes laws front b w.codes w.blocks xs w.stores some_bytes few;
          full = AreFull-snoc z.block_size w.blocks xs w.full few;
          all = concat-snoc w.blocks xs ∙ w.all;
          raw_of = w.raw_of;
        } in
        rw
          (
            t,
            write_buffer-lem crc32c_salt crc32c compress dec write_to pwrite_to pack z longest
                contents takes laws b xs some_bytes few,
          )
          (write_index-Finished again b0 whole c)
  ]
