-- ===== src/Zfile/Open/Laid.antt =====
-- `zfile_open_ro` of src/overlaybd/zfile/zfile.cpp of a zfile as the writers lay it out: the header,
-- the codes, the index, the sizes of the blocks where there are any, and the trailer.
use mathlib.Core.Path.{subst}
use mathlib.Core.List.{append_assoc, append-nil}
use dadi_fast_cdc.Prelude.{
  ℕ, suc, ◌+◌, ◌*◌, ◌^◌, ◌<◌, ◌≡◌, refl, sym, ap, ◌∙◌, Option, some, Bool, true, false,
}
use dadi_fast_cdc.Prelude.{
  List, [], ◌++◌, ltb, ◌==◌, ==_iff, if◌then◌else◌, arith, length, length-append, take-all, All,
}
use dadi_fast_cdc.Zfile.JumpTable.{JumpTable, built, build}
use dadi_fast_cdc.Zfile.BlockReader.{size_sub}
use dadi_fast_cdc.Zfile.Pread.Stored.{size_sub-lem}
use dadi_fast_cdc.Zfile.Builder.Opened.{opened_with}
use dadi_fast_cdc.Zfile.Builder.{HeaderTrailer, set_flags, index_bytes, space}
use dadi_fast_cdc.Zfile.Compress.{Options, first_header}
use dadi_fast_cdc.Zfile.Open.{
  Disk, ◌>>=◌, ◌>>◌, guard, words, read_index, read_chunk, read_trailer, load_index,
  load_jump_table, load_again, load_sizes, zfile_open_ro,
}
use dadi_fast_cdc.Zfile.Open.Parts.{
  ReadsBack, words-index_bytes, length-index_bytes, read_header-part, read_chunk-part,
  read_index-part,
}

-- What is packed is unpacked, with the right magic and digest.
pub record Unpacks (pack : Options → HeaderTrailer → List ℕ) (verify_magic is_valid : List ℕ → Bool)
    (unpack : List ℕ → Options × HeaderTrailer) : Type 0 where
  pub size : (o : Options) (ht : HeaderTrailer) → length (pack o ht) ≡ 512
  pub fields : (o : Options) (ht : HeaderTrailer) → unpack (pack o ht) ≡ (o, ht)
  pub magic : (o : Options) (ht : HeaderTrailer) → verify_magic (pack o ht) ≡ true
  pub digest : (o : Options) (ht : HeaderTrailer) → is_valid (pack o ht) ≡ true

-- The trailer over the fields that are known at the end.
abbrev pub closing : ℕ → ℕ → ℕ → ℕ → HeaderTrailer
closing crc offset n total =
    set_flags
      (record first_header {
        index_crc = crc;
        index_offset = offset;
        index_size = n;
        original_file_size = total;
      })
      false true true false

module _ {F : Type 0} (disk : Disk F) (pack : Options → HeaderTrailer → List ℕ)
    (unpacks : Unpacks pack disk.verify_magic disk.is_valid disk.unpack) (o : Options) (file : F)
    (codes lens sizes : List ℕ) (offset n total : ℕ) (t : JumpTable) where
  abbrev last : HeaderTrailer
  last = closing (disk.crc32c (index_bytes lens)) offset n total

  -- The header that is read, and the fields that count.
  abbrev header_of : Bool → HeaderTrailer
  header_of again = if again then set_flags last true false true true else first_header

  abbrev fields_of : Bool → HeaderTrailer
  fields_of again = if again then set_flags last true false true true else last

  abbrev behind_codes : List ℕ
  behind_codes = index_bytes lens ++ (index_bytes sizes ++ pack o last)

  module _ (again : Bool)
      (back : ReadsBack disk.file_pread disk.file_size file
        (pack o (header_of again) ++ (codes ++ behind_codes)))
      (at_offset : offset ≡ 512 + length codes) (count : n ≡ length lens)
      (low : 512 + length codes + length behind_codes < 2 ^ 64) (short : All (λ k. k < 2 ^ 32) lens)
      (table : build lens (space + o.dict_size) o.block_size o.verify ≡ built t) where
    abbrev front : List ℕ
    front = pack o (header_of again) ++ codes

    length-front : length front ≡ offset
    length-front =
        length-append (pack o (header_of again)) codes
        ∙ omega (arith, unpacks.size o (header_of again), at_offset)

    abbrev BackFrom : List ℕ → Type 0
    BackFrom l = ReadsBack disk.file_pread disk.file_size file l

    back_index : BackFrom (front ++ (index_bytes lens ++ (index_bytes sizes ++ pack o last)))
    back_index =
        subst BackFrom (sym (append_assoc (pack o (header_of again)) codes behind_codes)) back

    read_index-lem : read_index disk (suc (n * 4)) file offset (n * 4) 0 ≡ some (index_bytes lens)
    read_index-lem =
        let size : n * 4 ≡ length (index_bytes lens) =
          omega (arith, length-index_bytes lens, count) in
        ap (λ (k : ℕ). read_index disk (suc k) file offset k 0) size
        ∙ ap
            (λ (k : ℕ).
              read_index disk (suc (length (index_bytes lens))) file k (length (index_bytes lens))
                0)
            (sym length-front)
        ∙ read_index-part disk file front (index_bytes lens) (index_bytes sizes ++ pack o last)
            back_index (suc (length (index_bytes lens))) 0 (omega arith)

    load_index-lem : load_index disk file (o, fields_of again) ≡ some (o, fields_of again, t)
    unfolding load_index
    load_index-lem =
        elim again
          as (λ again. load_index disk file (o, fields_of again) ≡ some (o, fields_of again, t)) [
            | true ↦ rw (read_index-lem, good_crc, words-index_bytes lens short, table) refl
            | false ↦ rw (read_index-lem, good_crc, words-index_bytes lens short, table) refl
          ]
      where
        good_crc : (disk.crc32c (index_bytes lens) == disk.crc32c (index_bytes lens)) ≡ true
        good_crc = (==_iff (disk.crc32c (index_bytes lens)) (disk.crc32c (index_bytes lens))).1 refl

    -- What stands before the trailer.
    abbrev before_trailer : List ℕ
    before_trailer = front ++ (index_bytes lens ++ index_bytes sizes)

    back_trailer : BackFrom (before_trailer ++ (pack o last ++ []))
    back_trailer =
        subst BackFrom
          (sym (
            ap (λ l. before_trailer ++ l) (append-nil (pack o last))
            ∙ append_assoc front (index_bytes lens ++ index_bytes sizes) (pack o last)
            ∙ ap (λ l. front ++ l)
                (append_assoc (index_bytes lens) (index_bytes sizes) (pack o last))))
          back_index

    length-before_trailer :
        length before_trailer ≡ offset + (length (index_bytes lens) + length (index_bytes sizes))
    length-before_trailer =
        length-append front (index_bytes lens ++ index_bytes sizes)
        ∙ omega (arith, length-front, length-append (index_bytes lens) (index_bytes sizes))

    size_bound : offset + (length (index_bytes lens) + length (index_bytes sizes)) + 512 < 2 ^ 64
    size_bound = omega (
      arith,
      low,
      at_offset,
      unpacks.size o last,
      length-append (index_bytes lens) (index_bytes sizes ++ pack o last),
      length-append (index_bytes sizes) (pack o last),
    )

    read_trailer-lem : read_trailer disk file first_header ≡ some (o, last)
    unfolding read_trailer
    read_trailer-lem =
        let all = length-append before_trailer (pack o last ++ []) in
        let size_of : length (pack o last ++ []) ≡ 512 =
          ap length (append-nil (pack o last)) ∙ unpacks.size o last in
        let place : size_sub (length (before_trailer ++ (pack o last ++ []))) space
            ≡ length before_trailer =
          size_sub-lem (length (before_trailer ++ (pack o last ++ []))) space
            (omega (arith, all, size_of))
            (omega (arith, all, size_of, length-before_trailer, size_bound))
          ∙ omega (arith, all, size_of) in
        let room : size_sub (length before_trailer) offset
            ≡ length (index_bytes lens) + length (index_bytes sizes) =
          size_sub-lem (length before_trailer) offset (omega (arith, length-before_trailer))
            (omega (arith, length-before_trailer, size_bound))
          ∙ omega (arith, length-before_trailer) in
        let enough : ltb (length (index_bytes lens) + length (index_bytes sizes)) (n * 4) ≡ false =
          ground (arith, length-index_bytes lens, count) in
        rw
          (
            back_trailer.size,
            place,
            read_header-part disk file before_trailer (pack o last) [] back_trailer
                (unpacks.size o last),
            unpacks.fields o last,
            unpacks.magic o last,
            room,
            enough,
          )
          refl

    -- The header counts, or the trailer.
    header_or_trailer :
        (b : Bool)
        → load_index disk file (o, fields_of b) ≡ some (o, fields_of b, t)
        → (guard (header_of b).header
            >> ((if (header_of b).header_overwrite
                  then some (o, header_of b)
                  else read_trailer disk file (header_of b))
                >>= λ pht. load_index disk file pht))
          ≡ some (o, fields_of b, t)
    header_or_trailer true e = e
    header_or_trailer false e = rw read_trailer-lem e

    load_jump_table-lem : load_jump_table disk file ≡ some (o, fields_of again, t)
    unfolding load_jump_table
    load_jump_table-lem =
        let read =
          read_header-part disk file [] (pack o (header_of again)) (codes ++ behind_codes) back
            (unpacks.size o (header_of again)) in
        rw
          (
            read,
            unpacks.magic o (header_of again),
            unpacks.fields o (header_of again),
            unpacks.digest o (header_of again),
            back.size,
          )
          (header_or_trailer again load_index-lem)

    size_fields : (fields_of again).index_size ≡ n
    size_fields = elim again as (λ b. (fields_of b).index_size ≡ n) [ true ↦ refl | false ↦ refl ]

    offset_fields : (fields_of again).index_offset ≡ offset
    offset_fields = elim again as (λ b. (fields_of b).index_offset ≡ offset) [
      | true ↦ refl
      | false ↦ refl
    ]

    total_fields : (fields_of again).original_file_size ≡ total
    total_fields = elim again as (λ b. (fields_of b).original_file_size ≡ total) [
      | true ↦ refl
      | false ↦ refl
    ]

    abbrev words_of : Option (List ℕ) → Option (List ℕ)
    words_of m = m >>= λ buf. some (words buf)

    abbrev sizes_at : ℕ → ℕ → Option (List ℕ)
    sizes_at i k = words_of (read_chunk disk file i k)

    load_sizes-lem :
        o.is_fastcdc ≡ true
        → length sizes ≡ n
        → All (λ k. k < 2 ^ 32) sizes
        → load_sizes disk file o (fields_of again) ≡ some sizes
    unfolding load_sizes
    load_sizes-lem fast many short_sizes =
        let before = front ++ index_bytes lens in
        let part = index_bytes sizes in
        let stored =
          subst BackFrom (sym (append_assoc front (index_bytes lens) (part ++ pack o last)))
            back_index in
        let bytes : (fields_of again).index_size * 4 ≡ length part =
          omega (arith, size_fields, many, length-index_bytes sizes) in
        let place : (fields_of again).index_offset + (fields_of again).index_size * 4
            ≡ length before + 0 =
          omega (
            arith,
            offset_fields,
            size_fields,
            count,
            length-front,
            length-index_bytes lens,
            length-append front (index_bytes lens),
          ) in
        ap
          (λ b.
            if b
            then sizes_at ((fields_of again).index_offset + (fields_of again).index_size * 4)
                ((fields_of again).index_size * 4)
            else some [])
          fast
        ∙ ap (λ (i : ℕ). sizes_at i ((fields_of again).index_size * 4)) place
        ∙ ap (λ (i : ℕ). sizes_at (length before + 0) i) bytes
        ∙ ap words_of (
            read_chunk-part disk file before part (pack o last) stored (length part) 0 (omega arith)
            ∙ ap some (take-all (length part) part (omega arith)))
        ∙ ap some (words-index_bytes sizes short_sizes)

    -- It opens, with the sizes of the blocks.
    pub zfile_open_ro-lem :
        (verify : Bool)
        → o.is_fastcdc ≡ true
        → length sizes ≡ n
        → All (λ k. k < 2 ^ 32) sizes
        → zfile_open_ro disk verify file
          ≡ some (file, opened_with o.block_size o.verify o.is_fastcdc sizes t total)
    unfolding zfile_open_ro load_again
    zfile_open_ro-lem verify fast many short_sizes =
        rw (load_jump_table-lem, load_sizes-lem fast many short_sizes, total_fields) refl
