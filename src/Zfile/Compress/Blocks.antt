-- ===== src/Zfile/Compress/Blocks.antt =====
-- What the batches of `zfile_compress` of src/overlaybd/zfile/zfile.cpp leave in the zfile.
use mathlib.Core.Path.{subst}
use mathlib.Core.List.{append_assoc, append-nil}
use dadi_fast_cdc.Prelude.{
  ℕ, ◌+◌, ◌*◌, ◌^◌, ◌≤◌, ◌<◌, ◌≡◌, refl, sym, ap, ◌∙◌, inl, inr, Option, true,
}
use dadi_fast_cdc.Prelude.{
  List, [], ◌∷◌, ◌++◌, if◌then◌else◌, Bool-cases, arith, length, length-append, concat, lengths,
  sum, sum-append, All, All-append,
}
use dadi_fast_cdc.Zfile.JumpTable.Total.{IsLength}
use dadi_fast_cdc.Zfile.BlockReader.{CompressionFile}
use dadi_fast_cdc.Zfile.Pread.Stored.{AreCodes}
use dadi_fast_cdc.Zfile.Decompress.Whole.{Takes}
use dadi_fast_cdc.Zfile.ChunkLoop.Tiling.{FitsBlock}
use dadi_fast_cdc.Zfile.Builder.{HeaderTrailer, bytes_of, buf_size}
use dadi_fast_cdc.Zfile.Builder.Written.{
  Compresses, code, code-IsCode, code-IsLength, AreCodes-snoc, concat-snoc, lengths-snoc,
}
use dadi_fast_cdc.Zfile.Builder.Fini.{Rewrites}
use dadi_fast_cdc.Zfile.Builder.Opened.{opened, no_table}
use dadi_fast_cdc.Zfile.Open.{Disk}
use dadi_fast_cdc.Zfile.Open.Parts.{ReadsBack}
use dadi_fast_cdc.Zfile.Open.Laid.{Unpacks}
use dadi_fast_cdc.Zfile.Compressor.{run_batch, run_one}
use dadi_fast_cdc.Zfile.Compressor.Laws.{outs, AllFit, run_one-Compresses}
use dadi_fast_cdc.Zfile.Compress.{Options, Compression, took, append_code, append_codes}

-- What `zfile_compress` uses for blocks of `block_size` bytes in batches of `nbatch`: LZ4, which takes
-- every block, into at most `longest` bytes with the checksum, in the room that it has; a file that
-- takes every write and reads what it holds; headers of 512 bytes that are unpacked as they were
-- packed; buffers of less than 2^32 bytes.
pub record Services (D : Type 0) (block_size nbatch : ℕ) : Type 0 where
  pub crc32c_salt : List ℕ → ℕ
  pub disk : Disk D
  pub lz4_compress : List ℕ → ℕ → Option (List ℕ)
  pub lz4_decompress : List ℕ → ℕ → Option (List ℕ)
  pub max_dst_size : ℕ
  pub longest : ℕ
  pub compresses : Compresses crc32c_salt lz4_decompress lz4_compress block_size longest
  pub room : max_dst_size ≤ block_size + buf_size
  pub some_batch : 0 < nbatch
  pub low : nbatch * (block_size + buf_size) < 2 ^ 32
  pub write_to : D → List ℕ → D × Option ℕ
  pub pwrite_to : D → List ℕ → ℕ → D × Option ℕ
  pub pack : Options → HeaderTrailer → List ℕ
  pub contents : D → List ℕ
  pub takes : Takes write_to contents
  pub rewrites : (o : Options) → Rewrites pwrite_to contents (pack o)
  pub back : (d : D) → ReadsBack disk.file_pread disk.file_size d (contents d)
  pub unpacks : Unpacks pack disk.verify_magic disk.is_valid disk.unpack

module _ {D : Type 0} (o : Options) (nbatch : ℕ) (w : Services D o.block_size nbatch) (largest : ℕ)
    (front : List ℕ) where
  -- The compressor, for batches and for one block.
  abbrev pub compress_batch : List ℕ → List ℕ → ℕ → Option (List (List ℕ))
  compress_batch = run_batch w.lz4_compress nbatch w.max_dst_size

  abbrev pub decompress : List ℕ → ℕ → Option (List ℕ)
  decompress = run_one w.lz4_decompress o.block_size

  abbrev pub template : CompressionFile
  template = opened o.block_size o.verify no_table 0

  abbrev pub laws :
      Compresses w.crc32c_salt decompress
        (run_one w.lz4_compress w.max_dst_size)
        o.block_size
        w.longest
  laws =
      run_one-Compresses w.crc32c_salt w.lz4_compress w.lz4_decompress o.block_size w.longest
        w.compresses w.max_dst_size w.room

  abbrev block_code : List ℕ → List ℕ
  block_code xs =
      code w.crc32c_salt w.disk.crc32c (run_one w.lz4_compress w.max_dst_size) decompress w.write_to
        w.pwrite_to (w.pack o) template w.longest w.contents w.takes laws xs

  -- The blocks written so far are `whole`, and stand behind the header; `total` bytes were read.
  pub record Kept (s : Compression D) (whole : List ℕ) (total : ℕ) : Type 0 where
    pub codes : List (List ℕ)
    pub blocks : List (List ℕ)
    pub stored : w.contents s.dest ≡ front ++ concat codes
    pub coded : AreCodes w.crc32c_salt decompress template codes blocks
    pub lens : s.block_len ≡ lengths codes
    pub raw_lens : s.raw_block_len ≡ lengths blocks
    pub offset : s.moffset ≡ 512 + sum (lengths codes)
    pub short : All (IsLength o.verify w.longest) (lengths codes)
    pub all : concat blocks ≡ whole
    pub infile : s.infile_size ≡ total
    pub max_size : s.shared.globals.max_size ≡ largest

  took-all : (d : D) (xs : List ℕ) → took ((w.write_to d xs).1) (length xs) ≡ true
  took-all d xs = rw (w.takes.all d xs) (ground arith)

  took_check :
      (d : D) (xs : List ℕ) → took ((w.write_to d (bytes_of (w.crc32c_salt xs))).1) 4 ≡ true
  took_check d xs = took-all d (bytes_of (w.crc32c_salt xs))

  -- The file after a block.
  abbrev after_block : D → List ℕ → D
  after_block d xs =
      let d1 = (w.write_to d (laws.out xs)).0 in
      if o.verify then (w.write_to d1 (bytes_of (w.crc32c_salt (laws.out xs)))).0 else d1

  contents-after_block :
      (d : D) (xs : List ℕ) → w.contents (after_block d xs) ≡ w.contents d ++ block_code xs
  contents-after_block d xs =
      let ys = laws.out xs in
      let check = bytes_of (w.crc32c_salt ys) in
      elim (Bool-cases o.verify) [
        | inl t ↦ rw t (
            w.takes.behind ((w.write_to d ys).0) check
            ∙ ap (λ l. l ++ check) (w.takes.behind d ys)
            ∙ append_assoc (w.contents d) ys check)
        | inr t ↦ rw t (w.takes.behind d ys)
      ]

  abbrev next_state : Compression D → List ℕ → Compression D
  next_state s xs = record s {
    dest = after_block s.dest xs;
    block_len = s.block_len ++ (length (block_code xs) ∷ []);
    raw_block_len = s.raw_block_len ++ (length xs ∷ []);
    moffset = s.moffset + length (block_code xs);
  }

  append_code-lem :
      (s : Compression D) (xs : List ℕ)
      → append_code w.crc32c_salt compress_batch w.write_to o s (laws.out xs) (length xs)
        ≡ (next_state s xs, true)
  unfolding append_code
  append_code-lem s xs =
      let ys = laws.out xs in
      let size = length-append ys (bytes_of (w.crc32c_salt ys)) in
      elim (Bool-cases o.verify) [
        | inl t ↦ rw (t, took-all s.dest ys, took_check ((w.write_to s.dest ys).0) ys, size) refl
        | inr t ↦ rw (t, took-all s.dest ys) refl
      ]

  next_state-Kept :
      (s : Compression D) (xs whole : List ℕ) (total : ℕ)
      → Kept s whole total
      → FitsBlock o.block_size (length xs)
      → Kept (next_state s xs) (whole ++ xs) total
  next_state-Kept s xs whole total k fits =
      let sizes = lengths-snoc k.codes (block_code xs) in
      record {
        codes = k.codes ++ (block_code xs ∷ []);
        blocks = k.blocks ++ (xs ∷ []);
        stored =
            contents-after_block s.dest xs
            ∙ ap (λ l. l ++ block_code xs) k.stored
            ∙ append_assoc front (concat k.codes) (block_code xs)
            ∙ ap (λ l. front ++ l) (sym (concat-snoc k.codes (block_code xs)));
        coded =
            AreCodes-snoc w.crc32c_salt decompress template k.codes k.blocks (block_code xs) xs
              k.coded
              (code-IsCode w.crc32c_salt w.disk.crc32c (run_one w.lz4_compress w.max_dst_size)
                decompress w.write_to w.pwrite_to (w.pack o) template w.longest w.contents w.takes
                laws xs fits.0 fits.1);
        lens = ap (λ l. l ++ (length (block_code xs) ∷ [])) k.lens ∙ sym sizes;
        raw_lens = ap (λ l. l ++ (length xs ∷ [])) k.raw_lens ∙ sym (lengths-snoc k.blocks xs);
        offset = omega (
          arith,
          k.offset,
          ap sum sizes,
          sum-append (lengths k.codes) (length (block_code xs) ∷ []),
        );
        short =
            subst (λ l. All (IsLength o.verify w.longest) l) (sym sizes)
              (All-append (IsLength o.verify w.longest) (lengths k.codes)
                (length (block_code xs) ∷ []) k.short
                (
                  code-IsLength w.crc32c_salt w.disk.crc32c (run_one w.lz4_compress w.max_dst_size)
                      decompress w.write_to w.pwrite_to (w.pack o) template w.longest w.contents
                      w.takes laws xs fits.1,
                  tt,
                ));
        all = concat-snoc k.blocks xs ∙ ap (λ l. l ++ xs) k.all;
        infile = k.infile;
        max_size = k.max_size;
      }

  pub append_codes-Kept :
      (xss : List (List ℕ)) (s : Compression D) (whole : List ℕ) (total : ℕ)
      → Kept s whole total
      → AllFit o.block_size xss
      → (s1 : Compression D) × (append_codes w.crc32c_salt compress_batch w.write_to o s
            (lengths xss)
            (outs laws.out xss)
          ≡ (s1, true))
        × Kept s1 (whole ++ concat xss) total
  unfolding append_codes
  append_codes-Kept [] s whole total k fit =
      (s, refl, subst (λ l. Kept s l total) (sym (append-nil whole)) k)
  append_codes-Kept (xs ∷ xss) s whole total k fit =
      let r =
        append_codes-Kept xss (next_state s xs) (whole ++ xs) total
          (next_state-Kept s xs whole total k fit.0) fit.1 in
      rw (append_code-lem s xs)
        (r.0, r.1, subst (λ l. Kept (r.0) l total) (append_assoc whole xs (concat xss)) r.2)
