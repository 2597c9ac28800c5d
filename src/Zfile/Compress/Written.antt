-- ===== src/Zfile/Compress/Written.antt =====
-- The zfile that `zfile_compress` of src/overlaybd/zfile/zfile.cpp has written with FastCDC: what it
-- holds, and that `zfile_open_ro` opens it.
use mathlib.Core.Path.{subst}
use mathlib.Core.List.{append-nil}
use dadi_fast_cdc.Prelude.{
  ℕ, ◌+◌, ◌-◌, ◌*◌, ◌^◌, ◌≤◌, ◌<◌, ◌≡◌, refl, sym, ap, ◌∙◌, Option, some, Bool, true,
}
use dadi_fast_cdc.Prelude.{
  List, [], ◌∷◌, ◌++◌, arith, length, length-append, drop, drop-append_right, concat, lengths,
  length-concat, length-lengths, sum, All,
}
use dadi_fast_cdc.FastCdc.Fingerprint.{IsBytes}
use dadi_fast_cdc.Zfile.Chunker.{Chunker, Shared, construct}
use dadi_fast_cdc.Zfile.JumpTable.{JumpTable, build, built}
use dadi_fast_cdc.Zfile.JumpTable.Built.{IsTable}
use dadi_fast_cdc.Zfile.JumpTable.Total.{IsLength}
use dadi_fast_cdc.Zfile.BlockReader.{CompressionFile, max_read_size}
use dadi_fast_cdc.Zfile.Pread.Stored.{Stored, AreCodes}
use dadi_fast_cdc.Zfile.Pread.FastCdc.{IsFastCdc}
use dadi_fast_cdc.Zfile.Builder.{index_bytes}
use dadi_fast_cdc.Zfile.Builder.Opened.{opened_with, no_table, AreCodes-opened, AreCodes-size}
use dadi_fast_cdc.Zfile.Compress.{
  CompressArgs, Options, Compression, header_options, first_header, zfile_compress,
}
use dadi_fast_cdc.Zfile.Compress.Blocks.{Services, Kept, compress_batch, decompress, template}
use dadi_fast_cdc.Zfile.Compress.Loop.{Source, compress_loop-Kept}
use dadi_fast_cdc.Zfile.Compress.Layout.{last_header, head, tail, write_indexes-lem}
use dadi_fast_cdc.Zfile.Open.{zfile_open_ro}
use dadi_fast_cdc.Zfile.Open.Parts.{ReadsBack, length-index_bytes}
use dadi_fast_cdc.Zfile.Open.Laid.{zfile_open_ro-lem}

-- The arguments for FastCDC.
abbrev pub fastcdc_args : ℕ → ℕ → ℕ → ℕ → Bool → Bool → CompressArgs
fastcdc_args block_size min_size avg_size max_size verify overwrite_header = record {
  block_size = block_size;
  dict_size = 0;
  verify = verify;
  overwrite_header = overwrite_header;
  use_fastcdc = true;
  fastcdc_min_size = min_size;
  fastcdc_avg_size = avg_size;
  fastcdc_max_size = max_size;
}

below_2_32 :
    (v : Bool) (longest : ℕ) (ns : List ℕ)
    → longest ≤ max_read_size
    → All (IsLength v longest) ns
    → All (λ n. n < 2 ^ 32) ns
below_2_32 v longest [] fits h = tt
below_2_32 v longest (n ∷ ns) fits h = (omega (arith, h.0.1), below_2_32 v longest ns fits h.1)

blocks_below :
    (crc : List ℕ → ℕ) (dec : List ℕ → ℕ → Option (List ℕ)) (z : CompressionFile)
    (codes blocks : List (List ℕ))
    → AreCodes crc dec z codes blocks
    → z.block_size ≤ 65536
    → All (λ n. n < 2 ^ 32) (lengths blocks)
blocks_below crc dec z [] [] h small = tt
blocks_below crc dec z [] (b ∷ bs) h small = absurd h
blocks_below crc dec z (c ∷ cs) [] h small = absurd h
blocks_below crc dec z (c ∷ cs) (b ∷ bs) h small =
    (omega (arith, h.0.fits_block), blocks_below crc dec z cs bs h.1 small)

module _ {D S : Type 0} (md5 : List ℕ → List ℕ) (block_size min_size avg_size max_size : ℕ)
    (verify again : Bool) (nbatch : ℕ) (w : Services D max_size nbatch)
    (read_from : S → ℕ → S × Option (List ℕ)) (left : S → List ℕ)
    (source : Source read_from left) where
  abbrev args : CompressArgs
  args = fastcdc_args block_size min_size avg_size max_size verify again

  abbrev o : Options
  o = header_options args

  abbrev Held : Compression D → List ℕ → ℕ → Type 0
  Held s whole total = Kept o nbatch w max_size (w.pack o first_header) s whole total

  abbrev chunker : Chunker
  chunker = record { m_min_size = min_size; m_avg_size = avg_size; m_max_size = max_size }

  abbrev dec : List ℕ → ℕ → Option (List ℕ)
  dec = decompress o nbatch w max_size (w.pack o first_header)

  abbrev batch_of : List ℕ → List ℕ → ℕ → Option (List (List ℕ))
  batch_of = compress_batch o nbatch w max_size (w.pack o first_header)

  abbrev front : List ℕ
  front = w.pack o first_header

  -- The zfile, with the state after the loop.
  pub record Written (s : Compression D) (whole : List ℕ) : Type 0 where
    pub kept : Held s whole (length whole)
    pub dest : D
    pub layout :
        w.contents dest
        ≡ head o nbatch w refl again s ++ (concat kept.codes ++ tail o nbatch w refl s)

  start-Held :
      (shared : Shared) (dest : D)
      → w.contents dest ≡ []
      → Held
          (record {
            dest = (w.write_to dest (w.pack o first_header)).0;
            moffset = 512 + 0;
            block_len = [];
            raw_block_len = [];
            infile_size = 0;
            shared = (construct md5 shared min_size avg_size max_size).1;
          })
          []
          0
  unfolding construct
  start-Held shared dest empty = record {
    codes = [];
    blocks = [];
    stored =
        w.takes.behind dest (w.pack o first_header)
        ∙ ap (λ l. l ++ w.pack o first_header) empty
        ∙ sym (append-nil (w.pack o first_header));
    coded = tt;
    lens = refl;
    raw_lens = refl;
    offset = omega arith;
    short = tt;
    all = refl;
    infile = refl;
    max_size = refl;
  }

  pub zfile_compress-Written :
      (shared : Shared) (src : S) (dest : D) (fuel : ℕ)
      → 0 < min_size
      → min_size ≤ max_size
      → IsBytes (left src)
      → length (left src) < fuel
      → w.contents dest ≡ []
      → (s : Compression D) × (f : Written s (left src)) × (zfile_compress md5 w.crc32c_salt
            w.disk.crc32c batch_of w.write_to w.pwrite_to w.pack read_from nbatch fuel args shared
            src dest
          ≡ some (record s { dest = f.dest }, true))
  unfolding zfile_compress construct
  zfile_compress-Written shared src dest fuel low ordered bytes enough empty =
      let r =
        compress_loop-Kept o nbatch w (w.pack o first_header) read_from left source chunker refl low
          ordered refl fuel src _ [] 0 (start-Held shared dest empty) bytes enough in
      let all : 0 + length (left src) ≡ length (left src) = omega arith in
      let kept = subst (λ n. Held (r.0) (left src) n) all r.2 in
      let e = write_indexes-lem o nbatch w refl again (r.0) (left src) (length (left src)) kept in
      rw (w.takes.all dest (w.pack o first_header), r.1, e.1)
        (r.0, record { kept = kept; dest = e.0; layout = e.2 }, refl)

  pub Written-sizes :
      (s : Compression D) (whole : List ℕ) (f : Written s whole)
      → length whole < 2 ^ 40
      → (length f.kept.blocks ≤ length whole)
        × (sum (lengths f.kept.blocks) ≡ length whole)
        × (512 + length (concat f.kept.codes) + length (tail o nbatch w refl s) < 2 ^ 63)
  Written-sizes s whole f low =
      let k = f.kept in
      let size =
        AreCodes-size w.crc32c_salt dec (template o nbatch w max_size front) k.codes k.blocks
          k.coded in
      let all : sum (lengths k.blocks) ≡ length whole =
        sym (length-concat k.blocks) ∙ ap length k.all in
      let raw_index = index_bytes s.raw_block_len in
      let trailer = w.pack o (last_header o nbatch w refl s) in
      let raw_size : length raw_index ≡ length k.blocks * 4 =
        length-index_bytes s.raw_block_len
        ∙ ap (λ (n : ℕ). n * 4) (ap length k.raw_lens ∙ length-lengths k.blocks) in
      (
        omega (arith, size.0, all),
        all,
        omega (
          arith,
          size.0,
          size.1,
          size.2,
          all,
          length-concat k.codes,
          ap (λ l. length (index_bytes l)) k.lens,
          raw_size,
          w.unpacks.size o (last_header o nbatch w refl s),
          length-append (index_bytes s.block_len) (raw_index ++ trailer),
          length-append raw_index trailer,
        ),
      )

  length-head : (s : Compression D) → length (head o nbatch w refl again s) ≡ 512
  length-head s = w.unpacks.size o _

  -- The jump table, with the sizes from the file.
  abbrev pub opened_zfile : Compression D → JumpTable → CompressionFile
  opened_zfile s t = opened_with max_size verify true s.raw_block_len t s.infile_size

  pub Written-Stored :
      (s : Compression D) (whole : List ℕ) (f : Written s whole) (t : JumpTable)
      → length whole < 2 ^ 40
      → IsTable t 512 (lengths f.kept.codes)
      → Stored w.crc32c_salt dec w.disk.file_pread
          (opened_zfile s t)
          f.dest
          f.kept.codes
          f.kept.blocks
  Written-Stored s whole f t below table =
      let k = f.kept in
      let h = head o nbatch w refl again s in
      let body = concat k.codes ++ tail o nbatch w refl s in
      let none_left : 512 - length h ≡ 0 = omega (arith, length-head s) in
      let all = ap length f.layout ∙ length-append h body in
      record {
        bytes = w.contents f.dest;
        begin = 512;
        rest = tail o nbatch w refl s;
        reads = λ n p inside. (w.back f.dest).reads n p inside;
        held =
            ap (drop 512) f.layout
            ∙ drop-append_right 512 h body (omega (arith, length-head s))
            ∙ ap (λ (i : ℕ). drop i body) none_left;
        before = omega (arith, all, length-head s);
        low = omega (
          arith,
          all,
          length-head s,
          (Written-sizes s whole f below).2,
          length-append (concat k.codes) (tail o nbatch w refl s),
        );
        table = table;
        coded =
            AreCodes-opened w.crc32c_salt dec max_size verify true s.raw_block_len no_table t 0
              s.infile_size k.codes k.blocks k.coded;
      }

  pub Written-IsFastCdc :
      (s : Compression D) (whole : List ℕ) (f : Written s whole) (t : JumpTable)
      → length whole < 2 ^ 40
      → max_size ≤ 65536
      → IsFastCdc (opened_zfile s t) f.kept.blocks
  Written-IsFastCdc s whole f t below small =
      let sizes = Written-sizes s whole f below in
      record {
        fastcdc = refl;
        raw_sizes = f.kept.raw_lens;
        size = f.kept.infile ∙ sym sizes.1;
        low = omega (arith, sizes.1);
        block_size = small;
        valid = refl;
      }

  -- It opens again.
  pub Written-opened :
      (s : Compression D) (whole : List ℕ) (f : Written s whole) (t : JumpTable)
      (verify_reads : Bool)
      → length whole < 2 ^ 40
      → max_size ≤ 65536
      → build (lengths f.kept.codes) 512 max_size verify ≡ built t
      → zfile_open_ro w.disk verify_reads f.dest ≡ some (f.dest, opened_zfile s t)
  Written-opened s whole f t verify_reads below small table =
      let k = f.kept in
      let sizes = Written-sizes s whole f below in
      let zfile = template o nbatch w max_size front in
      let count = (AreCodes-size w.crc32c_salt dec zfile k.codes k.blocks k.coded).2 in
      let many : length s.raw_block_len ≡ length s.block_len = omega (
        arith,
        count,
        length-index_bytes (lengths k.codes),
        ap length k.lens,
        ap length k.raw_lens,
        length-lengths k.blocks,
      ) in
      zfile_open_ro-lem w.disk w.pack w.unpacks o f.dest (concat k.codes) s.block_len
        s.raw_block_len s.moffset (length s.block_len) s.infile_size t again
        (subst (λ l. ReadsBack w.disk.file_pread w.disk.file_size f.dest l) f.layout
          (w.back f.dest))
        (k.offset ∙ ap (λ (n : ℕ). 512 + n) (sym (length-concat k.codes))) refl
        (omega (arith, sizes.2))
        (subst (λ l. All (λ n. n < 2 ^ 32) l) (sym k.lens)
          (below_2_32 verify w.longest (lengths k.codes) w.compresses.fits k.short))
        (ap (λ l. build l (512 + 0) max_size verify) k.lens ∙ table) verify_reads refl many
        (subst (λ l. All (λ n. n < 2 ^ 32) l) (sym k.raw_lens)
          (blocks_below w.crc32c_salt dec zfile k.codes k.blocks k.coded small))
