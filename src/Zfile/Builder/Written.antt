-- ===== src/Zfile/Builder/Written.antt =====
-- What `write` of `ZFileBuilder` of src/overlaybd/zfile/zfile.cpp has stored.
use mathlib.Core.Path.{subst}
use mathlib.Core.List.{append_assoc, append-nil}
use dadi_fast_cdc.Prelude.{
  ℕ, ◌+◌, ◌^◌, ◌≤◌, ◌<◌, ◌≡◌, refl, sym, ap, ◌∙◌, Option, some, Bool, true, false,
}
use dadi_fast_cdc.Prelude.{
  List, [], ◌∷◌, ◌++◌, if◌then◌else◌, ==_iff, arith, length, length-append, concat, lengths, sum,
  sum-append, All, All-append,
}
use dadi_fast_cdc.Zfile.BlockReader.{CompressionFile, max_read_size}
use dadi_fast_cdc.Zfile.Pread.{little_endian}
use dadi_fast_cdc.Zfile.Pread.Stored.{IsCode, AreCodes}
use dadi_fast_cdc.Zfile.JumpTable.Total.{IsLength}
use dadi_fast_cdc.Zfile.Decompress.Whole.{Takes}
use dadi_fast_cdc.Zfile.Builder.{
  HeaderTrailer, ZFileBuilder, bytes_of, buf_size, compress_data, write_buffer, with_crc, wrote,
}

-- A compressor that takes every block, into at most `longest` bytes with the checksum.
pub record Compresses (crc : List ℕ → ℕ) (dec : List ℕ → ℕ → Option (List ℕ))
    (compress : List ℕ → ℕ → Option (List ℕ)) (block_size longest : ℕ) : Type 0 where
  pub out : List ℕ → List ℕ
  pub code_of :
      (xs : List ℕ)
      → 0 < length xs
      → length xs ≤ block_size
      → compress xs (block_size + buf_size) ≡ some (out xs)
  pub some_bytes : (xs : List ℕ) → 0 < length (out xs)
  pub bounded : (xs : List ℕ) → length xs ≤ block_size → length (out xs) + 4 ≤ longest
  pub back :
      (xs : List ℕ) → 0 < length xs → length xs ≤ block_size → dec (out xs) block_size ≡ some xs
  pub checksum : (xs : List ℕ) → crc xs < 2 ^ 32
  pub fits : longest ≤ max_read_size

pub little_endian-bytes_of : (n : ℕ) → n < 2 ^ 32 → little_endian (bytes_of n) ≡ n
little_endian-bytes_of n h = omega arith

-- The checksum behind the bytes, or none.
abbrev check_of : Bool → ℕ → List ℕ
check_of verify n = if verify then bytes_of n else []

append-check_of :
    (v : Bool) (xs : List ℕ) (n : ℕ) → (if v then xs ++ bytes_of n else xs) ≡ xs ++ check_of v n
append-check_of true xs n = refl
append-check_of false xs n = sym (append-nil xs)

length-check_of : (v : Bool) (n : ℕ) → length (check_of v n) ≡ (if v then 4 else 0)
length-check_of true n = refl
length-check_of false n = refl

little_endian-check_of :
    (v : Bool) (n : ℕ) → n < 2 ^ 32 → v ≡ true → little_endian (check_of v n) ≡ n
little_endian-check_of true n h e = little_endian-bytes_of n h
little_endian-check_of false n h e = absurd (no e)
  where
    no : false ≡ true → ⊥
    no e = cc

with_crc-some :
    (crc : List ℕ → ℕ) (compress : List ℕ → ℕ → Option (List ℕ)) (v : Bool) (ys : List ℕ)
    → 0 < length ys
    → with_crc crc compress v (some ys) ≡ some (if v then ys ++ bytes_of (crc ys) else ys)
with_crc-some crc compress v [] h = absurd (omega arith)
with_crc-some crc compress v (y ∷ ys) h = refl

pub concat-snoc : (xss : List (List ℕ)) (xs : List ℕ) → concat (xss ++ (xs ∷ [])) ≡ concat xss ++ xs
concat-snoc [] xs = append-nil xs
concat-snoc (x ∷ xss) xs =
    ap (λ l. x ++ l) (concat-snoc xss xs) ∙ sym (append_assoc x (concat xss) xs)

pub lengths-snoc :
    (xss : List (List ℕ)) (xs : List ℕ)
    → lengths (xss ++ (xs ∷ [])) ≡ lengths xss ++ (length xs ∷ [])
lengths-snoc [] xs = refl
lengths-snoc (x ∷ xss) xs = ap (λ l. length x ∷ l) (lengths-snoc xss xs)

pub AreCodes-snoc :
    (crc : List ℕ → ℕ) (dec : List ℕ → ℕ → Option (List ℕ)) (z : CompressionFile)
    (cs bs : List (List ℕ)) (c b : List ℕ)
    → AreCodes crc dec z cs bs
    → IsCode crc dec z c b
    → AreCodes crc dec z (cs ++ (c ∷ [])) (bs ++ (b ∷ []))
AreCodes-snoc crc dec z [] [] c b h one = (one, tt)
AreCodes-snoc crc dec z [] (b' ∷ bs) c b h one = absurd h
AreCodes-snoc crc dec z (c' ∷ cs) [] c b h one = absurd h
AreCodes-snoc crc dec z (c' ∷ cs) (b' ∷ bs) c b h one =
    (h.0, AreCodes-snoc crc dec z cs bs c b h.1 one)

module _ {D : Type 0} (crc32c_salt crc32c : List ℕ → ℕ)
    (compress dec : List ℕ → ℕ → Option (List ℕ)) (write_to : D → List ℕ → D × Option ℕ)
    (pwrite_to : D → List ℕ → ℕ → D × Option ℕ) (pack : HeaderTrailer → List ℕ)
    (z : CompressionFile) (longest : ℕ) (contents : D → List ℕ) (takes : Takes write_to contents)
    (laws : Compresses crc32c_salt dec compress z.block_size longest) where
  -- The codes of the blocks stand behind the header.
  pub record Stores (front : List ℕ) (b : ZFileBuilder D) (codes blocks : List (List ℕ))
      : Type 0 where
    pub stored : contents b.dest ≡ front ++ concat codes
    pub coded : AreCodes crc32c_salt dec z codes blocks
    pub lens : b.block_len ≡ lengths codes
    pub offset : b.moffset ≡ 512 + sum (lengths codes)
    pub short : All (IsLength z.verify longest) (lengths codes)

  -- The code of a block.
  abbrev pub code : List ℕ → List ℕ
  code xs = if z.verify then laws.out xs ++ bytes_of (crc32c_salt (laws.out xs)) else laws.out xs

  pub code-IsLength :
      (xs : List ℕ) → length xs ≤ z.block_size → IsLength z.verify longest (length (code xs))
  code-IsLength xs few =
      let ys = laws.out xs in
      let size =
        ap length (append-check_of z.verify ys (crc32c_salt ys))
        ∙ length-append ys (check_of z.verify (crc32c_salt ys)) in
      let tail = length-check_of z.verify (crc32c_salt ys) in
      ground (arith, size, tail, laws.some_bytes xs, laws.bounded xs few)

  pub code-IsCode :
      (xs : List ℕ)
      → 0 < length xs
      → length xs ≤ z.block_size
      → IsCode crc32c_salt dec z (code xs) xs
  code-IsCode xs some_bytes few =
      let ys = laws.out xs in
      record {
        payload = ys;
        check = check_of z.verify (crc32c_salt ys);
        parts = append-check_of z.verify ys (crc32c_salt ys);
        check_of = length-check_of z.verify (crc32c_salt ys);
        checks = little_endian-check_of z.verify (crc32c_salt ys) (laws.checksum ys);
        plain = laws.back xs some_bytes few;
        some_payload = laws.some_bytes xs;
        some_bytes = some_bytes;
        fits_block = few;
        fits_buf = omega (arith, (code-IsLength xs few).1, laws.fits);
      }

  compress_data-code :
      (xs : List ℕ)
      → 0 < length xs
      → length xs ≤ z.block_size
      → compress_data crc32c_salt compress xs (z.block_size + buf_size) z.verify ≡ some (code xs)
  unfolding compress_data
  compress_data-code xs some_bytes few =
      rw (laws.code_of xs some_bytes few)
        (with_crc-some crc32c_salt compress z.verify (laws.out xs) (laws.some_bytes xs))

  -- The builder after the code of a block.
  abbrev pub stored_code : ZFileBuilder D → List ℕ → ZFileBuilder D
  stored_code b xs = record b {
    dest = (write_to b.dest (code xs)).0;
    block_len = b.block_len ++ (length (code xs) ∷ []);
    moffset = b.moffset + length (code xs);
  }

  pub write_buffer-lem :
      (b : ZFileBuilder D) (xs : List ℕ)
      → 0 < length xs
      → length xs ≤ z.block_size
      → write_buffer crc32c_salt crc32c compress write_to pwrite_to pack z.block_size z.verify b xs
        ≡ (stored_code b xs, true)
  unfolding write_buffer
  write_buffer-lem b xs some_bytes few =
      let all : wrote crc32c_salt crc32c compress write_to pwrite_to pack z.block_size z.verify
            ((write_to b.dest (code xs)).1) (length (code xs))
          ≡ true =
        rw (takes.all b.dest (code xs)) ((==_iff (length (code xs)) (length (code xs))).1 refl) in
      rw (compress_data-code xs some_bytes few, all) refl

  pub stored_code-Stores :
      (front : List ℕ) (b : ZFileBuilder D) (codes blocks : List (List ℕ)) (xs : List ℕ)
      → Stores front b codes blocks
      → 0 < length xs
      → length xs ≤ z.block_size
      → Stores front (stored_code b xs) (codes ++ (code xs ∷ [])) (blocks ++ (xs ∷ []))
  stored_code-Stores front b codes blocks xs h some_bytes few =
      let sizes = lengths-snoc codes (code xs) in
      record {
        stored =
            takes.behind b.dest (code xs)
            ∙ ap (λ l. l ++ code xs) h.stored
            ∙ append_assoc front (concat codes) (code xs)
            ∙ ap (λ l. front ++ l) (sym (concat-snoc codes (code xs)));
        coded =
            AreCodes-snoc crc32c_salt dec z codes blocks (code xs) xs h.coded
              (code-IsCode xs some_bytes few);
        lens = ap (λ l. l ++ (length (code xs) ∷ [])) h.lens ∙ sym sizes;
        offset =
            omega
              (arith, h.offset, ap sum sizes, sum-append (lengths codes) (length (code xs) ∷ []));
        short =
            subst (λ l. All (IsLength z.verify longest) l) (sym sizes)
              (All-append (IsLength z.verify longest) (lengths codes) (length (code xs) ∷ [])
                h.short (code-IsLength xs few, tt));
      }
