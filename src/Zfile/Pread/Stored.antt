-- ===== src/Zfile/Pread/Stored.antt =====
-- A zfile whose blocks are those of the original file, for src/overlaybd/zfile/zfile.cpp: what the
-- file below holds, and where the reader finds it.
use mathlib.Core.List.{append_assoc}
use dadi_fast_cdc.Prelude.{
  ℕ, zero, suc, ◌+◌, ◌-◌, ◌^◌, ◌≤◌, ◌<◌, ◌≡◌, refl, sym, ap, ◌∙◌, Option, some, true,
}
use dadi_fast_cdc.Prelude.{
  List, [], ◌∷◌, ◌++◌, arith, length, length-append, length-drop, take, drop, drop-drop, concat,
  lengths, length-lengths, length-concat, drop-concat, sum, sum-take_le, sum-take_all, drop-lengths,
  sum-take-suc,
}
use dadi_fast_cdc.Zfile.JumpTable.{at_index}
use dadi_fast_cdc.Zfile.JumpTable.Built.{IsTable}
use dadi_fast_cdc.Zfile.BlockReader.{
  CompressionFile, max_read_size, size_sub, checksum_size, get_blocks_length,
}
use dadi_fast_cdc.Zfile.Pread.{little_endian}

pub size_sub-lem : (a b : ℕ) → b ≤ a → a < 2 ^ 64 → size_sub a b ≡ a - b
unfolding size_sub
size_sub-lem a b h low = omega arith

-- `code` is what is stored for the block `raw`: the compressed bytes, and the checksum behind them.
pub record IsCode (crc32c_salt : List ℕ → ℕ) (decompress : List ℕ → ℕ → Option (List ℕ))
    (z : CompressionFile) (code raw : List ℕ) : Type 0 where
  pub payload : List ℕ
  pub check : List ℕ
  pub parts : code ≡ payload ++ check
  pub check_of : length check ≡ checksum_size z
  pub checks : z.verify ≡ true → little_endian check ≡ crc32c_salt payload
  pub plain : decompress payload z.block_size ≡ some raw
  pub some_payload : 0 < length payload
  pub some_bytes : 0 < length raw
  pub fits_block : length raw ≤ z.block_size
  pub fits_buf : length code ≤ max_read_size

abbrev pub AreCodes :
    (List ℕ → ℕ)
    → (List ℕ → ℕ → Option (List ℕ))
    → CompressionFile
    → List (List ℕ)
    → List (List ℕ)
    → Type 0
AreCodes crc dec z [] [] = Unit
AreCodes crc dec z [] (b ∷ bs) = ⊥
AreCodes crc dec z (c ∷ cs) [] = ⊥
AreCodes crc dec z (c ∷ cs) (b ∷ bs) = IsCode crc dec z c b × AreCodes crc dec z cs bs

-- The file below reads what it holds, `bytes`, with the codes from `begin` on, where the jump table
-- has them.
pub record Stored {F : Type 0} (crc32c_salt : List ℕ → ℕ)
    (decompress : List ℕ → ℕ → Option (List ℕ)) (file_pread : F → ℕ → ℕ → Option (List ℕ))
    (z : CompressionFile) (file : F) (codes blocks : List (List ℕ)) : Type 0 where
  pub bytes : List ℕ
  pub begin : ℕ
  pub rest : List ℕ
  pub reads : (n p : ℕ) → p + n ≤ length bytes → file_pread file n p ≡ some (take n (drop p bytes))
  pub held : drop begin bytes ≡ concat codes ++ rest
  pub before : begin ≤ length bytes
  pub low : length bytes < 2 ^ 64
  pub table : IsTable z.jump_table begin (lengths codes)
  pub coded : AreCodes crc32c_salt decompress z codes blocks

-- Block `i`, with what is stored for it, and those behind it.
pub record Slot (crc : List ℕ → ℕ) (dec : List ℕ → ℕ → Option (List ℕ)) (z : CompressionFile)
    (codes blocks : List (List ℕ)) (i : ℕ) : Type 0 where
  pub code : List ℕ
  pub codes_after : List (List ℕ)
  pub raw : List ℕ
  pub blocks_after : List (List ℕ)
  pub from_code : drop i codes ≡ code ∷ codes_after
  pub from_raw : drop i blocks ≡ raw ∷ blocks_after
  pub is_code : IsCode crc dec z code raw

module _ (crc : List ℕ → ℕ) (dec : List ℕ → ℕ → Option (List ℕ)) (z : CompressionFile) where
  pub slot :
      (i : ℕ) (codes blocks : List (List ℕ))
      → AreCodes crc dec z codes blocks
      → i < length blocks
      → Slot crc dec z codes blocks i
  slot i [] [] h in_range = absurd (omega arith)
  slot i [] (b ∷ bs) h in_range = absurd h
  slot i (c ∷ cs) [] h in_range = absurd h
  slot zero (c ∷ cs) (b ∷ bs) h in_range = record {
    code = c;
    codes_after = cs;
    raw = b;
    blocks_after = bs;
    from_code = refl;
    from_raw = refl;
    is_code = h.0;
  }
  slot (suc i) (c ∷ cs) (b ∷ bs) h in_range =
      let s = slot i cs bs h.1 (omega arith) in
      record {
        code = s.code;
        codes_after = s.codes_after;
        raw = s.raw;
        blocks_after = s.blocks_after;
        from_code = s.from_code;
        from_raw = s.from_raw;
        is_code = s.is_code;
      }

  length-codes :
      (codes blocks : List (List ℕ))
      → AreCodes crc dec z codes blocks
      → length codes ≡ length blocks
  length-codes [] [] h = refl
  length-codes [] (b ∷ bs) h = absurd h
  length-codes (c ∷ cs) [] h = absurd h
  length-codes (c ∷ cs) (b ∷ bs) h = ap suc (length-codes cs bs h.1)

module _ {F : Type 0} (crc : List ℕ → ℕ) (dec : List ℕ → ℕ → Option (List ℕ))
    (file_pread : F → ℕ → ℕ → Option (List ℕ)) (z : CompressionFile) (file : F)
    (codes blocks : List (List ℕ)) (h : Stored crc dec file_pread z file codes blocks) where
  -- Where block `i` is stored.
  abbrev pub pos : ℕ → ℕ
  pos i = h.begin + sum (take i (lengths codes))

  pub pos_le : (i j : ℕ) → i ≤ j → pos i ≤ pos j
  pos_le i j le = omega (arith, sum-take_le i j (lengths codes) le)

  pub pos_bound : (i : ℕ) → pos i ≤ length h.bytes
  pos_bound i = omega (
    arith,
    h.before,
    sum-take_all i (lengths codes),
    length-concat codes,
    ap length h.held,
    length-drop h.begin h.bytes,
    length-append (concat codes) h.rest,
  )

  pub at_index-pos : (i : ℕ) → i ≤ length blocks → at_index z.jump_table i ≡ some (pos i)
  at_index-pos i le =
      h.table.places i
        (omega (arith, length-lengths codes, length-codes crc dec z codes blocks h.coded))

  pub get_blocks_length-pos :
      (i j : ℕ) → i ≤ j → j ≤ length blocks → get_blocks_length z i j ≡ some (pos j - pos i)
  unfolding get_blocks_length
  get_blocks_length-pos i j le in_range =
      rw (at_index-pos i (omega arith), at_index-pos j in_range)
        (ap some (size_sub-lem (pos j) (pos i) (pos_le i j le) (omega (arith, pos_bound j, h.low))))

  -- Block `i` stands at its place.
  pub drop-pos :
      (i : ℕ) (s : Slot crc dec z codes blocks i)
      → drop (pos i) h.bytes ≡ s.code ++ (concat s.codes_after ++ h.rest)
  drop-pos i s =
      sym (drop-drop (sum (take i (lengths codes))) h.begin h.bytes)
      ∙ ap (drop (sum (take i (lengths codes)))) h.held
      ∙ drop-concat i codes h.rest
      ∙ ap (λ l. concat l ++ h.rest) s.from_code
      ∙ append_assoc s.code (concat s.codes_after) h.rest

  pub pos-suc : (i : ℕ) (s : Slot crc dec z codes blocks i) → pos (suc i) ≡ pos i + length s.code
  pos-suc i s = omega (
    arith,
    sum-take-suc i (lengths codes) (lengths s.codes_after) (length s.code)
        (drop-lengths i codes ∙ ap lengths s.from_code),
  )
