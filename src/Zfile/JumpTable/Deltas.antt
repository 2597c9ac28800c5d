-- ===== src/Zfile/JumpTable/Deltas.antt =====
-- The 16-bit deltas of `JumpTable` of src/overlaybd/zfile/zfile.cpp.
use dadi_fast_cdc.Prelude.{ℕ, suc, ◌+◌, ◌/◌, ◌%◌, ◌^◌, ◌<◌, inl, inr, Bool}
use dadi_fast_cdc.Prelude.{List, [], ◌∷◌, leb, ◌==◌, ◌||◌, Bool-cases, arith, All, All-append}
use dadi_fast_cdc.Zfile.JumpTable.{
  JumpTable, Build, built, eio, erange, division_by_zero, crc_size, uinttype_max, push_group,
  push_delta, delta_after, build_from, empty_table, build,
}

-- Every table that comes of it has deltas of 16 bits.
abbrev pub Fits : Build → Type 0
Fits (built t) = All (λ d. d < 2 ^ 16) t.deltas
Fits eio = Unit
Fits erange = Unit
Fits division_by_zero = Unit

build_from-Fits :
    (enable_crc : Bool) (ibuf : List ℕ) (i raw_offset : ℕ) (t : JumpTable)
    → All (λ d. d < 2 ^ 16) t.deltas
    → Fits (build_from enable_crc ibuf i raw_offset t)
unfolding build_from
build_from-Fits enable_crc [] i raw_offset t h = h
build_from-Fits enable_crc (len ∷ ibuf) i raw_offset t h =
    let offset : ℕ = raw_offset + len in
    let delta : ℕ = delta_after t i len in
    let add =
      λ (d : ℕ) (low : d < 2 ^ 16). All-append (λ e. e < 2 ^ 16) t.deltas (d ∷ []) h (low, tt) in
    elim (Bool-cases (leb len (crc_size enable_crc))) [
      | inl a ↦ rw a tt
      | inr a ↦ elim (Bool-cases (i % t.group_size == 0)) [
        | inl b ↦
            rw (a, b)
              (build_from-Fits enable_crc ibuf (suc i) offset (push_group t offset)
                (add 0 (omega arith)))
        | inr b ↦ elim (Bool-cases (leb uinttype_max delta)) [
          | inl c ↦ rw (a, b, c) tt
          | inr c ↦
              rw (a, b, c)
                (build_from-Fits enable_crc ibuf (suc i) offset (push_delta t i len)
                  (add delta (ground arith)))
        ]
      ]
    ]

-- For all block lengths and block sizes, each delta of a table that `build` makes fits the 16 bits of
-- `uinttype`, so that no sum is cut off when it is stored.
pub build-Fits :
    (ibuf : List ℕ) (offset_begin block_size : ℕ) (enable_crc : Bool)
    → Fits (build ibuf offset_begin block_size enable_crc)
unfolding build
build-Fits ibuf offset_begin block_size enable_crc =
    let g : ℕ = 65536 / block_size in
    elim (Bool-cases (block_size == 0 || g == 0)) [
      | inl t ↦ rw t tt
      | inr t ↦ rw t (
          build_from-Fits enable_crc ibuf 1 offset_begin (empty_table g offset_begin)
            (omega arith, tt))
    ]
