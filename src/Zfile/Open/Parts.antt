-- ===== src/Zfile/Open/Parts.antt =====
-- The reads of `load_jump_table` of src/overlaybd/zfile/zfile.cpp, from a file that reads what it
-- holds.
use dadi_fast_cdc.Prelude.{
  ℕ, zero, suc, ◌+◌, ◌-◌, ◌*◌, ◌^◌, ◌≤◌, ◌<◌, min, ◌≡◌, refl, sym, ap, ◌∙◌, inl, inr, Option, some,
  true, false,
}
use dadi_fast_cdc.Prelude.{
  List, [], ◌∷◌, ◌++◌, ltb, ◌==◌, ==_iff, Bool-cases, arith, length, length-append, length-drop,
  length-take, take, drop, drop-drop, take-all, take-min, take-append_left, drop-append_left,
  drop-append_right, All,
}
use dadi_fast_cdc.Zfile.Builder.{index_bytes, space}
use dadi_fast_cdc.Zfile.Builder.Session.{take-drop, no_length}
use dadi_fast_cdc.Zfile.Builder.Written.{little_endian-bytes_of}
use dadi_fast_cdc.Zfile.Open.{Disk, words, chunk_bytes, read_header, read_chunk, read_index}

-- Numbers of 32 bits come back from their bytes.
pub words-index_bytes : (ns : List ℕ) → All (λ n. n < 2 ^ 32) ns → words (index_bytes ns) ≡ ns
words-index_bytes [] h = refl
words-index_bytes (n ∷ ns) h =
    ap (λ k. k ∷ words (index_bytes ns)) (little_endian-bytes_of n h.0)
    ∙ ap (λ l. n ∷ l) (words-index_bytes ns h.1)

pub length-index_bytes : (ns : List ℕ) → length (index_bytes ns) ≡ length ns * 4
length-index_bytes [] = refl
length-index_bytes (n ∷ ns) = omega (arith, length-index_bytes ns)

-- A file that holds `bytes` and reads what it holds.
pub record ReadsBack {F : Type 0} (file_pread : F → ℕ → ℕ → Option (List ℕ))
    (file_size : F → Option ℕ) (file : F) (bytes : List ℕ) : Type 0 where
  pub reads : (n p : ℕ) → p + n ≤ length bytes → file_pread file n p ≡ some (take n (drop p bytes))
  pub size : file_size file ≡ some (length bytes)

-- Within `before ++ (part ++ behind)`.
slice :
    (before part behind : List ℕ) (n p : ℕ)
    → p + n ≤ length part
    → take n (drop (length before + p) (before ++ (part ++ behind))) ≡ take n (drop p part)
slice before part behind n p inside =
    let after : length before + p - length before ≡ p = omega arith in
    ap (take n) (
      drop-append_right (length before + p) before (part ++ behind) (omega arith)
      ∙ ap (λ (k : ℕ). drop k (part ++ behind)) after
      ∙ drop-append_left p part behind (omega arith))
    ∙ take-append_left n (drop p part) behind (omega (arith, length-drop p part))

module _ {F : Type 0} (disk : Disk F) (file : F) (before part behind : List ℕ)
    (back : ReadsBack disk.file_pread disk.file_size file (before ++ (part ++ behind))) where
  part_read :
      (n p : ℕ)
      → p + n ≤ length part
      → disk.file_pread file n (length before + p) ≡ some (take n (drop p part))
  part_read n p inside =
      back.reads n (length before + p)
        (omega (arith, length-append before (part ++ behind), length-append part behind))
      ∙ ap some (slice before part behind n p inside)

  all_read : disk.file_pread file (length part) (length before) ≡ some part
  all_read =
      let start : length before ≡ length before + 0 = omega arith in
      ap (disk.file_pread file (length part)) start
      ∙ part_read (length part) 0 (omega arith)
      ∙ ap some (take-all (length part) part (omega arith))

  pub read_header-part : length part ≡ space → read_header disk file (length before) ≡ some part
  unfolding read_header
  read_header-part size =
      let whole : ltb (length part) space ≡ false = ground (arith, size) in
      let read : disk.file_pread file space (length before) ≡ some part =
        ap (λ (n : ℕ). disk.file_pread file n (length before)) (sym size) ∙ all_read in
      rw (read, whole) refl

  pub read_chunk-part :
      (n p : ℕ)
      → p + n ≤ length part
      → read_chunk disk file (length before + p) n ≡ some (take n (drop p part))
  unfolding read_chunk
  read_chunk-part n p inside =
      let whole : (length (take n (drop p part)) == n) ≡ true =
        (==_iff (length (take n (drop p part))) n).1
          (length-take n (drop p part) (omega (arith, length-drop p part))) in
      rw (part_read n p inside, whole) refl

  -- The index, from `offset` on, with fuel for one round more than there are bytes.
  pub read_index-part :
      (fuel offset : ℕ)
      → length part - offset < fuel
      → read_index disk fuel file (length before) (length part) offset ≡ some (drop offset part)
  unfolding read_index
  read_index-part zero offset enough = absurd (omega arith)
  read_index-part (suc fuel) offset enough = elim (Bool-cases (ltb offset (length part))) [
    | inr t ↦
        rw t
          (ap some (sym (no_length (drop offset part) (ground (arith, length-drop offset part)))))
    | inl t ↦
        let n : ℕ = min (length part - offset) chunk_bytes in
        let left = drop offset part in
        let inside : offset < length part = ground arith in
        let same : n ≡ min chunk_bytes (length part - offset) = omega arith in
        let taken : take n left ≡ take chunk_bytes left =
          ap (λ (k : ℕ). take k left) same
          ∙ take-min chunk_bytes (length part - offset) left (sym (length-drop offset part)) in
        rw
          (
            t,
            read_chunk-part n offset (omega arith),
            read_index-part fuel (offset + chunk_bytes) (omega arith),
          )
          (ap some (
            ap (λ l. l ++ drop (offset + chunk_bytes) part) taken
            ∙ ap (λ l. take chunk_bytes left ++ l) (sym (drop-drop chunk_bytes offset part))
            ∙ take-drop chunk_bytes left))
  ]
