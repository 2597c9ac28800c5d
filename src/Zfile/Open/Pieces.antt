-- ===== src/Zfile/Open/Pieces.antt =====
-- The bytes of the index as `load_jump_table` of src/overlaybd/zfile/zfile.cpp reads them in parts.
use dadi_fast_cdc.Prelude.{
  ℕ, zero, suc, ◌+◌, ◌-◌, ◌*◌, ◌≤◌, ◌<◌, ◌≡◌, ◌≢◌, ◌⊎◌, refl, sym, ap, ◌∙◌, inl, inr, min, some,
  true,
}
use dadi_fast_cdc.Prelude.{
  List, [], ◌∷◌, ◌++◌, ltb, arith, length, take, drop, take-all, take-append_left,
  drop-append_right,
}
use dadi_fast_cdc.Zfile.Open.{Disk, chunk_bytes, read_chunk, read_index}
use dadi_fast_cdc.Zfile.Open.Inversion.{
  bind-some, some-inj, read_chunk-some, read_chunk-length, read_index-length,
}

append-nil : (xs ys : List ℕ) → length ys ≡ 0 → xs ++ ys ≡ xs
append-nil [] [] e = refl
append-nil [] (y ∷ ys) e = absurd (omega arith)
append-nil (x ∷ xs) ys e = ap (λ l. x ∷ l) (append-nil xs ys e)

-- The first part of what is put together.
take-first :
    (n : ℕ) (xs ys : List ℕ)
    → (length xs ≡ n) ⊎ ((length ys ≡ 0) × (length xs ≤ n))
    → take n (xs ++ ys) ≡ xs
take-first n xs ys (inl e) =
    take-append_left n xs ys (omega (arith, e)) ∙ take-all n xs (omega (arith, e))
take-first n xs ys (inr (no_more, fits)) =
    ap (take n) (append-nil xs ys no_more) ∙ take-all n xs fits

module _ {F : Type 0} (disk : Disk F) where
  read_index-fuel :
      (file : F) (index_offset index_bytes offset : ℕ) (xs : List ℕ)
      → read_index disk zero file index_offset index_bytes offset ≢ some xs
  unfolding read_index
  read_index-fuel file index_offset index_bytes offset xs h = cc

  -- One round of the loop.
  read_index-step :
      (fuel : ℕ) (file : F) (index_offset index_bytes offset : ℕ) (xs : List ℕ)
      → read_index disk (suc fuel) file index_offset index_bytes offset ≡ some xs
      → offset < index_bytes
      → (buf : List ℕ) × (more : List ℕ) × (read_chunk disk file
            (index_offset + offset)
            (min (index_bytes - offset) chunk_bytes)
          ≡ some buf)
        × (read_index disk fuel file index_offset index_bytes (offset + chunk_bytes) ≡ some more)
        × (buf ++ more ≡ xs)
  unfolding read_index
  read_index-step fuel file index_offset index_bytes offset xs h within =
      let t : ltb offset index_bytes ≡ true = ground arith in
      let a = bind-some _ _ (rw t at h) in
      let b = bind-some _ _ a.2 in (a.0, b.0, a.1, b.1, some-inj (a.0 ++ b.0) xs b.2)

  moved :
      (file : F) (n n1 p p1 : ℕ) (ys ys1 : List ℕ)
      → n ≡ n1
      → p ≡ p1
      → ys ≡ ys1
      → disk.file_pread file n p ≡ some ys
      → disk.file_pread file n1 p1 ≡ some ys1
  moved file n n1 p p1 ys ys1 e f g h = cc

  -- Part `k` from `offset` on is what the file below has at its place.
  read_index-part_from :
      (k fuel : ℕ) (file : F) (index_offset index_bytes offset : ℕ) (xs : List ℕ)
      → read_index disk fuel file index_offset index_bytes offset ≡ some xs
      → offset + k * chunk_bytes < index_bytes
      → disk.file_pread file
          (min (index_bytes - (offset + k * chunk_bytes)) chunk_bytes)
          (index_offset + (offset + k * chunk_bytes))
        ≡ some (take chunk_bytes (drop (k * chunk_bytes) xs))
  read_index-part_from k zero file index_offset index_bytes offset xs h within =
      absurd (read_index-fuel file index_offset index_bytes offset xs h)
  read_index-part_from zero (suc fuel) file index_offset index_bytes offset xs h within =
      let (buf, more, got, later, whole) =
        read_index-step fuel file index_offset index_bytes offset xs h (omega arith) in
      let n : ℕ = min (index_bytes - offset) chunk_bytes in
      let size = read_chunk-length disk file (index_offset + offset) n buf got in
      let rest =
        read_index-length disk fuel file index_offset index_bytes (offset + chunk_bytes) more
          later in
      moved file n (min (index_bytes - (offset + 0 * chunk_bytes)) chunk_bytes)
        (index_offset + offset) (index_offset + (offset + 0 * chunk_bytes)) buf
        (take chunk_bytes xs) (omega arith) (omega arith)
        (sym (take-first chunk_bytes buf more (parts buf more size rest))
          ∙ ap (take chunk_bytes) whole)
        (read_chunk-some disk file (index_offset + offset) n buf got)
    where
      parts :
          (buf more : List ℕ)
          → length buf ≡ min (index_bytes - offset) chunk_bytes
          → length more ≡ index_bytes - (offset + chunk_bytes)
          → (length buf ≡ chunk_bytes) ⊎ ((length more ≡ 0) × (length buf ≤ chunk_bytes))
      parts buf more e f = omega arith
  read_index-part_from (suc k) (suc fuel) file index_offset index_bytes offset xs h within =
      let (buf, more, got, later, whole) =
        read_index-step fuel file index_offset index_bytes offset xs h (omega arith) in
      let n : ℕ = min (index_bytes - offset) chunk_bytes in
      let size = read_chunk-length disk file (index_offset + offset) n buf got in
      let full : length buf ≡ chunk_bytes = omega (arith, size) in
      let at : ℕ = offset + chunk_bytes + k * chunk_bytes in
      let at1 : ℕ = offset + suc k * chunk_bytes in
      let same : at ≡ at1 = omega arith in
      let behind : suc k * chunk_bytes - length buf ≡ k * chunk_bytes = omega (arith, full) in
      let kept : drop (k * chunk_bytes) more ≡ drop (suc k * chunk_bytes) xs =
        ap (λ (i : ℕ). drop i more) (sym behind)
        ∙ sym (drop-append_right (suc k * chunk_bytes) buf more (omega (arith, full)))
        ∙ ap (drop (suc k * chunk_bytes)) whole in
      moved file (min (index_bytes - at) chunk_bytes) (min (index_bytes - at1) chunk_bytes)
        (index_offset + at) (index_offset + at1) (take chunk_bytes (drop (k * chunk_bytes) more))
        (take chunk_bytes (drop (suc k * chunk_bytes) xs))
        (ap (λ (i : ℕ). min (index_bytes - i) chunk_bytes) same)
        (ap (λ (i : ℕ). index_offset + i) same) (ap (take chunk_bytes) kept)
        (read_index-part_from k fuel file index_offset index_bytes (offset + chunk_bytes) more later
          (omega (arith, same)))

  -- Part `k` of the index.
  pub read_index-part :
      (k fuel : ℕ) (file : F) (index_offset index_bytes : ℕ) (xs : List ℕ)
      → read_index disk fuel file index_offset index_bytes 0 ≡ some xs
      → k * chunk_bytes < index_bytes
      → disk.file_pread file
          (min (index_bytes - k * chunk_bytes) chunk_bytes)
          (index_offset + k * chunk_bytes)
        ≡ some (take chunk_bytes (drop (k * chunk_bytes) xs))
  read_index-part k fuel file index_offset index_bytes xs h within =
      let same : 0 + k * chunk_bytes ≡ k * chunk_bytes = omega arith in
      let part : List ℕ = take chunk_bytes (drop (k * chunk_bytes) xs) in
      moved file (min (index_bytes - (0 + k * chunk_bytes)) chunk_bytes)
        (min (index_bytes - k * chunk_bytes) chunk_bytes) (index_offset + (0 + k * chunk_bytes))
        (index_offset + k * chunk_bytes) part part
        (ap (λ (i : ℕ). min (index_bytes - i) chunk_bytes) same)
        (ap (λ (i : ℕ). index_offset + i) same) refl
        (read_index-part_from k fuel file index_offset index_bytes 0 xs h (omega arith))
