-- ===== src/Zfile/Open/Inversion.antt =====
-- Steps of `load_jump_table` and `zfile_open_ro` of src/overlaybd/zfile/zfile.cpp that have succeeded.
use dadi_fast_cdc.Prelude.{
  ℕ, zero, suc, ◌+◌, ◌-◌, ◌*◌, ◌≡◌, refl, sym, ap, ◌∙◌, inl, inr, min, Option, none, some, Bool,
  true, false,
}
use dadi_fast_cdc.Prelude.{
  List, [], ◌∷◌, ◌++◌, ltb, ◌==◌, ◌&&◌, not, ==_iff, Bool-cases, if◌then◌else◌, arith, length,
  length-append,
}
use dadi_fast_cdc.Zfile.JumpTable.{JumpTable, Build, built, eio, erange, division_by_zero}
use dadi_fast_cdc.Zfile.Builder.{HeaderTrailer}
use dadi_fast_cdc.Zfile.Compress.{Options}
use dadi_fast_cdc.Zfile.Open.{
  Disk, ◌>>=◌, ◌>>◌, guard, words, chunk_bytes, table_of, read_chunk, read_index, load_sizes,
}

-- Inversion of a bind and of a guard.
pub bind-some {ℓ κ} :
    {A : Type ℓ} {B : Type κ} (m : Option A) (f : A → Option B) {b : B}
    → (m >>= f) ≡ some b
    → (a : A) × (m ≡ some a) × (f a ≡ some b)
bind-some none f h = cc
bind-some (some a) f h = (a, refl, h)

pub guard-some {κ} :
    {B : Type κ} (t : Bool) (m : Option B) {b : B}
    → (guard t >> m) ≡ some b
    → (t ≡ true) × (m ≡ some b)
guard-some true m h = (refl, h)
guard-some false m h = cc

pub table_of-some : (b : Build) {t : JumpTable} → table_of b ≡ some t → b ≡ built t
table_of-some (built t) h = cc
table_of-some eio h = cc
table_of-some erange h = cc
table_of-some division_by_zero h = cc

pub some-inj : {A : Type 0} (a b : A) → some a ≡ some b → a ≡ b
some-inj a b h = cc

pub both : (a b : Bool) → (a && b) ≡ true → (a ≡ true) × (b ≡ true)
both true b h = (refl, h)
both false b h = cc

pub if_true : {A : Type 0} (t : Bool) (x y : A) → t ≡ true → (if t then x else y) ≡ x
if_true true x y h = refl
if_true false x y h = cc

pub if_false : {A : Type 0} (t : Bool) (x y : A) → t ≡ false → (if t then x else y) ≡ y
if_false true x y h = cc
if_false false x y h = refl

pub four :
    (a b c d : Bool)
    → (a && not b && c && d) ≡ true
    → (a ≡ true) × (b ≡ false) × (c ≡ true) × (d ≡ true)
four true false true true h = (refl, refl, refl, refl)
four a true c d h = ground arith
four false b c d h = ground arith
four a b false d h = ground arith
four a b c false h = ground arith

module _ {F : Type 0} (disk : Disk F) where
  -- What `read_chunk` gives is what the file below has there.
  pub read_chunk-some :
      (file : F) (offset size : ℕ) (buf : List ℕ)
      → read_chunk disk file offset size ≡ some buf
      → disk.file_pread file size offset ≡ some buf
  unfolding read_chunk
  read_chunk-some file offset size buf h =
      let a = bind-some (disk.file_pread file size offset) _ h in
      let g = guard-some (length (a.0) == size) (some (a.0)) a.2 in a.1 ∙ g.1

  pub read_chunk-length :
      (file : F) (offset size : ℕ) (buf : List ℕ)
      → read_chunk disk file offset size ≡ some buf
      → length buf ≡ size
  unfolding read_chunk
  read_chunk-length file offset size buf h =
      let a = bind-some (disk.file_pread file size offset) _ h in
      let g = guard-some (length (a.0) == size) (some (a.0)) a.2 in
      ap length (sym (some-inj (a.0) buf g.1)) ∙ (==_iff (length (a.0)) size).0 g.0

  -- The index is there to the last byte.
  pub read_index-length :
      (fuel : ℕ) (file : F) (index_offset index_bytes offset : ℕ) (xs : List ℕ)
      → read_index disk fuel file index_offset index_bytes offset ≡ some xs
      → length xs ≡ index_bytes - offset
  unfolding read_index
  read_index-length zero file index_offset index_bytes offset xs h = cc
  read_index-length (suc fuel) file index_offset index_bytes offset xs h =
      elim (Bool-cases (ltb offset index_bytes)) [
        | inr t ↦
            let none_left : some [] ≡ some xs = rw t at h in
            ground (arith, ap length (some-inj [] xs none_left))
        | inl t ↦
            let n : ℕ = min (index_bytes - offset) chunk_bytes in
            let a = bind-some _ _ (rw t at h) in
            let b = bind-some _ _ a.2 in
            let size = read_chunk-length file (index_offset + offset) n (a.0) a.1 in
            let rest =
              read_index-length fuel file index_offset index_bytes (offset + chunk_bytes) (b.0)
                b.1 in
            ap length (sym (some-inj (a.0 ++ b.0) xs b.2))
            ∙ length-append (a.0) (b.0)
            ∙ ground (arith, size, rest)
      ]

  words-length : (n : ℕ) (buf : List ℕ) → length buf ≡ n * 4 → length (words buf) ≡ n
  words-length zero [] h = refl
  words-length zero (a ∷ buf) h = absurd (omega arith)
  words-length (suc n) [] h = absurd (omega arith)
  words-length (suc n) (a ∷ []) h = absurd (omega arith)
  words-length (suc n) (a ∷ (b ∷ [])) h = absurd (omega arith)
  words-length (suc n) (a ∷ (b ∷ (c ∷ []))) h = absurd (omega arith)
  words-length (suc n) (a ∷ (b ∷ (c ∷ (d ∷ buf)))) h = ap suc (words-length n buf (omega arith))

  -- The sizes of the blocks, where a file has them.
  pub load_sizes-some :
      (file : F) (o : Options) (ht : HeaderTrailer) (sizes : List ℕ)
      → load_sizes disk file o ht ≡ some sizes
      → o.is_fastcdc ≡ true
      → (buf : List ℕ) × (disk.file_pread file
            (ht.index_size * 4)
            (ht.index_offset + ht.index_size * 4)
          ≡ some buf)
        × (length buf ≡ ht.index_size * 4)
        × (sizes ≡ words buf)
        × (length sizes ≡ ht.index_size)
  unfolding load_sizes
  load_sizes-some file o ht sizes h fast =
      let place = ht.index_offset + ht.index_size * 4 in
      let m = read_chunk disk file place (ht.index_size * 4) in
      let a =
        bind-some m (λ buf. some (words buf))
          (sym (if_true o.is_fastcdc (m >>= λ buf. some (words buf)) (some []) fast) ∙ h) in
      let size = read_chunk-length file place (ht.index_size * 4) (a.0) a.1 in
      let same = some-inj (words (a.0)) sizes a.2 in
      (
        a.0,
        read_chunk-some file place (ht.index_size * 4) (a.0) a.1,
        size,
        sym same,
        ap length (sym same) ∙ words-length ht.index_size (a.0) size,
      )
