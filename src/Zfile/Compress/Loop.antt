-- ===== src/Zfile/Compress/Loop.antt =====
-- The loop of `zfile_compress` of src/overlaybd/zfile/zfile.cpp, over the buffers of the original file.
use mathlib.Core.Path.{subst}
use mathlib.Core.List.{append_assoc, append-nil}
use native.Mathlib.Nat.{mul-le-mul_left}
use dadi_fast_cdc.Prelude.{
  ℕ, zero, suc, ◌+◌, ◌*◌, ◌%◌, ◌^◌, ◌≤◌, ◌<◌, ◌≡◌, refl, sym, ap, ◌∙◌, inl, inr, Option, some, Bool,
  true,
}
use dadi_fast_cdc.Prelude.{
  List, [], ◌∷◌, ◌++◌, if◌then◌else◌, ◌==◌, ==_iff, Bool-cases, arith, length, length-append,
}
use dadi_fast_cdc.FastCdc.Globals.{Globals}
use dadi_fast_cdc.FastCdc.Fingerprint.{IsBytes}
use dadi_fast_cdc.Zfile.Chunker.{Chunker}
use dadi_fast_cdc.Zfile.ChunkLoop.{Batch, chunk_buffer, fixed_chunks}
use dadi_fast_cdc.Zfile.ChunkLoop.Tiling.{chunk_buffer-Tile}
use dadi_fast_cdc.Zfile.Builder.Session.{no_length}
use dadi_fast_cdc.Zfile.Compress.{
  Options, Compression, append_batches, fixed_batches, cut_buffer, batches_of, buffer_read,
  compress_loop,
}
use dadi_fast_cdc.Zfile.Compress.Batches.{append_batches-Kept}
use dadi_fast_cdc.Zfile.Compress.Blocks.{Services, Kept, compress_batch}

-- A file that is read on: each read gives the next bytes, one at least where there are any left.
pub record Source {S : Type 0} (read_from : S → ℕ → S × Option (List ℕ)) (left : S → List ℕ)
    : Type 0 where
  pub piece : S → ℕ → List ℕ
  pub reads : (s : S) (n : ℕ) → (read_from s n).1 ≡ some (piece s n)
  pub some_bytes : (s : S) (n : ℕ) → 0 < n → 0 < length (left s) → 0 < length (piece s n)
  pub onward : (s : S) (n : ℕ) → left s ≡ piece s n ++ left ((read_from s n).0)

IsBytes-append_left : (xs ys : List ℕ) → IsBytes (xs ++ ys) → IsBytes xs
IsBytes-append_left [] ys h j below = absurd (omega arith)
IsBytes-append_left (x ∷ xs) ys h zero below = h 0 (omega arith)
IsBytes-append_left (x ∷ xs) ys h (suc j) below =
    IsBytes-append_left xs ys (λ i b. h (suc i) (omega arith)) j (omega arith)

IsBytes-append_right : (xs ys : List ℕ) → IsBytes (xs ++ ys) → IsBytes ys
IsBytes-append_right [] ys h = h
IsBytes-append_right (x ∷ xs) ys h = IsBytes-append_right xs ys (λ i b. h (suc i) (omega arith))

module _ {D : Type 0} (o : Options) (nbatch : ℕ) (w : Services D o.block_size nbatch)
    (front : List ℕ) where
  abbrev Holds : Compression D → List ℕ → ℕ → Type 0
  Holds s whole total = Kept o nbatch w o.block_size front s whole total

  abbrev batch_of : List ℕ → List ℕ → ℕ → Option (List (List ℕ))
  batch_of = compress_batch o nbatch w o.block_size front

  module _ {S : Type 0} (read_from : S → ℕ → S × Option (List ℕ)) (left : S → List ℕ)
      (source : Source read_from left) (c : Chunker) (fast : o.is_fastcdc ≡ true)
      (low : 0 < c.m_min_size) (ordered : c.m_min_size ≤ c.m_max_size)
      (same_size : c.m_max_size ≡ o.block_size) where
    buffer_read-some :
        (s : Compression D) (xs : List ℕ) (rest : List ℕ → Option (Compression D × Bool))
        → 0 < length xs
        → buffer_read w.crc32c_salt batch_of w.write_to read_from nbatch o c s (some xs) rest
          ≡ rest xs
    buffer_read-some s [] rest h = absurd (omega arith)
    buffer_read-some s (x ∷ xs) rest h = refl

    cut_buffer-lem :
        (g : Globals) (xs : List ℕ)
        → cut_buffer nbatch o c g xs ≡ chunk_buffer c nbatch g xs (length xs)
    unfolding cut_buffer
    cut_buffer-lem g xs =
        ap
          (λ b.
            if b
            then chunk_buffer c nbatch g xs (length xs)
            else some (fixed_batches (fixed_chunks (suc (length xs)) o.block_size (length xs)), g))
          fast

    -- A buffer whose batches are written.
    buffer-rest :
        (s s1 : Compression D) (xs : List ℕ) (bs : List Batch) (g : Globals)
        (rest : Compression D → Option (Compression D × Bool))
        → 0 < length xs
        → cut_buffer nbatch o c s.shared.globals xs ≡ some (bs, g)
        → append_batches w.crc32c_salt batch_of w.write_to o xs
            (record s {
              infile_size = s.infile_size + length xs;
              shared = record s.shared { globals = g };
            })
            bs
          ≡ (s1, true)
        → buffer_read w.crc32c_salt batch_of w.write_to read_from nbatch o c s
            (some xs)
            (λ raw_data.
              batches_of w.crc32c_salt batch_of w.write_to read_from nbatch o c raw_data s
                (cut_buffer nbatch o c s.shared.globals raw_data)
                rest)
          ≡ rest s1
    buffer-rest s s1 xs bs g rest busy cut written =
        buffer_read-some s xs _ busy ∙ rw cut (rw written refl)

    some_read : 0 < o.block_size * nbatch % 2 ^ 32
    some_read = omega (
      arith,
      w.low,
      w.some_batch,
      low,
      ordered,
      same_size,
      mul-le-mul_left o.block_size w.some_batch,
    )

    -- The state when a buffer was read and cut.
    cut-Holds :
        (s : Compression D) (whole : List ℕ) (total n : ℕ) (g : Globals)
        → Holds s whole total
        → g.max_size ≡ o.block_size
        → Holds
            (record s { infile_size = s.infile_size + n; shared = record s.shared { globals = g } })
            whole
            (total + n)
    cut-Holds s whole total n g k same = record {
      codes = k.codes;
      blocks = k.blocks;
      stored = k.stored;
      coded = k.coded;
      lens = k.lens;
      raw_lens = k.raw_lens;
      offset = k.offset;
      short = k.short;
      all = k.all;
      infile = ap (λ (i : ℕ). i + n) k.infile;
      max_size = same;
    }

    pub compress_loop-Kept :
        (fuel : ℕ) (src : S) (s : Compression D) (whole : List ℕ) (total : ℕ)
        → Holds s whole total
        → IsBytes (left src)
        → length (left src) < fuel
        → (s1 : Compression D) × (compress_loop w.crc32c_salt batch_of w.write_to read_from nbatch o
              c fuel src s
            ≡ some (s1, true))
          × Holds s1 (whole ++ left src) (total + length (left src))
    unfolding compress_loop
    compress_loop-Kept zero src s whole total k bytes enough = absurd (omega arith)
    compress_loop-Kept (suc fuel) src s whole total k bytes enough =
        let want : ℕ = o.block_size * nbatch % 2 ^ 32 in
        let xs = source.piece src want in
        let src1 = (read_from src want).0 in
        let onward = source.onward src want in
        let size = ap length onward ∙ length-append xs (left src1) in
        elim (Bool-cases (length (left src) == 0)) [
          | inl t ↦
              let empty = no_length (left src) ((==_iff (length (left src)) 0).0 t) in
              let nothing = no_length xs (ground arith) in
              rw (source.reads src want, nothing)
                (
                  s,
                  refl,
                  subst (λ l. Holds s (whole ++ l) (total + length l)) (sym empty)
                      (subst (λ l. Holds s l (total + 0)) (sym (append-nil whole))
                        (subst (λ i. Holds s whole i) (omega arith) k)),
                )
          | inr t ↦
              let busy = source.some_bytes src want some_read (ground arith) in
              let mine = IsBytes-append_left xs (left src1) (subst IsBytes onward bytes) in
              let cut =
                chunk_buffer-Tile c nbatch s.shared.globals xs (length xs) mine (omega arith) low
                  ordered (k.max_size ∙ sym same_size) w.some_batch in
              let s1 = record s {
                infile_size = s.infile_size + length xs;
                shared = record s.shared { globals = cut.1 };
              } in
              let r =
                append_batches-Kept o nbatch w front xs (cut.0) 0 s1 whole (total + length xs)
                  (cut-Holds s whole total (length xs) (cut.1) k (cut.5 ∙ same_size)) cut.3
                  (rw same_size at cut.4) in
              let more =
                compress_loop-Kept fuel src1 (r.0) (whole ++ xs) (total + length xs) r.2
                  (IsBytes-append_right xs (left src1) (subst IsBytes onward bytes))
                  (omega arith) in
              rw (source.reads src want) (
                more.0,
                buffer-rest s (r.0) xs (cut.0) (cut.1) _ busy
                      (cut_buffer-lem s.shared.globals xs ∙ cut.2) r.1
                    ∙ more.1,
                subst (λ i. Holds (more.0) (whole ++ left src) i) (omega arith)
                    (subst (λ l. Holds (more.0) l ((total + length xs) + length (left src1)))
                      (append_assoc whole xs (left src1) ∙ ap (λ l. whole ++ l) (sym onward))
                      more.2),
              )
        ]
