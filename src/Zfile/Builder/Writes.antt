-- ===== src/Zfile/Builder/Writes.antt =====
-- `write` of `ZFileBuilder` of src/overlaybd/zfile/zfile.cpp, once and again.
use mathlib.Core.Path.{subst}
use mathlib.Core.List.{append_assoc, append-nil}
use dadi_fast_cdc.Prelude.{
  ℕ, suc, ◌+◌, ◌-◌, ◌≤◌, ◌<◌, ◌≡◌, refl, sym, ap, ◌∙◌, inl, inr, Option, some, true,
}
use dadi_fast_cdc.Prelude.{
  List, [], ◌∷◌, ◌++◌, ltb, ◌==◌, Bool-cases, ==_iff, arith, length, length-append, length-take,
  length-drop, take, drop, concat,
}
use dadi_fast_cdc.Zfile.BlockReader.{CompressionFile}
use dadi_fast_cdc.Zfile.Decompress.Whole.{Takes}
use dadi_fast_cdc.Zfile.Builder.{HeaderTrailer, ZFileBuilder, write, write_all}
use dadi_fast_cdc.Zfile.Builder.Written.{Compresses, write_buffer-lem}
use dadi_fast_cdc.Zfile.Builder.Session.{
  Written, kept-Stores, store-Written, reserve-Written, write_blocks-Written, take-drop, no_length,
}

module _ {D : Type 0} (crc32c_salt crc32c : List ℕ → ℕ)
    (compress dec : List ℕ → ℕ → Option (List ℕ)) (write_to : D → List ℕ → D × Option ℕ)
    (pwrite_to : D → List ℕ → ℕ → D × Option ℕ) (pack : HeaderTrailer → List ℕ)
    (z : CompressionFile) (longest : ℕ) (contents : D → List ℕ) (takes : Takes write_to contents)
    (laws : Compresses crc32c_salt dec compress z.block_size longest) (busy : 0 < z.block_size)
    (front : List ℕ) where
  abbrev Holds : ZFileBuilder D → List ℕ → ℕ → Type 0
  Holds b whole raw =
      Written crc32c_salt crc32c compress dec write_to pwrite_to pack z longest contents takes laws
        busy front b whole raw

  counted :
      (b : ZFileBuilder D) (whole : List ℕ) (raw raw1 : ℕ)
      → Holds b whole raw
      → Holds (record b { raw_data_size = raw1 }) whole raw1
  counted b whole raw raw1 w = record {
    codes = w.codes;
    blocks = w.blocks;
    stores =
        kept-Stores crc32c_salt crc32c compress dec write_to pwrite_to pack z longest contents takes
          laws busy front b w.codes w.blocks b.reserved raw1 w.stores;
    full = w.full;
    all = w.all;
    short = w.short;
    raw_of = refl;
  }

  write-Written :
      (b : ZFileBuilder D) (buf whole : List ℕ)
      → Holds b whole (length whole)
      → (b1 : ZFileBuilder D) × (write crc32c_salt crc32c compress write_to pwrite_to pack
            z.block_size z.verify b buf
          ≡ some (b1, true))
        × Holds b1 (whole ++ buf) (length (whole ++ buf))
  unfolding write
  write-Written b buf whole w =
      let more : ℕ = b.raw_data_size + length buf in
      let total : more ≡ length (whole ++ buf) = omega (arith, w.raw_of, length-append whole buf) in
      let b0 = record b { raw_data_size = more } in
      let w0 = counted b whole (length whole) more w in
      let finish = λ (r : (b1 : ZFileBuilder D) × Holds b1 (whole ++ buf) more).
        subst (λ n. Holds (r.0) (whole ++ buf) n) total (r.1) in
      elim (Bool-cases (length b.reserved == 0)) [
        | inl t ↦
            let r =
              write_blocks-Written crc32c_salt crc32c compress dec write_to pwrite_to pack z longest
                contents takes laws busy front (suc (length buf)) b0 buf whole more w0
                (no_length b.reserved ((==_iff (length b.reserved) 0).0 t)) (omega arith) in
            rw t (r.0, r.1, finish (r.0, r.2))
        | inr t ↦ elim (Bool-cases (ltb (length b.reserved + length buf) z.block_size)) [
          | inl u ↦
              rw (t, u)
                (
                  record b0 { reserved = b.reserved ++ buf },
                  refl,
                  finish (
                    record b0 { reserved = b.reserved ++ buf },
                    reserve-Written crc32c_salt crc32c compress dec write_to pwrite_to pack z
                        longest contents takes laws busy front b0 buf whole more w0 (ground arith),
                  ),
                )
          | inr u ↦
              let delta : ℕ = z.block_size - length b.reserved in
              let part = take delta buf in
              let xs = b.reserved ++ part in
              let fits : delta ≤ length buf = ground arith in
              let size : length xs ≡ z.block_size =
                omega (arith, length-append b.reserved part, length-take delta buf fits, w.short) in
              let w1 =
                store-Written crc32c_salt crc32c compress dec write_to pwrite_to pack z longest
                  contents takes laws busy front b0 xs whole (whole ++ part) [] more w0 size refl
                  (sym (append_assoc (concat w0.blocks) b.reserved part)
                    ∙ ap (λ l. l ++ part) w0.all) in
              let r =
                write_blocks-Written crc32c_salt crc32c compress dec write_to pwrite_to pack z
                  longest contents takes laws busy front (suc (length buf)) _ (drop delta buf)
                  (whole ++ part) more w1 refl (omega (arith, length-drop delta buf)) in
              let whole_of : (whole ++ part) ++ drop delta buf ≡ whole ++ buf =
                append_assoc whole part (drop delta buf)
                ∙ ap (λ l. whole ++ l) (take-drop delta buf) in
              rw
                (
                  t,
                  u,
                  write_buffer-lem crc32c_salt crc32c compress dec write_to pwrite_to pack z longest
                      contents takes laws b0 xs (omega arith) (omega arith),
                )
                (r.0, r.1, finish (r.0, subst (λ l. Holds (r.0) l more) whole_of r.2))
        ]
      ]

  pub write_all-Written :
      (b : ZFileBuilder D) (bufs : List (List ℕ)) (whole : List ℕ)
      → Holds b whole (length whole)
      → (b1 : ZFileBuilder D) × (write_all crc32c_salt crc32c compress write_to pwrite_to pack
            z.block_size z.verify b bufs
          ≡ some (b1, true))
        × Holds b1 (whole ++ concat bufs) (length (whole ++ concat bufs))
  unfolding write_all
  write_all-Written b [] whole w =
      (b, refl, subst (λ l. Holds b l (length l)) (sym (append-nil whole)) w)
  write_all-Written b (buf ∷ bufs) whole w =
      let first = write-Written b buf whole w in
      let rest = write_all-Written (first.0) bufs (whole ++ buf) first.2 in
      rw (first.1) (
        rest.0,
        rest.1,
        subst (λ l. Holds (rest.0) l (length l)) (append_assoc whole buf (concat bufs)) rest.2,
      )
