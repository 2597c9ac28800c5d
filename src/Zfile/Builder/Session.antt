-- ===== src/Zfile/Builder/Session.antt =====
-- Any sequence of writes to `ZFileBuilder` of src/overlaybd/zfile/zfile.cpp.
use mathlib.Core.Path.{subst}
use mathlib.Core.List.{append_assoc, append-nil}
use dadi_fast_cdc.Prelude.{
  ℕ, zero, suc, ◌+◌, ◌<◌, ◌≡◌, refl, sym, ap, ◌∙◌, inl, inr, Option, some, true,
}
use dadi_fast_cdc.Prelude.{
  List, [], ◌∷◌, ◌++◌, ltb, ◌==◌, Bool-cases, ==_iff, arith, length, length-append, length-take,
  length-drop, take, drop, concat, All, All-append,
}
use dadi_fast_cdc.Zfile.BlockReader.{CompressionFile}
use dadi_fast_cdc.Zfile.Decompress.Whole.{Takes}
use dadi_fast_cdc.Zfile.Builder.{HeaderTrailer, ZFileBuilder, write_blocks}
use dadi_fast_cdc.Zfile.Builder.Written.{
  Compresses, Stores, stored_code, write_buffer-lem, stored_code-Stores, concat-snoc, code,
}

pub take-drop : (n : ℕ) (xs : List ℕ) → take n xs ++ drop n xs ≡ xs
take-drop zero xs = refl
take-drop (suc n) [] = refl
take-drop (suc n) (x ∷ xs) = ap (λ l. x ∷ l) (take-drop n xs)

pub no_length : (xs : List ℕ) → length xs ≡ 0 → xs ≡ []
no_length [] h = refl
no_length (x ∷ xs) h = absurd (omega arith)

module _ {D : Type 0} (crc32c_salt crc32c : List ℕ → ℕ)
    (compress dec : List ℕ → ℕ → Option (List ℕ)) (write_to : D → List ℕ → D × Option ℕ)
    (pwrite_to : D → List ℕ → ℕ → D × Option ℕ) (pack : HeaderTrailer → List ℕ)
    (z : CompressionFile) (longest : ℕ) (contents : D → List ℕ) (takes : Takes write_to contents)
    (laws : Compresses crc32c_salt dec compress z.block_size longest) (busy : 0 < z.block_size)
    (front : List ℕ) where
  -- Full blocks are stored, and with what is reserved they are what was written.
  pub record Written (b : ZFileBuilder D) (whole : List ℕ) (raw : ℕ) : Type 0 where
    pub codes : List (List ℕ)
    pub blocks : List (List ℕ)
    pub stores :
        Stores crc32c_salt crc32c compress dec write_to pwrite_to pack z longest contents takes laws
          front b codes blocks
    pub full : All (λ xs. length xs ≡ z.block_size) blocks
    pub all : concat blocks ++ b.reserved ≡ whole
    pub short : length b.reserved < z.block_size
    pub raw_of : b.raw_data_size ≡ raw

  abbrev pub store : ZFileBuilder D → List ℕ → ZFileBuilder D
  store b xs =
      stored_code crc32c_salt crc32c compress dec write_to pwrite_to pack z longest contents takes
        laws b xs

  abbrev pub the_code : List ℕ → List ℕ
  the_code xs =
      code crc32c_salt crc32c compress dec write_to pwrite_to pack z longest contents takes laws xs

  -- The other fields are of no account.
  pub kept-Stores :
      (b : ZFileBuilder D) (codes blocks : List (List ℕ)) (rest : List ℕ) (raw : ℕ)
      → Stores crc32c_salt crc32c compress dec write_to pwrite_to pack z longest contents takes laws
          front b codes blocks
      → Stores crc32c_salt crc32c compress dec write_to pwrite_to pack z longest contents takes laws
          front
          (record b { reserved = rest; raw_data_size = raw })
          codes
          blocks
  kept-Stores b codes blocks rest raw s = record {
    stored = s.stored;
    coded = s.coded;
    lens = s.lens;
    offset = s.offset;
    short = s.short;
  }

  -- A full block, which holds what was reserved.
  pub store-Written :
      (b : ZFileBuilder D) (xs whole whole1 rest : List ℕ) (raw : ℕ)
      → (w : Written b whole raw) → length xs ≡ z.block_size
      → rest ≡ []
      → concat w.blocks ++ xs ≡ whole1
      → Written (record (store b xs) { reserved = rest }) whole1 raw
  store-Written b xs whole whole1 rest raw w size none_left e =
      let s =
        stored_code-Stores crc32c_salt crc32c compress dec write_to pwrite_to pack z longest
          contents takes laws front b w.codes w.blocks xs w.stores (omega arith) (omega arith) in
      record {
        codes = w.codes ++ (the_code xs ∷ []);
        blocks = w.blocks ++ (xs ∷ []);
        stores =
            kept-Stores (store b xs) (w.codes ++ (the_code xs ∷ [])) (w.blocks ++ (xs ∷ [])) rest
              b.raw_data_size s;
        full = All-append (λ l. length l ≡ z.block_size) w.blocks (xs ∷ []) w.full (size, tt);
        all =
            ap (λ l. concat (w.blocks ++ (xs ∷ [])) ++ l) none_left
            ∙ append-nil (concat (w.blocks ++ (xs ∷ [])))
            ∙ concat-snoc w.blocks xs
            ∙ e;
        short = omega (arith, ap length none_left);
        raw_of = w.raw_of;
      }

  -- Bytes that do not fill a block are reserved.
  pub reserve-Written :
      (b : ZFileBuilder D) (buf whole : List ℕ) (raw : ℕ)
      → Written b whole raw
      → length b.reserved + length buf < z.block_size
      → Written (record b { reserved = b.reserved ++ buf }) (whole ++ buf) raw
  reserve-Written b buf whole raw w few = record {
    codes = w.codes;
    blocks = w.blocks;
    stores = kept-Stores b w.codes w.blocks (b.reserved ++ buf) b.raw_data_size w.stores;
    full = w.full;
    all = sym (append_assoc (concat w.blocks) b.reserved buf) ∙ ap (λ l. l ++ buf) w.all;
    short = omega (arith, length-append b.reserved buf);
    raw_of = w.raw_of;
  }

  -- With nothing reserved, the blocks are all.
  pub blocks-whole :
      (b : ZFileBuilder D) (whole : List ℕ) (raw : ℕ) (w : Written b whole raw)
      → b.reserved ≡ []
      → concat w.blocks ≡ whole
  blocks-whole b whole raw w none_left =
      sym (append-nil (concat w.blocks)) ∙ ap (λ l. concat w.blocks ++ l) (sym none_left) ∙ w.all

  pub write_blocks-Written :
      (fuel : ℕ) (b : ZFileBuilder D) (buf whole : List ℕ) (raw : ℕ)
      → Written b whole raw
      → b.reserved ≡ []
      → length buf < fuel
      → (b1 : ZFileBuilder D) × (write_blocks crc32c_salt crc32c compress write_to pwrite_to pack
            z.block_size z.verify fuel b buf
          ≡ some (b1, true))
        × Written b1 (whole ++ buf) raw
  unfolding write_blocks
  write_blocks-Written zero b buf whole raw w none_left enough = absurd (omega arith)
  write_blocks-Written (suc fuel) b buf whole raw w none_left enough =
      elim (Bool-cases (length buf == 0)) [
        | inl t ↦
            let nothing = no_length buf ((==_iff (length buf) 0).0 t) in
            rw t (
              b,
              refl,
              subst (λ l. Written b l raw) (sym (ap (λ l. whole ++ l) nothing ∙ append-nil whole))
                  w,
            )
        | inr t ↦ elim (Bool-cases (ltb (length buf) z.block_size)) [
          | inl u ↦
              rw (t, u)
                (
                  record b { reserved = buf },
                  refl,
                  subst (λ l. Written (record b { reserved = l }) (whole ++ buf) raw)
                      (ap (λ l. l ++ buf) none_left)
                      (reserve-Written b buf whole raw w (ground (arith, ap length none_left))),
                )
          | inr u ↦
              let xs = take z.block_size buf in
              let size = length-take z.block_size buf (ground arith) in
              let onward =
                write_blocks-Written fuel (store b xs) (drop z.block_size buf) (whole ++ xs) raw
                  (store-Written b xs whole (whole ++ xs) b.reserved raw w size none_left
                    (ap (λ l. l ++ xs) (blocks-whole b whole raw w none_left)))
                  none_left (ground (arith, length-drop z.block_size buf)) in
              rw
                (
                  t,
                  u,
                  write_buffer-lem crc32c_salt crc32c compress dec write_to pwrite_to pack z longest
                      contents takes laws b xs (omega arith) (omega arith),
                )
                (
                  onward.0,
                  onward.1,
                  subst (λ l. Written onward.0 l raw)
                      (append_assoc whole xs (drop z.block_size buf)
                        ∙ ap (λ l. whole ++ l) (take-drop z.block_size buf))
                      onward.2,
                )
        ]
      ]
