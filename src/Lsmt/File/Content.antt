-- ===== src/Lsmt/File/Content.antt =====
-- What the sectors of `LSMTFile` of src/overlaybd/lsmt/file.cpp hold after a write and a discard.
use dadi_fast_cdc.Prelude.{
  ℕ, ◌+◌, ◌-◌, ◌%◌, ◌^◌, ◌≤◌, ◌<◌, ◌≡◌, refl, ◌⊎◌, inl, inr, Bool, true, false, Option, none, some,
}
use dadi_fast_cdc.Prelude.{
  List, [], ◌∷◌, ◌++◌, ltb, leb, ◌==◌, ◌&&◌, if◌then◌else◌, arith, Bool-cases,
}
use dadi_fast_cdc.Prelude.{length, length-append, get_elem?, get_or, get_elem?-eq-get_or}
use dadi_fast_cdc.Lsmt.Segment.{SegmentMapping}
use dadi_fast_cdc.Lsmt.Segment.Place.{Place, covers, place, at, FitsFields}
use dadi_fast_cdc.Lsmt.Index0.{insert}
use dadi_fast_cdc.Lsmt.Index0.Insert.{IsCounted, insert-override, insert-IsCounted}
use dadi_fast_cdc.Lsmt.File.{
  LsmtFile, max, do_group_commit_mappings, append_index, mapping_of, write_piece,
}

-- A file that is only appended to.
pub record AppendLaws {A F : Type 0} (size : F → ℕ) (append : F → List A → F × Bool)
    (read : F → ℕ → Option A) : Type 0 where
  pub grows :
      (f : F) (xs : List A) → (append f xs).1 ≡ true → size (append f xs).0 ≡ size f + length xs
  pub keeps : (f : F) (xs : List A) (x : ℕ) → x < size f → read (append f xs).0 x ≡ read f x
  pub adds :
      (f : F) (xs : List A) (i : ℕ)
      → (append f xs).1 ≡ true
      → i < length xs
      → read (append f xs).0 (size f + i) ≡ get_elem? xs i

-- There is room for another mapping in the buffer.
abbrev pub Buffered : {F G : Type 0} → LsmtFile F G → Type 0
Buffered f = (f.capacity ≡ 0) ⊎ (length f.stacked < f.capacity)

-- A place with data lies in the file.
abbrev pub Below : ℕ → Option Place → Type 0
Below n none = Unit
Below n (some p) = p.zeroed ≡ false → p.moffset < n

abbrev pub or_zeros : {A : Type 0} → A → Option A → A
or_zeros zeros none = zeros
or_zeros zeros (some a) = a

-- A hole and a zeroed sector read as zeros, and so does what is behind the end of the file.
abbrev pub content_of : {A F : Type 0} → (F → ℕ → Option A) → A → F → Option Place → A
content_of read zeros f none = zeros
content_of read zeros f (some p) = if p.zeroed then zeros else or_zeros zeros (read f p.moffset)

abbrev pub content : {A F G : Type 0} → (F → ℕ → Option A) → A → LsmtFile F G → ℕ → A
content read zeros f x = content_of read zeros f.fdata (at f.index.mapping x)

pub record Stored {F G : Type 0} (size : F → ℕ) (f : LsmtFile F G) : Type 0 where
  pub counted : IsCounted f.index
  pub below : (x : ℕ) → Below (size f.fdata) (at f.index.mapping x)
  pub buffered : Buffered f

content_of-keeps :
    {A F : Type 0} (size : F → ℕ) (append : F → List A → F × Bool) (read : F → ℕ → Option A)
    (zeros : A) (laws : AppendLaws size append read) (f : F) (xs : List A) (o : Option Place)
    → Below (size f) o
    → content_of read zeros (append f xs).0 o ≡ content_of read zeros f o
content_of-keeps size append read zeros laws f xs none b = refl
content_of-keeps size append read zeros laws f xs (some p) b = elim (Bool-cases p.zeroed) [
  | inl t ↦ rw t refl
  | inr t ↦ rw (laws.keeps f xs p.moffset (b t)) refl
]

content_of-adds :
    {A F : Type 0} (size : F → ℕ) (append : F → List A → F × Bool) (read : F → ℕ → Option A)
    (zeros : A) (laws : AppendLaws size append read) (f : F) (xs : List A) (i : ℕ) (p : Place)
    → (append f xs).1 ≡ true
    → i < length xs
    → p.zeroed ≡ false
    → p.moffset ≡ size f + i
    → content_of read zeros (append f xs).0 (some p) ≡ get_or xs i zeros
content_of-adds size append read zeros laws f xs i p ok h t q =
    rw (t, q, laws.adds f xs i ok h, get_elem?-eq-get_or xs i zeros h) refl

Below-le : (n n' : ℕ) (o : Option Place) → n ≤ n' → Below n o → Below n' o
Below-le n n' none h b = tt
Below-le n n' (some p) h b = λ z. omega (arith, b z)

module _ {A F G : Type 0} (size : F → ℕ) (append_data : F → List A → F × Bool)
    (append_log : G → List SegmentMapping → G × Bool)
    (log_ok : (g : G) (ms : List SegmentMapping) → (append_log g ms).1 ≡ true) where
  pub append_index-Buffered :
      (f : LsmtFile F G) (m : SegmentMapping)
      → Buffered f
      → (f' : LsmtFile F G) × (append_index size append_data append_log f m ≡ some f')
        × (f'.fdata ≡ f.fdata)
        × (f'.index ≡ f.index)
        × Buffered f'
  unfolding append_index do_group_commit_mappings
  append_index-Buffered f m b = elim (Bool-cases (f.capacity == 0)) [
    | inl t ↦ rw t (_, refl, refl, refl, inl (ground arith))
    | inr t ↦
        let room : leb f.capacity (length f.stacked) ≡ false = ground (arith, b) in
        let count = length-append f.stacked (m ∷ []) in
        let busy : (length (f.stacked ++ m ∷ []) == 0) ≡ false = ground (arith, count) in
        elim (Bool-cases (length (f.stacked ++ m ∷ []) == f.capacity)) [
          | inl full ↦
              rw (t, room, full, busy, log_ok f.findex _)
                (_, refl, refl, refl, inr (ground (arith, count)))
          | inr left ↦ rw (t, room, left) (_, refl, refl, refl, inr (ground (arith, count, b)))
        ]
  ]

  pub mapping_of-fields :
      (offset count pos : ℕ)
      → 0 < count
      → count < 2 ^ 14
      → offset + count ≤ 2 ^ 50
      → pos < 2 ^ 55
      → mapping_of size append_data append_log offset count pos
        ≡ record { offset = offset; length = count; moffset = pos; zeroed = false; tag = 0 }
  unfolding mapping_of
  mapping_of-fields offset count pos a b c d =
      let p : offset % 2 ^ 50 ≡ offset = omega arith in
      let q : count % 2 ^ 14 ≡ count = omega arith in
      let r : pos % 2 ^ 55 ≡ pos = omega arith in rw (p, q, r) refl

-- The write of a piece: what the file was, what became of it, and that it read as `piece` then.
pub record Written {A F G : Type 0} (size : F → ℕ) (read : F → ℕ → Option A) (zeros : A)
    (f f' : LsmtFile F G) (piece : List A) (offset : ℕ) : Type 0 where
  pub stored : Stored size f'
  pub grown : size f'.fdata ≡ size f.fdata + length piece
  pub holds :
      (x : ℕ)
      → content read zeros f' x ≡ (
          if leb offset x && ltb x (offset + length piece)
          then get_or piece (x - offset) zeros
          else content read zeros f x)

module _ {A F G : Type 0} (size : F → ℕ) (append_data : F → List A → F × Bool)
    (append_log : G → List SegmentMapping → G × Bool)
    (log_ok : (g : G) (ms : List SegmentMapping) → (append_log g ms).1 ≡ true)
    (read : F → ℕ → Option A) (zeros : A) (laws : AppendLaws size append_data read) where
  -- The mapping of a piece, in the index of the file to which the piece was appended.
  placed :
      (f : LsmtFile F G) (piece : List A) (m : SegmentMapping)
      (fresh : (append_data f.fdata piece).1 ≡ true)
      → Stored size f
      → FitsFields m
      → m.zeroed ≡ false
      → m.moffset ≡ size f.fdata
      → m.length ≡ length piece
      → (x : ℕ)
      → Below (size (append_data f.fdata piece).0) (at (insert f.index m).mapping x)
        × (content_of read zeros (append_data f.fdata piece).0 (at (insert f.index m).mapping x)
            ≡ (if covers m x then get_or piece (x - m.offset) zeros else content read zeros f x))
  placed f piece m fresh stored fits nonzero at_end len x =
      rw (insert-override f.index m x stored.counted.in_order fits)
        (elim (Bool-cases (covers m x)) [
          | inl t ↦
              let inside : x - m.offset < length piece = ground arith in
              let moff : (place m x).moffset ≡ size f.fdata + (x - m.offset) =
                ground (arith, nonzero) in
              rw t (
                λ z. omega (arith, laws.grows f.fdata piece fresh, moff, inside),
                content_of-adds size append_data read zeros laws f.fdata piece (x - m.offset)
                    (place m x) fresh inside nonzero moff,
              )
          | inr t ↦ rw t (
            Below-le (size f.fdata) _ _ (omega (arith, laws.grows f.fdata piece fresh))
                (stored.below x),
            content_of-keeps size append_data read zeros laws f.fdata piece (at f.index.mapping x)
                (stored.below x),
          )
        ])

  -- One piece that fits the bit fields, of one sector or more, when the data file takes it.
  pub write_piece-Written :
      (f : LsmtFile F G) (piece : List A) (offset : ℕ)
      → Stored size f
      → (append_data f.fdata piece).1 ≡ true
      → 0 < size f.fdata
      → 0 < length piece
      → length piece < 2 ^ 14
      → offset + length piece ≤ 2 ^ 50
      → size f.fdata + length piece ≤ 2 ^ 55
      → (f' : LsmtFile F G) × (write_piece size append_data append_log f piece offset
          ≡ some (f', true))
        × Written size read zeros f f' piece offset
  unfolding write_piece
  write_piece-Written f piece offset stored fresh pos busy short low fit =
      let m : SegmentMapping = record {
        offset = offset;
        length = length piece;
        moffset = size f.fdata;
        zeroed = false;
        tag = 0;
      } in
      let made =
        mapping_of-fields size append_data append_log log_ok offset (length piece) (size f.fdata)
          busy short low (omega arith) in
      let fits : FitsFields m = (short, low, fit) in
      let place = placed f piece m fresh stored fits refl refl refl in
      let counted = insert-IsCounted f.index m stored.counted fits in
      let logged =
        append_index-Buffered size append_data append_log log_ok
          (record f {
            fdata = (append_data f.fdata piece).0;
            vsize = max f.vsize (length piece + offset);
            index = insert f.index m;
          })
          m stored.buffered in
      let header : (size f.fdata == 0) ≡ false = ground arith in
      rw (made, fresh, header, logged.1)
        (
          logged.0,
          refl,
          record {
            stored = record {
              counted = rw (logged.3) counted;
              below = λ x. rw (logged.2, logged.3) (place x).0;
              buffered = logged.4;
            };
            grown = rw logged.2 (laws.grows f.fdata piece fresh);
            holds = λ x. rw (logged.2, logged.3) (place x).1;
          },
        )
