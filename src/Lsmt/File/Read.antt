-- ===== src/Lsmt/File/Read.antt =====
-- `pread` of src/overlaybd/lsmt/file.cpp reads what the sectors hold.
use mathlib.Core.Path.{subst}
use mathlib.Core.List.{append-nil}
use dadi_fast_cdc.Prelude.{length-replicate}
use dadi_fast_cdc.Prelude.{
  ℕ, zero, suc, ◌+◌, ◌-◌, ◌%◌, ◌^◌, ◌≤◌, ◌<◌, ◌≡◌, refl, sym, ap, ◌∙◌, inl, inr, false, Option,
  none, some,
}
use dadi_fast_cdc.Prelude.{
  List, [], ◌∷◌, ◌++◌, ltb, arith, Bool-cases, length, length-append, replicate, get_or,
}
use dadi_fast_cdc.Lsmt.Segment.{Segment, SegmentMapping, segment_end, end}
use dadi_fast_cdc.Lsmt.Segment.Place.{Place, place, at}
use dadi_fast_cdc.Lsmt.Index.{lookup}
use dadi_fast_cdc.Lsmt.Foreach.Events.{Event, zeroes, reads, Blank, Tiles}
use dadi_fast_cdc.Lsmt.Foreach.Fold.{flat, foreach_segments-flat}
use dadi_fast_cdc.Lsmt.Foreach.Tiles.{foreach_segments-lookup}
use dadi_fast_cdc.Lsmt.File.{LsmtFile}
use dadi_fast_cdc.Lsmt.File.Content.{or_zeros, content_of, Stored}
use dadi_fast_cdc.Lsmt.File.Pread.{cb_zero, cb_data, pread_piece, pread}

get_or-replicate : {A : Type 0} (n i : ℕ) (a : A) → get_or (replicate n a) i a ≡ a
get_or-replicate zero i a = refl
get_or-replicate (suc n) zero a = refl
get_or-replicate (suc n) (suc i) a = get_or-replicate n i a

get_or-append_left :
    {A : Type 0} (xs ys : List A) (i : ℕ) (d : A)
    → i < length xs
    → get_or (xs ++ ys) i d ≡ get_or xs i d
get_or-append_left [] ys i d h = absurd (omega arith)
get_or-append_left (x ∷ xs) ys zero d h = refl
get_or-append_left (x ∷ xs) ys (suc i) d h = get_or-append_left xs ys i d (omega arith)

get_or-append_right :
    {A : Type 0} (xs ys : List A) (i : ℕ) (d : A)
    → length xs ≤ i
    → get_or (xs ++ ys) i d ≡ get_or ys (i - length xs) d
get_or-append_right [] ys i d h = ap (λ k. get_or ys k d) (omega arith)
get_or-append_right (x ∷ xs) ys zero d h = absurd (omega arith)
get_or-append_right (x ∷ xs) ys (suc i) d h =
    get_or-append_right xs ys i d (omega arith) ∙ ap (λ k. get_or ys k d) (omega arith)

-- A file whose read is short only at its end.
pub record ReadLaws {A F : Type 0} (size : F → ℕ) (read : F → ℕ → Option A)
    (pread_data : F → ℕ → ℕ → Option (List A)) (zeros : A) : Type 0 where
  pub got : F → ℕ → ℕ → List A
  pub answers : (d : F) (pos n : ℕ) → pread_data d pos n ≡ some (got d pos n)
  pub bounded : (d : F) (pos n : ℕ) → length (got d pos n) ≤ n
  pub short : (d : F) (pos n : ℕ) → length (got d pos n) < n → size d ≤ pos + length (got d pos n)
  pub sectors :
      (d : F) (pos n i : ℕ)
      → i < length (got d pos n)
      → read d (pos + i) ≡ some (get_or (got d pos n) i zeros)
  pub behind : (d : F) (x : ℕ) → size d ≤ x → read d x ≡ none
  pub at_end : (d : F) (pos n : ℕ) → size d ≤ pos → pread_data d pos n ≡ some []

module _ {A F : Type 0} (size : F → ℕ) (read : F → ℕ → Option A)
    (pread_data : F → ℕ → ℕ → Option (List A)) (zeros : A)
    (laws : ReadLaws size read pread_data zeros) (d : F) where
  -- The sectors of a hole, and of a mapping.
  abbrev hole_sectors : Segment → List A
  hole_sectors s = replicate s.length zeros

  abbrev data_sectors : SegmentMapping → List A
  data_sectors m =
      let xs = laws.got d m.moffset m.length in xs ++ replicate (m.length - length xs) zeros

  length-data_sectors : (m : SegmentMapping) → length (data_sectors m) ≡ m.length
  length-data_sectors m =
      let xs = laws.got d m.moffset m.length in
      let n = m.length - length xs in
      omega (
        arith,
        length-append xs (replicate n zeros),
        length-replicate n zeros,
        laws.bounded d m.moffset m.length,
      )

  get_or-data_sectors :
      (m : SegmentMapping) (i : ℕ)
      → i < m.length
      → get_or (data_sectors m) i zeros ≡ or_zeros zeros (read d (m.moffset + i))
  get_or-data_sectors m i h =
      let xs = laws.got d m.moffset m.length in
      let n = m.length - length xs in
      elim (Bool-cases (ltb i (length xs))) [
        | inl t ↦
            get_or-append_left xs (replicate n zeros) i zeros (ground arith)
            ∙ rw (laws.sectors d m.moffset m.length i (ground arith)) refl
        | inr t ↦
            get_or-append_right xs (replicate n zeros) i zeros (ground arith)
            ∙ get_or-replicate n (i - length xs) zeros
            ∙ rw (laws.behind d (m.moffset + i) (ground (arith, laws.short d m.moffset m.length)))
                refl
      ]

  cb_data-lem :
      (m : SegmentMapping) (buf : List A)
      → cb_data pread_data zeros d m buf ≡ (buf ++ data_sectors m, none)
  cb_data-lem m buf =
      let xs = laws.got d m.moffset m.length in
      elim (Bool-cases (ltb (length xs) m.length)) [
        | inl t ↦
            let stop =
              laws.at_end d (m.moffset + length xs) (m.length - length xs)
                (laws.short d m.moffset m.length (ground arith)) in
            rw (laws.answers d m.moffset m.length, t, stop) refl
        | inr t ↦
            let full : m.length - length xs ≡ 0 = ground arith in
            rw (laws.answers d m.moffset m.length, t, full, append-nil xs) refl
      ]

  -- The sectors `b .. e - 1` of what `f` maps.
  pub record Holds (f : ℕ → Option Place) (b e : ℕ) (buf : List A) : Type 0 where
    pub size_of : b + length buf ≡ e
    pub same : (x : ℕ) → b ≤ x → x < e → get_or buf (x - b) zeros ≡ content_of read zeros d (f x)

  Blank-zeros : (o : Option Place) → Blank o → content_of read zeros d o ≡ zeros
  Blank-zeros none h = refl
  Blank-zeros (some p) h = rw h refl

  -- One event, and those behind it.
  Holds-append :
      (f : ℕ → Option Place) (b mid e : ℕ) (xs ys : List A)
      → Holds f b mid xs
      → Holds f mid e ys
      → Holds f b e (xs ++ ys)
  Holds-append f b mid e xs ys h k = record {
    size_of = omega (arith, length-append xs ys, h.size_of, k.size_of);
    same = λ x a c. elim (Bool-cases (ltb x mid)) [
      | inl t ↦
          get_or-append_left xs ys (x - b) zeros (ground (arith, h.size_of))
          ∙ h.same x a (ground arith)
      | inr t ↦
          get_or-append_right xs ys (x - b) zeros (ground (arith, h.size_of))
          ∙ ap (λ i. get_or ys i zeros) (ground (arith, h.size_of))
          ∙ k.same x (ground arith) c
    ];
  }

  data_place :
      (m : SegmentMapping) (x b : ℕ)
      → m.zeroed ≡ false
      → m.offset ≡ b
      → content_of read zeros d (some (place m x)) ≡ or_zeros zeros (read d (m.moffset + (x - b)))
  data_place m x b u h = rw (u, h) refl

  flat-Holds :
      (f : ℕ → Option Place) (b e : ℕ) (es : List Event)
      → Tiles f b es e
      → Holds f b e (flat hole_sectors data_sectors es)
  flat-Holds f b e [] t = record {
    size_of = omega (arith, t);
    same = λ x a c. absurd (omega (arith, t));
  }
  flat-Holds f b e (zeroes s ∷ es) t =
      Holds-append f b (segment_end s) e (hole_sectors s) _
        (record {
          size_of = omega (arith, length-replicate s.length zeros, t.0);
          same = λ x a c.
              get_or-replicate s.length (x - b) zeros ∙ sym (Blank-zeros (f x) (t.1 x a c));
        })
        (flat-Holds f (segment_end s) e es t.2)
  flat-Holds f b e (reads m ∷ es) t =
      Holds-append f b (end m) e (data_sectors m) _
        (record {
          size_of = omega (arith, length-data_sectors m, t.0);
          same = λ x a c.
              get_or-data_sectors m (x - b) (omega (arith, t.0))
              ∙ sym (ap (content_of read zeros d) (t.2 x a c) ∙ data_place m x b t.1 t.0);
        })
        (flat-Holds f (end m) e es t.3)

module _ {A F G : Type 0} (size : F → ℕ) (read : F → ℕ → Option A)
    (pread_data : F → ℕ → ℕ → Option (List A)) (zeros : A)
    (laws : ReadLaws size read pread_data zeros) where
  pread_piece-Holds :
      (f : LsmtFile F G) (count offset : ℕ)
      → Stored size f
      → count < 2 ^ 14
      → offset + count < 2 ^ 50
      → (buf : List A) × (pread_piece pread_data zeros f count offset ≡ some (buf, none))
        × Holds size read pread_data zeros laws f.fdata
            (at f.index.mapping)
            offset
            (offset + count)
            buf
  unfolding pread_piece
  pread_piece-Holds f count offset stored few low =
      let p : offset % 2 ^ 50 ≡ offset = omega arith in
      let q : count % 2 ^ 14 ≡ count = omega arith in
      let s : Segment = record { offset = offset; length = count } in
      let seen = foreach_segments-lookup f.index.mapping s stored.counted.in_order few low in
      rw (p, q)
        (
          flat (hole_sectors size read pread_data zeros laws f.fdata)
              (data_sectors size read pread_data zeros laws f.fdata) seen.0,
          foreach_segments-flat (hole_sectors size read pread_data zeros laws f.fdata)
              (data_sectors size read pread_data zeros laws f.fdata) (lookup f.index.mapping)
              (cb_zero pread_data zeros) (cb_data pread_data zeros f.fdata) (λ t buf. refl)
              (cb_data-lem size read pread_data zeros laws f.fdata) (count + 1) s [] seen.0 seen.1,
          flat-Holds size read pread_data zeros laws f.fdata (at f.index.mapping) offset
              (offset + count) seen.0 seen.2,
        )

  -- `pread` of sectors below the last of all, in pieces of `max_io` sectors, from a file that is valid,
  -- where the read of the data file is short only at its end: with fuel for one piece more than there
  -- are sectors it succeeds and reads just the sectors asked for, each with what it holds.
  pub pread-Holds :
      (max_io fuel : ℕ) (f : LsmtFile F G) (count offset : ℕ)
      → Stored size f
      → 0 < max_io
      → max_io < 2 ^ 14
      → count < fuel
      → offset + count < 2 ^ 50
      → (buf : List A) × (pread pread_data zeros max_io fuel f count offset ≡ some (buf, none))
        × Holds size read pread_data zeros laws f.fdata
            (at f.index.mapping)
            offset
            (offset + count)
            buf
  unfolding pread
  pread-Holds max_io zero f count offset stored some_io io enough low = absurd (omega arith)
  pread-Holds max_io (suc fuel) f count offset stored some_io io enough low =
      elim (Bool-cases (ltb max_io count)) [
        | inr t ↦ rw t (pread_piece-Holds f count offset stored (ground arith) low)
        | inl t ↦
            let piece = pread_piece-Holds f max_io offset stored io (ground arith) in
            let rest =
              pread-Holds max_io fuel f (count - max_io) (offset + max_io) stored some_io io
                (ground arith) (ground arith) in
            let stop : offset + max_io + (count - max_io) ≡ offset + count = ground arith in
            rw (t, piece.1, rest.1)
              (
                piece.0 ++ rest.0,
                refl,
                Holds-append size read pread_data zeros laws f.fdata (at f.index.mapping) offset
                    (offset + max_io) (offset + count) piece.0 rest.0 piece.2
                    (subst
                      (λ e.
                        Holds size read pread_data zeros laws f.fdata (at f.index.mapping)
                          (offset + max_io) e rest.0)
                      stop rest.2),
              )
      ]
