-- ===== src/Lsmt/Index0/Parts.antt =====
-- What `Index0::insert` of src/overlaybd/lsmt/index.cpp may leave of the elements that are in the way.
use dadi_fast_cdc.Prelude.{ℕ, ◌+◌, ◌-◌, ◌%◌, ◌^◌, ◌≤◌, ◌<◌, ◌≡◌, ◌⊎◌, refl, inl, inr, false}
use dadi_fast_cdc.Prelude.{List, [], ◌∷◌, arith}
use dadi_fast_cdc.Lsmt.Segment.{SegmentMapping, end}
use dadi_fast_cdc.Lsmt.Segment.Place.{covers, at, Fits, Chain, Chain-le, Part}
use dadi_fast_cdc.Lsmt.Index.{used_by, used}
use dadi_fast_cdc.Lsmt.Index0.{usage_sub}

-- The sectors of `m` are free.
abbrev pub Clear : SegmentMapping → List SegmentMapping → Type 0
Clear m [] = Unit
Clear m (e ∷ es) = ((end e ≤ m.offset) ⊎ (end m ≤ e.offset)) × Clear m es

pub Clear-behind :
    (m : SegmentMapping) (lo : ℕ) (ms : List SegmentMapping) → end m ≤ lo → Chain lo ms → Clear m ms
Clear-behind m lo [] h c = tt
Clear-behind m lo (e ∷ es) h c =
    (inr (omega (arith, c)), Clear-behind m (end e) es (omega (arith, c)) c.2)

-- The list `out` and the count `alloc'` are what `ms` and `alloc` are without the sectors of `m`.
pub record Cleared (m : SegmentMapping) (lo : ℕ) (ms : List SegmentMapping) (alloc : ℕ)
    (out : List SegmentMapping × ℕ) : Type 0 where
  pub in_order : Chain lo out.0
  pub free : Clear m out.0
  pub kept : (x : ℕ) → covers m x ≡ false → at out.0 x ≡ at ms x
  pub counted : (alloc + used out.0) % 2 ^ 64 ≡ (out.1 + used ms) % 2 ^ 64
  pub small : alloc < 2 ^ 64 → out.1 < 2 ^ 64

pub Cleared-same :
    (m : SegmentMapping) (lo alloc : ℕ) (ms : List SegmentMapping)
    → end m ≤ lo
    → Chain lo ms
    → Cleared m lo ms alloc (ms, alloc)
Cleared-same m lo alloc ms h c = record {
  in_order = c;
  free = Clear-behind m lo ms h c;
  kept = λ x a. refl;
  counted = refl;
  small = λ z. z;
}

pub Cleared-nil : (m : SegmentMapping) (lo alloc : ℕ) → Cleared m lo [] alloc ([], alloc)
Cleared-nil m lo alloc = record {
  in_order = tt;
  free = tt;
  kept = λ x a. refl;
  counted = refl;
  small = λ z. z;
}

-- An element that begins behind `m`, and those behind it.
pub Cleared-beyond :
    (m : SegmentMapping) (lo alloc : ℕ) (it : SegmentMapping) (its : List SegmentMapping)
    → end m ≤ it.offset
    → Chain lo (it ∷ its)
    → Cleared m lo (it ∷ its) alloc (it ∷ its, alloc)
Cleared-beyond m lo alloc it its h c = record {
  in_order = c;
  free = (inr h, Clear-behind m (end it) its (omega arith) c.2);
  kept = λ x a. refl;
  counted = refl;
  small = λ z. z;
}

-- The count goes down by an element and up by what stays of it.
pub recount :
    (alloc p q : ℕ)
    → p ≤ 2 ^ 64
    → (alloc + q) % 2 ^ 64 ≡ (((alloc + 2 ^ 64 - p) % 2 ^ 64 + q) % 2 ^ 64 + p) % 2 ^ 64
recount alloc p q h = omega arith

pub recount_twice :
    (alloc p q q' : ℕ)
    → p ≤ 2 ^ 64
    → (alloc + q + q') % 2 ^ 64
      ≡ ((((alloc + 2 ^ 64 - p) % 2 ^ 64 + q) % 2 ^ 64 + q') % 2 ^ 64 + p) % 2 ^ 64
recount_twice alloc p q q' h = omega arith

pub used_by-Fits : (m : SegmentMapping) → Fits m → used_by m ≤ 2 ^ 64
used_by-Fits m f = ground (arith, f)

-- An element and what becomes of it: nothing, one part or two parts of it stay.
module _ (m p : SegmentMapping) (lo alloc alloc' : ℕ) (its rest : List SegmentMapping) (fp : Fits p)
    (low : lo ≤ p.offset) where
  pub covered-Cleared :
      m.offset ≤ p.offset
      → end p ≤ end m
      → Cleared m (end p) its (usage_sub alloc p) (rest, alloc')
      → Cleared m lo (p ∷ its) alloc (rest, alloc')
  unfolding at
  covered-Cleared a b c = record {
    in_order = Chain-le (end p) lo rest (omega (arith, fp)) c.in_order;
    free = c.free;
    kept = λ x d. ground (arith, c.kept x d);
    counted = ground (arith, c.counted);
    small = λ z. c.small (omega arith);
  }

  pub shrunk-Cleared :
      (q : SegmentMapping) (from to alloc1 : ℕ)
      → Part p q from to
      → p.offset ≤ from
      → to ≤ end p
      → (from ≡ p.offset) ⊎ ((m.offset ≤ p.offset) × (from ≡ end m))
      → (to ≡ end p) ⊎ ((end p ≤ end m) × (to ≡ m.offset))
      → (to ≤ m.offset) ⊎ (end m ≤ from)
      → (alloc + used_by q) % 2 ^ 64 ≡ (alloc1 + used_by p) % 2 ^ 64
      → (alloc < 2 ^ 64 → alloc1 < 2 ^ 64)
      → Cleared m (end p) its alloc1 (rest, alloc')
      → Cleared m lo (p ∷ its) alloc (q ∷ rest, alloc')
  unfolding at
  shrunk-Cleared q from to alloc1 part a b left right apart count bounded c = record {
    in_order = (
      omega (arith, part.starts),
      part.fits,
      Chain-le (end p) (end q) rest (omega (arith, part.ends)) c.in_order,
    );
    free = (ground (arith, part.starts, part.ends), c.free);
    kept = λ x d. ground (arith, c.kept x d, part.starts, part.ends, part.same_place x);
    counted = omega (arith, count, c.counted);
    small = λ z. c.small (bounded z);
  }

  pub split-Cleared :
      (q q' : SegmentMapping) (alloc1 : ℕ)
      → Part p q p.offset m.offset
      → Part p q' (end m) (end p)
      → (alloc + used_by q + used_by q') % 2 ^ 64 ≡ (alloc1 + used_by p) % 2 ^ 64
      → (alloc < 2 ^ 64 → alloc1 < 2 ^ 64)
      → Cleared m (end p) its alloc1 (rest, alloc')
      → Cleared m lo (p ∷ its) alloc (q ∷ q' ∷ rest, alloc')
  unfolding at
  split-Cleared q q' alloc1 part part' count bounded c = record {
    in_order = (
      omega (arith, part.starts),
      part.fits,
      (
        omega (arith, part.ends, part'.starts),
        part'.fits,
        Chain-le (end p) (end q') rest (omega (arith, part'.ends)) c.in_order,
      ),
    );
    free = (inl (omega (arith, part.ends)), (inr (omega (arith, part'.starts)), c.free));
    kept = λ x d. ground (
      arith,
      c.kept x d,
      part.starts,
      part.ends,
      part'.starts,
      part'.ends,
      part.same_place x,
      part'.same_place x,
    );
    counted = omega (arith, count, c.counted);
    small = λ z. c.small (bounded z);
  }
