-- ===== src/Lsmt/Merge/Loop.antt =====
-- The loop of `merge_indexes` of src/overlaybd/lsmt/index.cpp, for any call that fills the holes.
use dadi_fast_cdc.Prelude.{
  ℕ, ◌%◌, ◌^◌, ◌≤◌, ◌<◌, ◌≡◌, refl, sym, ap, ◌∙◌, inl, inr, false, Option, some,
}
use dadi_fast_cdc.Prelude.{List, [], ◌∷◌, ◌++◌, ltb, leb, if◌then◌else◌, arith, Bool-cases}
use dadi_fast_cdc.Lsmt.Segment.{SegmentMapping, end, lower_bound}
use dadi_fast_cdc.Lsmt.Segment.Place.{
  Place, covers, place, at, Fits, Chain, EndsBy, Chain-le, at_before, at-lower_bound,
  lower_bound-Chain,
}
use dadi_fast_cdc.Lsmt.Segment.Trim.{EndsAfter, lower_bound-EndsAfter, trim_edge_mappings-lem}
use dadi_fast_cdc.Lsmt.Merge.{tagged, merge_loop, merge_index}
use dadi_fast_cdc.Lsmt.Merge.Layers.{
  retag, over, Fills, Spills, Fills-starts, lower_bound-EndsBy, Chain-after, append-Chain,
  append-at_before, append-at_behind, append-StartsBefore, append-EndsAfter, place-tagged,
  tagged-Fits,
}

Spills-same :
    (lo b e : ℕ) (f g : ℕ → Option Place) (out : List SegmentMapping)
    → Spills lo b e f out
    → ((x : ℕ) → f x ≡ g x)
    → Spills lo b e g out
Spills-same lo b e f g out s h = record {
  in_order = s.in_order;
  after = s.after;
  starts = s.starts;
  same = λ x a c. s.same x a c ∙ h x;
}

module _ (hole : ℕ → ℕ → List SegmentMapping) (under : ℕ → Option Place) (level : Option ℕ)
    (top : ℕ) (fills : (b e : ℕ) → b < e → b ≤ top → Fills b e under (hole b e)) (e : ℕ) where
  -- No element, or only such that begin at `e` or behind it.
  gap-Spills :
      (lo b : ℕ) (f : ℕ → Option Place)
      → lo ≤ b
      → b ≤ top
      → ((x : ℕ) → b ≤ x → x < e → f x ≡ under x)
      → Spills lo b e f (if ltb b e then hole b e else [])
  gap-Spills lo b f h low same = elim (Bool-cases (ltb b e)) [
    | inl t ↦
        let filled = fills b e (ground arith) low in
        rw t (record {
          in_order = Chain-le b lo _ h filled.in_order;
          after = Chain-after b _ filled.in_order;
          starts = Fills-starts b e e _ filled.in_order filled.within (omega arith);
          same = λ x a c. filled.same x a c ∙ sym (same x a c);
        })
    | inr t ↦
        rw t
          (record { in_order = tt; after = tt; starts = tt; same = λ x a c. absurd (ground arith) })
  ]

  -- An element that begins before `e`, and the loop behind it.
  element-Spills :
      (lo b : ℕ) (it : SegmentMapping) (behind : List SegmentMapping) (f : ℕ → Option Place)
      → Fits it
      → b ≤ top
      → lo ≤ b
      → lo ≤ it.offset
      → it.offset < e
      → b < end it
      → Spills (end it) (end it) e f behind
      → ((x : ℕ) → x < end it → f x ≡ under x)
      → Spills lo b e
          (λ x. if covers it x then some (retag level (place it x)) else f x)
          ((if ltb b it.offset then hole b it.offset else []) ++ tagged level it ∷ behind)
  unfolding at
  element-Spills lo b it behind f fits below h low begins ends rest none_yet =
      let tag = tagged-Fits level it fits in
      let chain : Chain it.offset (tagged level it ∷ behind) = (
        omega (arith, tag),
        tag.0,
        Chain-le (end it) (end (tagged level it)) behind (omega (arith, tag)) rest.in_order,
      ) in
      elim (Bool-cases (ltb b it.offset)) [
        | inr t ↦ rw t (record {
          in_order = Chain-le it.offset lo (tagged level it ∷ behind) low chain;
          after = omega (arith, tag);
          starts = (omega (arith, tag), rest.starts);
          same = λ x a c. ground (arith, tag, place-tagged level it x, rest.same x);
        })
        | inl t ↦
            let filled = fills b it.offset (ground arith) below in
            rw t (record {
              in_order =
                  append-Chain (tagged level it ∷ behind) it.offset lo (hole b it.offset) low
                    (Chain-le b lo (hole b it.offset) h filled.in_order) filled.within chain;
              after =
                  append-EndsAfter b (hole b it.offset) (tagged level it ∷ behind)
                    (Chain-after b (hole b it.offset) filled.in_order) (omega (arith, tag));
              starts =
                  append-StartsBefore e (hole b it.offset) (tagged level it ∷ behind)
                    (Fills-starts b it.offset e (hole b it.offset) filled.in_order filled.within
                      (omega arith))
                    (omega (arith, tag), rest.starts);
              same = λ x a c. elim (Bool-cases (ltb x it.offset)) [
                | inl u ↦
                    append-at_before (tagged level it ∷ behind) it.offset (hole b it.offset) x chain
                      (ground arith)
                    ∙ filled.same x a (ground arith)
                    ∙ ground (arith, none_yet x)
                | inr u ↦
                    append-at_behind (tagged level it ∷ behind) it.offset (hole b it.offset) x
                      filled.within (ground arith)
                    ∙ ground (arith, tag, place-tagged level it x, rest.same x)
              ];
            })
      ]

  loop-Spills :
      (lo b : ℕ) (ms : List SegmentMapping)
      → lo ≤ b
      → b ≤ top
      → EndsBy top ms
      → Chain lo ms
      → EndsAfter b ms
      → Spills lo b e (λ x. over level (at ms x) (under x)) (merge_loop hole level b e ms)
  unfolding merge_loop at
  loop-Spills lo b [] h below ends c after = gap-Spills lo b under h below (λ x a d. refl)
  loop-Spills lo b (it ∷ its) h below ends c after = elim (Bool-cases (ltb it.offset e)) [
    | inl t ↦
        let rest =
          loop-Spills (end it) (end it) its (omega arith) ends.0 ends.1 c.2
            (Chain-after (end it) its c.2) in
        rw t (
          Spills-same lo b e _ _ _
            (element-Spills lo b it (merge_loop hole level (end it) e its)
              (λ x. over level (at its x) (under x)) c.1 below h c.0 (ground arith) after rest
              (λ x a. ap (λ o. over level o (under x)) (at_before (end it) its x c.2 a)))
            (λ x. ground arith))
    | inr t ↦ rw t (
        gap-Spills lo b _ h below (λ x a d.
          ap (λ o. over level o (under x))
            (at_before it.offset (it ∷ its) x (omega arith, c.1, c.2) (ground arith))))
  ]

-- A call on an index in order, from within the 50 bits of an offset, fills its range with what the
-- index has, and where it has nothing with what the calls on the holes give.
pub merge_index-Fills :
    (hole : ℕ → ℕ → List SegmentMapping) (under : ℕ → Option Place) (level : Option ℕ) (top : ℕ)
    → ((b e : ℕ) → b < e → b ≤ top → Fills b e under (hole b e))
    → (pi0 : List SegmentMapping) (b e : ℕ) → Chain 0 pi0
    → EndsBy top pi0
    → b < 2 ^ 50
    → b ≤ top
    → b < e
    → Fills b e (λ x. over level (at pi0 x) (under x)) (merge_index hole level pi0 b e)
unfolding merge_index
merge_index-Fills hole under level top fills pi0 b e c ends low below h =
    let busy : leb e b ≡ false = ground arith in
    let kept : b % 2 ^ 50 ≡ b = omega arith in
    let spilled =
      loop-Spills hole under level top fills e 0 b (lower_bound b pi0) (omega arith) below
        (lower_bound-EndsBy top b pi0 ends) (lower_bound-Chain b 0 pi0 c)
        (lower_bound-EndsAfter b pi0) in
    let cut = trim_edge_mappings-lem 0 b e _ spilled.in_order spilled.after h spilled.starts in
    rw (busy, kept)
      (record {
        in_order = cut.0;
        within = cut.1;
        same = λ x a d.
            cut.2 x a d
            ∙ spilled.same x a d
            ∙ ap (λ o. over level o (under x)) (at-lower_bound b pi0 x a);
      })
