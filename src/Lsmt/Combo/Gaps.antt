-- ===== src/Lsmt/Combo/Gaps.antt =====
-- The gaps between the elements that `ComboIndex::lookup` of src/overlaybd/lsmt/index.cpp meets.
use dadi_fast_cdc.Prelude.{
  ℕ, ◌+◌, ◌-◌, ◌%◌, ◌^◌, ◌≤◌, ◌<◌, ◌≡◌, refl, sym, ◌∙◌, inl, inr, Option, some,
}
use dadi_fast_cdc.Prelude.{
  List, [], ◌∷◌, ◌++◌, length, length-append, ltb, ◌==◌, if◌then◌else◌, arith, Bool-cases,
}
use mathlib.Core.List.{append-nil}
use dadi_fast_cdc.Lsmt.Segment.{SegmentMapping, end}
use dadi_fast_cdc.Lsmt.Segment.Place.{
  Place, covers, place, at, Fits, Chain, EndsBy, StartsBefore, Chain-le,
}
use dadi_fast_cdc.Lsmt.Segment.Trim.{EndsAfter}
use dadi_fast_cdc.Lsmt.Index.{Index}
use dadi_fast_cdc.Lsmt.Index.Lookup.{last_end, reach, last_end-any, last_end-EndsBy, lookup-Answers}
use dadi_fast_cdc.Lsmt.Merge.Layers.{
  Fills-starts, Chain-after, append-Chain, append-at_before, append-at_behind, append-StartsBefore,
  append-EndsAfter,
}
use dadi_fast_cdc.Lsmt.Combo.{lookup_gap}

-- Mappings from `b` on, before the edges are cut, as `Answers` has them after.
pub record Reaches (lo b to n : ℕ) (f : ℕ → Option Place) (out : List SegmentMapping) : Type 0 where
  pub in_order : Chain lo out
  pub after : EndsAfter b out
  pub starts : StartsBefore to out
  pub room : length out ≤ n
  pub same : (x : ℕ) → b ≤ x → x < reach (length out) n to (last_end lo out) → at out x ≡ f x

last_end-append :
    (lo : ℕ) (xs : List SegmentMapping) (y : SegmentMapping) (ys : List SegmentMapping)
    → last_end lo (xs ++ y ∷ ys) ≡ last_end (end y) ys
last_end-append lo [] y ys = refl
last_end-append lo (x ∷ xs) y ys = last_end-append (end x) xs y ys

EndsBy-le : (hi hi' : ℕ) (ms : List SegmentMapping) → hi ≤ hi' → EndsBy hi ms → EndsBy hi' ms
EndsBy-le hi hi' [] h e = tt
EndsBy-le hi hi' (m ∷ ms) h e = (omega (arith, e), EndsBy-le hi hi' ms h e.1)

-- The lookup of a gap answers for it: all of it where there is room left, and nothing more.
pub record Gap (i : Index) (b to n : ℕ) (out : List SegmentMapping) : Type 0 where
  pub in_order : Chain b out
  pub within : EndsBy to out
  pub room : length out ≤ n
  pub same :
      (x : ℕ) → b ≤ x → x < reach (length out) n to (last_end b out) → at out x ≡ at i.mapping x

pub lookup_gap-Gap :
    (i : Index) (b to n : ℕ)
    → Chain 0 i.mapping
    → 0 < n
    → to ≤ 2 ^ 50
    → to < b + 2 ^ 14
    → Gap i b to n (lookup_gap i b to n)
unfolding lookup_gap
lookup_gap-Gap i b to n c pos low short = elim (Bool-cases (ltb b to)) [
  | inr t ↦ rw t (record {
    in_order = tt;
    within = tt;
    room = omega arith;
    same = λ x a d. absurd (ground arith);
  })
  | inl t ↦
      let answer =
        lookup-Answers i.mapping (record { offset = b; length = (to - b) % 2 ^ 14 }) n 0 c
          (ground arith) pos in
      let kept : b % 2 ^ 50 ≡ b = ground arith in
      let stop : b + (to - b) % 2 ^ 14 ≡ to = ground arith in
      rw (t, kept)
        (record {
          in_order = answer.in_order;
          within = EndsBy-le _ to _ (omega (arith, stop)) answer.within;
          room = answer.room;
          same = λ x a d. answer.same x a (ground arith);
        })
]

module _ (i : Index) (c : Chain 0 i.mapping) (send : ℕ) (low_end : send ≤ 2 ^ 50) where
  -- Nothing is left of the set before `send`.
  pub rest-Reaches :
      (lo b n : ℕ) (f : ℕ → Option Place)
      → lo ≤ b
      → send < b + 2 ^ 14
      → (0 < n → (x : ℕ) → x < send → f x ≡ at i.mapping x)
      → Reaches lo b send n f (if n == 0 then [] else lookup_gap i b send n)
  rest-Reaches lo b n f h short same = elim (Bool-cases (n == 0)) [
    | inl t ↦ rw t (record {
      in_order = tt;
      after = tt;
      starts = tt;
      room = omega arith;
      same = λ x a d. absurd (ground arith);
    })
    | inr t ↦
        let gap = lookup_gap-Gap i b send n c (ground arith) low_end short in
        let out = lookup_gap i b send n in
        rw t (record {
          in_order = Chain-le b lo out h gap.in_order;
          after = Chain-after b out gap.in_order;
          starts = Fills-starts b send send out gap.in_order gap.within (omega arith);
          room = gap.room;
          same = λ x a d.
              gap.same x a (ground (arith, last_end-any lo b out))
              ∙ sym (
                  same (ground arith) x (
                    ground (
                      arith,
                      gap.room,
                      last_end-any lo b out,
                      last_end-EndsBy b send out gap.within,
                    )));
        })
  ]

  -- The gap before an element uses up the room.
  pub full-Reaches :
      (lo b n to : ℕ) (gap : List SegmentMapping) (f : ℕ → Option Place)
      → Gap i b to n gap
      → lo ≤ b
      → 0 < n
      → length gap ≡ n
      → to < send
      → ((x : ℕ) → x < to → f x ≡ at i.mapping x)
      → Reaches lo b send n f (gap ++ [])
  full-Reaches lo b n to gap f g h pos full before_send same =
      let any = last_end-any lo b gap (omega arith) in
      let stop = last_end-EndsBy b to gap g.within (omega arith) in
      rw (append-nil gap) (record {
        in_order = Chain-le b lo gap h g.in_order;
        after = Chain-after b gap g.in_order;
        starts = Fills-starts b to send gap g.in_order g.within (omega arith);
        room = g.room;
        same = λ x a d. g.same x a (ground (arith, any)) ∙ sym (same x (ground (arith, any, stop)));
      })

  -- The gap before an element, the element and what is behind.
  pub element-Reaches :
      (lo b n : ℕ) (it : SegmentMapping) (gap behind : List SegmentMapping) (f g : ℕ → Option Place)
      → Fits it
      → Gap i b it.offset n gap
      → lo ≤ b
      → lo ≤ it.offset
      → it.offset < send
      → b < end it
      → length gap < n
      → Reaches (end it) (end it) send (n - length gap - 1) f behind
      → ((x : ℕ) → x < it.offset → g x ≡ at i.mapping x)
      → ((x : ℕ) → it.offset ≤ x → g x ≡ (if covers it x then some (place it x) else f x))
      → Reaches lo b send n g (gap ++ it ∷ behind)
  unfolding at
  element-Reaches lo b n it gap behind f g fits gp h low begins ends left rest front back =
      let chain : Chain it.offset (it ∷ behind) = (omega arith, fits, rest.in_order) in
      let count = length-append gap (it ∷ behind) in
      let last = last_end-append lo gap it behind in
      record {
        in_order =
            append-Chain (it ∷ behind) it.offset lo gap low (Chain-le b lo gap h gp.in_order)
              gp.within chain;
        after = append-EndsAfter b gap (it ∷ behind) (Chain-after b gap gp.in_order) ends;
        starts =
            append-StartsBefore send gap (it ∷ behind)
              (Fills-starts b it.offset send gap gp.in_order gp.within (omega arith))
              (begins, rest.starts);
        room = omega (arith, count, rest.room);
        same = λ x a d. elim (Bool-cases (ltb x it.offset)) [
          | inl u ↦
              append-at_before (it ∷ behind) it.offset gap x chain (ground arith)
              ∙ gp.same x a (ground arith)
              ∙ sym (front x (ground arith))
          | inr u ↦
              append-at_behind (it ∷ behind) it.offset gap x gp.within (ground arith)
              ∙ ground (arith, rest.same x, count, last)
              ∙ sym (back x (ground arith))
        ];
      }
