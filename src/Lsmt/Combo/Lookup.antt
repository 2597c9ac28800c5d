-- ===== src/Lsmt/Combo/Lookup.antt =====
-- What `ComboIndex::lookup` of src/overlaybd/lsmt/index.cpp answers.
use dadi_fast_cdc.Prelude.{
  ℕ, ◌+◌, ◌-◌, ◌^◌, ◌≤◌, ◌<◌, ◌≡◌, refl, ap, ◌∙◌, inl, inr, false, none, some,
}
use dadi_fast_cdc.Prelude.{List, [], ◌∷◌, length, ltb, ◌==◌, ◌&&◌, not, arith, Bool-cases}
use dadi_fast_cdc.Lsmt.Segment.{Segment, SegmentMapping, segment_end, end, lower_bound}
use dadi_fast_cdc.Lsmt.Segment.Place.{at, Chain, at_before, at-lower_bound, lower_bound-Chain}
use dadi_fast_cdc.Lsmt.Segment.Trim.{EndsAfter, lower_bound-EndsAfter}
use dadi_fast_cdc.Lsmt.Index.{Index}
use dadi_fast_cdc.Lsmt.Index.Lookup.{Answers, Answers-trim}
use dadi_fast_cdc.Lsmt.Merge.Layers.{over, Chain-after}
use dadi_fast_cdc.Lsmt.Combo.{ComboIndex, lookup_gap, lookup_loop, combo_lookup}
use dadi_fast_cdc.Lsmt.Combo.Gaps.{
  Reaches, lookup_gap-Gap, rest-Reaches, full-Reaches, element-Reaches,
}

module _ (i : Index) (c : Chain 0 i.mapping) (send : ℕ) (low_end : send ≤ 2 ^ 50) where
  loop-Reaches :
      (lo b n : ℕ) (its : List SegmentMapping)
      → lo ≤ b
      → Chain lo its
      → EndsAfter b its
      → send < b + 2 ^ 14
      → Reaches lo b send n
          (λ x. over none (at its x) (at i.mapping x))
          (lookup_loop i send b n its)
  unfolding lookup_loop at
  loop-Reaches lo b n [] h chain after short =
      rest-Reaches i c send low_end lo b n (at i.mapping) h short (λ p x a. refl)
  loop-Reaches lo b n (it ∷ its) h chain after short =
      let none_before = λ (x : ℕ) (a : x < it.offset).
        ap (λ o. over none o (at i.mapping x))
          (at_before it.offset (it ∷ its) x (omega arith, chain.1, chain.2) a) in
      elim (Bool-cases (ltb it.offset send && not (n == 0))) [
        | inr t ↦
            rw t (
              rest-Reaches i c send low_end lo b n _ h short
                (λ p x a. none_before x (ground arith)))
        | inl t ↦
            let g = lookup_gap-Gap i b it.offset n c (ground arith) (ground arith) (ground arith) in
            let gap = lookup_gap i b it.offset n in
            elim (Bool-cases (n - length gap == 0)) [
              | inl full ↦
                  rw (t, full)
                    (full-Reaches i c send low_end lo b n it.offset gap _ g h (ground arith)
                      (ground (arith, g.room)) (ground arith) none_before)
              | inr left ↦
                  rw (t, left)
                    (element-Reaches i c send low_end lo b n it gap _
                      (λ x. over none (at its x) (at i.mapping x)) _ chain.1 g h chain.0
                      (ground arith) after (ground arith)
                      (loop-Reaches (end it) (end it) (n - length gap - 1) its (omega arith) chain.2
                        (Chain-after (end it) its chain.2) (omega arith))
                      none_before (λ x a. ground arith))
            ]
      ]

-- `ComboIndex::lookup` of a segment that is not empty and ends at sector 2^50 or before, with room for one mapping or more, where the
-- mappings of the set and of the read-only index are in order: it stores mappings in order, within
-- the segment and no more than there is room for, and they map each of its sectors as the set does,
-- and where that has nothing as the read-only index does; all of them if the room is not used up, and
-- else those before the end of the last one.
pub combo_lookup-Answers :
    (v : ComboIndex) (i : Index) (s : Segment) (n : ℕ)
    → v.backing ≡ some i
    → Chain 0 v.front.mapping
    → Chain 0 i.mapping
    → 0 < s.length
    → s.length < 2 ^ 14
    → segment_end s ≤ 2 ^ 50
    → 0 < n
    → Answers (λ x. over none (at v.front.mapping x) (at i.mapping x)) s n (combo_lookup v s n)
unfolding combo_lookup
combo_lookup-Answers v i s n known front back busy short low_end pos =
    let from = lower_bound s.offset v.front.mapping in
    let out =
      loop-Reaches i back (segment_end s) low_end 0 s.offset n from (omega arith)
        (lower_bound-Chain s.offset 0 v.front.mapping front)
        (lower_bound-EndsAfter s.offset v.front.mapping) (omega arith) in
    let some_length : (s.length == 0) ≡ false = ground arith in
    rw (some_length, known)
      (Answers-trim _ (lookup_loop i (segment_end s) s.offset n from) s 0 n out.in_order out.after
        out.starts busy out.room pos
        (λ x a d.
          out.same x a d
          ∙ ap (λ o. over none o (at i.mapping x)) (at-lower_bound s.offset v.front.mapping x a)))
