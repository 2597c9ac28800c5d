-- ===== src/Zfile/JumpTable/Total.antt =====
-- When `JumpTable::build` of src/overlaybd/zfile/zfile.cpp succeeds.
use mathlib.Core.List.{append_assoc, append-nil}
use mathlib.Core.Path.{subst}
use dadi_fast_cdc.Prelude.{
  ℕ, suc, ◌+◌, ◌-◌, ◌*◌, ◌/◌, ◌%◌, ◌^◌, ◌≤◌, ◌<◌, ◌≡◌, ◌≢◌, refl, sym, ap, ◌∙◌, inl, inr, some,
  Bool, false, bit_and, ==_iff, ==_false,
}
use dadi_fast_cdc.Prelude.{
  List, [], ◌∷◌, ◌++◌, leb, ◌==◌, arith, Bool-cases, length, length-append, get_or,
  get_elem?-eq-get_or, take, sum, sum-append, All,
}
use native.Mathlib.Nat.{one-le-pow, zero-div}
use dadi_fast_cdc.Prelude.Bits.{bit_and-mask}
use dadi_fast_cdc.Zfile.JumpTable.{
  JumpTable, built, crc_size, uinttype_max, push_group, push_delta, delta_after, build_from,
  empty_table, build, at_index,
}
use dadi_fast_cdc.Zfile.JumpTable.Groups.{delta_bound, groups_up}
use dadi_fast_cdc.Zfile.JumpTable.Built.{
  IsBuilt, IsTable, push_group-IsBuilt, push_delta-IsBuilt, get_or-snoc_last,
}

-- Blocks longer than their checksum, and none longer than `longest`.
abbrev pub IsLength : Bool → ℕ → ℕ → Type 0
IsLength enable_crc longest len = (crc_size enable_crc < len) × (len ≤ longest)

module _ (enable_crc : Bool) (begin longest : ℕ) (all : List ℕ) where
  -- From round `i` with a table of the blocks `lens`.
  build_from-IsBuilt :
      (ibuf lens : List ℕ) (i raw_offset : ℕ) (t : JumpTable)
      → IsBuilt t begin lens
      → all ≡ lens ++ ibuf
      → i ≡ suc (length lens)
      → raw_offset ≡ begin + sum lens
      → All (IsLength enable_crc longest) ibuf
      → (t.group_size - 1) * longest < uinttype_max
      → get_or t.deltas (length lens) 0 ≤ length lens % t.group_size * longest
      → (t' : JumpTable) × (build_from enable_crc ibuf i raw_offset t ≡ built t')
        × IsBuilt t' begin all
        × (t'.group_size ≡ t.group_size)
  unfolding build_from
  build_from-IsBuilt [] lens i raw_offset t h e ei er sizes few low =
      (t, refl, subst (λ l. IsBuilt t begin l) (sym (e ∙ append-nil lens)) h, refl)
  build_from-IsBuilt (len ∷ ibuf) lens i raw_offset t h e ei er sizes few low =
      let n = length lens in
      let longer : leb len (crc_size enable_crc) ≡ false = ground (arith, sizes.0.0) in
      let more = length-append lens (len ∷ []) in
      let round : suc i ≡ suc (length (lens ++ (len ∷ []))) = omega (arith, more) in
      let place : raw_offset + len ≡ begin + sum (lens ++ (len ∷ [])) =
        omega (arith, sum-append lens (len ∷ [])) in
      let joined = e ∙ sym (append_assoc lens (len ∷ []) ibuf) in
      let delta = delta_after t i len in
      let slot : i - 1 ≡ n = omega arith in
      let last : suc n ≡ length (lens ++ (len ∷ [])) = omega (arith, more) in
      elim (Bool-cases (i % t.group_size == 0)) [
        | inl y ↦
            let divides : suc n % t.group_size ≡ 0 =
              sym (ap (λ (k : ℕ). k % t.group_size) ei) ∙ (==_iff (i % t.group_size) 0).0 y in
            let h1 = push_group-IsBuilt t begin len lens h divides in
            let deltas1 : List ℕ = t.deltas ++ (0 ∷ []) in
            let low1 : get_or deltas1 (length (lens ++ (len ∷ []))) 0
                ≤ length (lens ++ (len ∷ [])) % t.group_size * longest =
              omega (
                arith,
                get_or-snoc_last t.deltas 0 (length (lens ++ (len ∷ [])))
                    (omega (arith, more, h.deltas_of)),
              ) in
            rw (longer, y)
              (build_from-IsBuilt ibuf (lens ++ (len ∷ [])) (suc i) (raw_offset + len)
                (push_group t (raw_offset + len))
                (subst (λ k. IsBuilt (push_group t k) begin (lens ++ (len ∷ []))) (omega arith) h1)
                joined round place sizes.1 few low1)
        | inr y ↦
            let inside : suc n % t.group_size ≢ 0 =
              λ z. ==_false (i % t.group_size) 0 y (ap (λ (k : ℕ). k % t.group_size) ei ∙ z) in
            let bound =
              delta_bound n t.group_size longest (get_or t.deltas n 0) len uinttype_max h.some_group
                inside low sizes.0.1 few in
            let same = ap (λ k. get_or t.deltas k 0) slot in
            let small : leb uinttype_max delta ≡ false = ground (arith, bound.1, same) in
            let h1 = push_delta-IsBuilt t begin len lens h inside in
            let deltas1 : List ℕ = t.deltas ++ (delta ∷ []) in
            let low1 : get_or deltas1 (length (lens ++ (len ∷ []))) 0
                ≤ length (lens ++ (len ∷ [])) % t.group_size * longest =
              omega (
                arith,
                bound.0,
                same,
                ap (λ (k : ℕ). k % t.group_size * longest) last,
                get_or-snoc_last t.deltas delta (length (lens ++ (len ∷ [])))
                    (omega (arith, more, h.deltas_of)),
              ) in
            rw (longer, y, small)
              (build_from-IsBuilt ibuf (lens ++ (len ∷ [])) (suc i) (raw_offset + len)
                (push_delta t i len)
                (subst (λ k. IsBuilt (push_delta t k len) begin (lens ++ (len ∷ []))) (sym ei) h1)
                joined round place sizes.1 few low1)
      ]

-- A table with groups of a power of two gives the places.
IsBuilt-IsTable :
    (k : ℕ) (t : JumpTable) (begin : ℕ) (lens : List ℕ)
    → t.group_size ≡ 2 ^ k
    → IsBuilt t begin lens
    → IsTable t begin lens
unfolding at_index
IsBuilt-IsTable k t begin lens power h = record { places = λ i le. place i le }
  where
    place : (i : ℕ) → i ≤ length lens → at_index t i ≡ some (begin + sum (take i lens))
    place i le =
        let inner : bit_and i (t.group_size - 1) ≡ i % t.group_size = rw power (bit_and-mask k i) in
        let part =
          get_elem?-eq-get_or t.partial_offset (i / t.group_size) 0
            (omega (arith, h.parts_of, groups_up i (length lens) t.group_size h.some_group le)) in
        let delta = get_elem?-eq-get_or t.deltas i 0 (omega (arith, h.deltas_of)) in
        rw (inner, part, delta)
          (elim (Bool-cases (i % t.group_size == 0)) [
            | inl y ↦ rw y (
                ap some (
                  omega (arith, h.offsets i le, h.starts i le ((==_iff (i % t.group_size) 0).0 y))))
            | inr y ↦ rw y (ap some (h.offsets i le))
          ])

none_but : (i : ℕ) → i ≤ 0 → i ≡ 0
none_but i h = omega arith

-- `build` of block lengths that are longer than a checksum and at most `longest`, where the blocks
-- of a group but one come to less than 65535 bytes, for a block size of 1 to 65536 whose group size,
-- 65536 divided by it, is a power of two: it succeeds, and `operator[]` of each block, and of the
-- place behind the last one, is where the lengths before it end.
pub build-IsTable :
    (k : ℕ) (ibuf : List ℕ) (offset_begin block_size : ℕ) (enable_crc : Bool) (longest : ℕ)
    → 0 < block_size
    → 65536 / block_size ≡ 2 ^ k
    → (2 ^ k - 1) * longest < 65535
    → All (IsLength enable_crc longest) ibuf
    → (t : JumpTable) × (build ibuf offset_begin block_size enable_crc ≡ built t)
      × IsTable t offset_begin ibuf
unfolding build
build-IsTable k ibuf offset_begin block_size enable_crc longest busy power few sizes =
    let g : ℕ = 65536 / block_size in
    let some_group : 0 < g = omega (arith, one-le-pow k 2 (omega arith)) in
    let small : (g - 1) * longest < uinttype_max =
      omega (arith, ap (λ (p : ℕ). (p - 1) * longest) power) in
    let no_zero : (block_size == 0) ≡ false = ground (arith, busy) in
    let no_group : (g == 0) ≡ false = ground (arith, some_group) in
    let start : IsBuilt (empty_table g offset_begin) offset_begin [] = record {
      some_group = some_group;
      deltas_of = refl;
      parts_of = omega (arith, zero-div g);
      starts = λ i le e. ap (λ (j : ℕ). get_or {A = ℕ} (0 ∷ []) j 0) (none_but i le);
      offsets = λ i le.
          ap (λ (j : ℕ). get_or {A = ℕ} (offset_begin ∷ []) (j / g) 0 + get_or {A = ℕ} (0 ∷ []) j 0)
            (none_but i le)
          ∙ ap (λ (j : ℕ). get_or {A = ℕ} (offset_begin ∷ []) j 0 + 0) (zero-div g)
          ∙ omega (arith, ap (λ (j : ℕ). sum (take {A = ℕ} j [])) (none_but i le));
    } in
    let r =
      build_from-IsBuilt enable_crc offset_begin longest ibuf ibuf [] 1 offset_begin
        (empty_table g offset_begin) start refl refl (omega arith) sizes small (omega arith) in
    rw (no_zero, no_group) (r.0, r.1, IsBuilt-IsTable k r.0 offset_begin ibuf (r.3 ∙ power) r.2)
