-- ===== src/Zfile/JumpTable/Built.antt =====
-- What `JumpTable::build` of src/overlaybd/zfile/zfile.cpp makes.
use dadi_fast_cdc.Prelude.{
  ℕ, zero, suc, ◌+◌, ◌-◌, ◌/◌, ◌%◌, ◌≤◌, ◌<◌, ◌≡◌, ◌≢◌, ◌⊎◌, refl, sym, ap, ◌∙◌, inl, inr, some,
}
use dadi_fast_cdc.Prelude.{
  List, [], ◌∷◌, ◌++◌, leb, arith, Bool-cases, length, length-append, get_or, take, take-all,
  take-append_left, sum, sum-append,
}
use dadi_fast_cdc.Zfile.JumpTable.Groups.{next_group, same_group, groups_up}
use dadi_fast_cdc.Zfile.JumpTable.{JumpTable, push_group, push_delta, delta_after, at_index}

-- `t` has the places of the blocks before and behind those of the lengths `lens`.
pub record IsTable (t : JumpTable) (begin : ℕ) (lens : List ℕ) : Type 0 where
  pub places : (i : ℕ) → i ≤ length lens → at_index t i ≡ some (begin + sum (take i lens))

-- The two vectors, over the number of blocks.
pub record IsBuilt (t : JumpTable) (begin : ℕ) (lens : List ℕ) : Type 0 where
  pub some_group : 0 < t.group_size
  pub deltas_of : length t.deltas ≡ suc (length lens)
  pub parts_of : length t.partial_offset ≡ suc (length lens / t.group_size)
  pub starts : (i : ℕ) → i ≤ length lens → i % t.group_size ≡ 0 → get_or t.deltas i 0 ≡ 0
  pub offsets :
      (i : ℕ)
      → i ≤ length lens
      → get_or t.partial_offset (i / t.group_size) 0 + get_or t.deltas i 0
        ≡ begin + sum (take i lens)

get_or-snoc : (xs : List ℕ) (x i : ℕ) → i < length xs → get_or (xs ++ (x ∷ [])) i 0 ≡ get_or xs i 0
get_or-snoc [] x i h = absurd (omega arith)
get_or-snoc (y ∷ xs) x zero h = refl
get_or-snoc (y ∷ xs) x (suc i) h = get_or-snoc xs x i (omega arith)

pub get_or-snoc_last : (xs : List ℕ) (x i : ℕ) → i ≡ length xs → get_or (xs ++ (x ∷ [])) i 0 ≡ x
get_or-snoc_last [] x zero h = refl
get_or-snoc_last [] x (suc i) h = absurd (omega arith)
get_or-snoc_last (y ∷ xs) x zero h = absurd (omega arith)
get_or-snoc_last (y ∷ xs) x (suc i) h = get_or-snoc_last xs x i (omega arith)

-- One block more: the sums before it stay, and the last is the sum of all.
take-snoc :
    (xs : List ℕ) (x i : ℕ) → i ≤ length xs → sum (take i (xs ++ (x ∷ []))) ≡ sum (take i xs)
take-snoc xs x i h = ap sum (take-append_left i xs (x ∷ []) h)

sum-snoc :
    (xs : List ℕ) (x i : ℕ) → i ≡ suc (length xs) → sum (take i (xs ++ (x ∷ []))) ≡ sum xs + x
sum-snoc xs x i h =
    ap sum (take-all i (xs ++ (x ∷ [])) (omega (arith, length-append xs (x ∷ []))))
    ∙ omega (arith, sum-append xs (x ∷ []))

one_more : (n : ℕ) → n + 1 ≡ suc n
one_more n = omega arith

one_less : (n : ℕ) → suc n - 1 ≡ n
one_less n = omega arith

module _ (t : JumpTable) (begin len : ℕ) (lens : List ℕ) (h : IsBuilt t begin lens) where
  up_to : (i : ℕ) → i ≤ length (lens ++ (len ∷ [])) → (i ≤ length lens) ⊎ (i ≡ suc (length lens))
  up_to i le = elim (Bool-cases (leb i (length lens))) [
    | inl y ↦ inl (ground arith)
    | inr n ↦ inr (ground (arith, length-append lens (len ∷ [])))
  ]

  -- Round `suc (length lens)` of the loop.
  pub push_group-IsBuilt :
      suc (length lens) % t.group_size ≡ 0
      → IsBuilt (push_group t (begin + sum lens + len)) begin (lens ++ (len ∷ []))
  push_group-IsBuilt divides =
      let place = begin + sum lens + len in
      let size = length-append lens (len ∷ []) in
      let next = next_group (length lens) t.group_size h.some_group divides in
      let grown = ap (λ (k : ℕ). k / t.group_size) size in
      let parts : length (t.partial_offset ++ (place ∷ []))
          ≡ suc (length (lens ++ (len ∷ [])) / t.group_size) =
        omega (
          arith,
          length-append t.partial_offset (place ∷ []),
          h.parts_of,
          next,
          grown,
          ap (λ (k : ℕ). k / t.group_size) (one_more (length lens)),
        ) in
      record {
        some_group = h.some_group;
        deltas_of = omega (arith, length-append t.deltas (0 ∷ []), h.deltas_of, size);
        parts_of = parts;
        starts = λ i le e. elim (up_to i le) [
          | inl old ↦ get_or-snoc t.deltas 0 i (omega (arith, h.deltas_of)) ∙ h.starts i old e
          | inr new ↦ get_or-snoc_last t.deltas 0 i (omega (arith, h.deltas_of))
        ];
        offsets = λ i le. elim (up_to i le) [
          | inl old ↦ omega (
            arith,
            get_or-snoc t.deltas 0 i (omega (arith, h.deltas_of)),
            get_or-snoc t.partial_offset place (i / t.group_size) (
                omega (arith, h.parts_of, groups_up i (length lens) t.group_size h.some_group old)),
            take-snoc lens len i old,
            h.offsets i old,
          )
          | inr new ↦ omega (
            arith,
            get_or-snoc_last t.deltas 0 i (omega (arith, h.deltas_of)),
            get_or-snoc_last t.partial_offset place (i / t.group_size)
                (ap (λ (k : ℕ). k / t.group_size) new ∙ omega (arith, next, h.parts_of)),
            sum-snoc lens len i new,
          )
        ];
      }

  pub push_delta-IsBuilt :
      suc (length lens) % t.group_size ≢ 0
      → IsBuilt (push_delta t (suc (length lens)) len) begin (lens ++ (len ∷ []))
  push_delta-IsBuilt inside =
      let delta = delta_after t (suc (length lens)) len in
      let size = length-append lens (len ∷ []) in
      let same = same_group (length lens) t.group_size h.some_group inside in
      let grown = ap (λ (k : ℕ). k / t.group_size) size in
      let parts : length t.partial_offset ≡ suc (length (lens ++ (len ∷ [])) / t.group_size) =
        omega (
          arith,
          h.parts_of,
          same,
          grown,
          ap (λ (k : ℕ). k / t.group_size) (one_more (length lens)),
        ) in
      let last : (i : ℕ)
          → i ≡ suc (length lens)
          → get_or t.partial_offset (i / t.group_size) 0 + get_or (t.deltas ++ (delta ∷ [])) i 0
            ≡ begin + sum (take i (lens ++ (len ∷ []))) =
        λ i new. omega (
          arith,
          get_or-snoc_last t.deltas delta i (omega (arith, h.deltas_of)),
          ap (λ (k : ℕ). get_or t.partial_offset (k / t.group_size) 0) new,
          ap (λ (k : ℕ). get_or t.partial_offset k 0) same,
          sum-snoc lens len i new,
          h.offsets (length lens) (omega arith),
          ap sum (take-all (length lens) lens (omega arith)),
          ap (λ (k : ℕ). get_or t.deltas k 0) (one_less (length lens)),
        ) in
      record {
        some_group = h.some_group;
        deltas_of = omega (arith, length-append t.deltas (delta ∷ []), h.deltas_of, size);
        parts_of = parts;
        starts = λ i le e. elim (up_to i le) [
          | inl old ↦ get_or-snoc t.deltas delta i (omega (arith, h.deltas_of)) ∙ h.starts i old e
          | inr new ↦ absurd (inside (sym (ap (λ (k : ℕ). k % t.group_size) new) ∙ e))
        ];
        offsets = λ i le. elim (up_to i le) [
          | inl old ↦ omega (
            arith,
            get_or-snoc t.deltas delta i (omega (arith, h.deltas_of)),
            take-snoc lens len i old,
            h.offsets i old,
          )
          | inr new ↦ last i new
        ];
      }
