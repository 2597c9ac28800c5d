-- ===== src/Lsmt/File/Tests.antt =====
-- A data file and an index file that are lists, and calls of `LSMTFile` of src/overlaybd/lsmt/file.cpp on them.
use dadi_fast_cdc.Prelude.{◌≤◌, ◌∙◌, get_or, none, Option}
use dadi_fast_cdc.Prelude.{
  ℕ, zero, suc, ◌+◌, ◌≡◌, ◌<◌, refl, ap, Bool, true, false, some, List, [], ◌∷◌, ◌++◌, arith,
}
use dadi_fast_cdc.Prelude.{length, length-append, get_elem?, replicate}
use dadi_fast_cdc.Lsmt.Segment.{SegmentMapping, lower_bound}
use dadi_fast_cdc.Lsmt.Segment.Place.{at}
use dadi_fast_cdc.Lsmt.Index0.{insert, set_insert, passed, clear_from, create}
use dadi_fast_cdc.Lsmt.File.{
  LsmtFile, do_group_commit_mappings, append_index, mapping_of, write_piece, pwrite, open_index,
}
use dadi_fast_cdc.Lsmt.File.Content.{AppendLaws, Stored, Written}
use dadi_fast_cdc.Lsmt.File.Write.{pwrite-Written}
use dadi_fast_cdc.Lsmt.File.Pread.{pread}
use dadi_fast_cdc.Lsmt.File.Read.{ReadLaws, Holds, pread-Holds}
use dadi_fast_cdc.Lsmt.File.RoundTrip.{pread-pwrite}
use dadi_fast_cdc.Lsmt.File.Session.{opened, wrote, open_index-Session}

abbrev append {ℓ} : {A : Type ℓ} → List A → List A → List A × Bool
append xs ys = (xs ++ ys, true)

get_elem?-append_left :
    (xs ys : List ℕ) (i : ℕ) → i < length xs → get_elem? (xs ++ ys) i ≡ get_elem? xs i
get_elem?-append_left [] ys i h = absurd (omega arith)
get_elem?-append_left (x ∷ xs) ys zero h = refl
get_elem?-append_left (x ∷ xs) ys (suc i) h = get_elem?-append_left xs ys i (omega arith)

get_elem?-append_right :
    (xs ys : List ℕ) (i : ℕ) → get_elem? (xs ++ ys) (length xs + i) ≡ get_elem? ys i
get_elem?-append_right [] ys i = ap (λ k. get_elem? ys k) (omega arith)
get_elem?-append_right (x ∷ xs) ys i = rw (suc_add (length xs) i) (get_elem?-append_right xs ys i)
  where
    suc_add : (a b : ℕ) → suc a + b ≡ suc (a + b)
    suc_add a b = omega arith

list-AppendLaws : AppendLaws {A = ℕ} {F = List ℕ} length append get_elem?
list-AppendLaws = record {
  grows = λ f xs e. length-append f xs;
  keeps = λ f xs x h. get_elem?-append_left f xs x h;
  adds = λ f xs i e h. get_elem?-append_right f xs i;
}

-- The header, and nothing yet; the buffer has room for three mappings.
abbrev fresh : LsmtFile (List ℕ) (List SegmentMapping)
fresh = record {
  fdata = replicate 8 0;
  findex = [];
  index = record { mapping = []; m_alloc = 0 };
  stacked = [];
  capacity = 3;
  vsize = 0;
}

fresh-Stored : Stored length fresh
unfolding at
fresh-Stored = record {
  counted = record { in_order = tt; counted = refl };
  below = λ x. tt;
  buffered = omega arith;
}

pwrite-Written_example :
    (f' : LsmtFile (List ℕ) (List SegmentMapping)) × (pwrite length append append 2 4 fresh
        (7 ∷ 8 ∷ 9 ∷ [])
        5
      ≡ some (f', true))
    × Written length get_elem? 0 fresh f' (7 ∷ 8 ∷ 9 ∷ []) 5
pwrite-Written_example =
    pwrite-Written length append append (λ g ms. refl) get_elem? 0 list-AppendLaws (λ d xs. refl) 2
      4 fresh (7 ∷ 8 ∷ 9 ∷ []) 5 (omega arith) (omega arith) fresh-Stored (omega arith)
      (omega arith) (omega arith) (omega arith) (omega arith)

abbrev mapping : SegmentMapping
mapping = record { offset = 5; length = 2; moffset = 8; zeroed = false; tag = 0 }

abbrev after : LsmtFile (List ℕ) (List SegmentMapping)
after = record {
  fdata = replicate 8 0 ++ 7 ∷ 8 ∷ [];
  findex = [];
  index = record { mapping = mapping ∷ []; m_alloc = 2 };
  stacked = mapping ∷ [];
  capacity = 3;
  vsize = 7;
}

write_run : write_piece length append append fresh (7 ∷ 8 ∷ []) 5 ≡ some (after, true)
unfolding write_piece append_index mapping_of insert set_insert passed clear_from lower_bound
write_run = refl

fresh_index : fresh.index ≡ create []
unfolding create
fresh_index = refl

open_index-Session_example :
    open_index
      (do_group_commit_mappings length append append after).0.findex
      (length (do_group_commit_mappings length append append after).0.fdata)
    ≡ some after.index
open_index-Session_example =
    open_index-Session length append append (λ g. g) (λ g ms. refl) (λ g ms. refl)
      (λ f xs e. length-append f xs) after
      (wrote fresh after (7 ∷ 8 ∷ []) 5 (opened fresh refl refl fresh_index) (omega arith)
        (omega arith) (omega arith) (omega arith) (omega arith) write_run)

-- The elements from `pos` on, `n` at most.
abbrev slice : List ℕ → ℕ → ℕ → List ℕ
slice [] pos n = []
slice (x ∷ xs) zero zero = []
slice (x ∷ xs) zero (suc n) = x ∷ slice xs zero n
slice (x ∷ xs) (suc pos) n = slice xs pos n

slice-le : (xs : List ℕ) (pos n : ℕ) → length (slice xs pos n) ≤ n
slice-le [] pos n = omega arith
slice-le (x ∷ xs) zero zero = omega arith
slice-le (x ∷ xs) zero (suc n) = omega (arith, slice-le xs zero n)
slice-le (x ∷ xs) (suc pos) n = slice-le xs pos n

slice_short :
    (xs : List ℕ) (pos n : ℕ)
    → length (slice xs pos n) < n
    → length xs ≤ pos + length (slice xs pos n)
slice_short [] pos n h = omega arith
slice_short (x ∷ xs) zero zero h = absurd (omega arith)
slice_short (x ∷ xs) zero (suc n) h = omega (arith, slice_short xs zero n (omega arith))
slice_short (x ∷ xs) (suc pos) n h = omega (arith, slice_short xs pos n h)

get_or-slice :
    (xs : List ℕ) (pos n i : ℕ)
    → i < length (slice xs pos n)
    → get_elem? xs (pos + i) ≡ some (get_or (slice xs pos n) i 0)
get_or-slice [] pos n i h = absurd (omega arith)
get_or-slice (x ∷ xs) zero zero i h = absurd (omega arith)
get_or-slice (x ∷ xs) zero (suc n) zero h = refl
get_or-slice (x ∷ xs) zero (suc n) (suc i) h =
    ap (λ k. get_elem? (x ∷ xs) k) (next i) ∙ get_or-slice xs zero n i (omega arith)
  where
    next : (i : ℕ) → 0 + suc i ≡ suc (0 + i)
    next i = omega arith
get_or-slice (x ∷ xs) (suc pos) n i h =
    ap (λ k. get_elem? (x ∷ xs) k) (next pos i) ∙ get_or-slice xs pos n i h
  where
    next : (a b : ℕ) → suc a + b ≡ suc (a + b)
    next a b = omega arith

get_elem?-behind : (xs : List ℕ) (i : ℕ) → length xs ≤ i → get_elem? xs i ≡ none
get_elem?-behind [] i h = refl
get_elem?-behind (x ∷ xs) zero h = absurd (omega arith)
get_elem?-behind (x ∷ xs) (suc i) h = get_elem?-behind xs i (omega arith)

slice_behind : (xs : List ℕ) (pos n : ℕ) → length xs ≤ pos → slice xs pos n ≡ []
slice_behind [] pos n h = refl
slice_behind (x ∷ xs) zero n h = absurd (omega arith)
slice_behind (x ∷ xs) (suc pos) n h = slice_behind xs pos n (omega arith)

abbrev pread_list : List ℕ → ℕ → ℕ → Option (List ℕ)
pread_list d pos n = some (slice d pos n)

list-ReadLaws : ReadLaws {A = ℕ} {F = List ℕ} length get_elem? pread_list 0
list-ReadLaws = record {
  got = slice;
  answers = λ d pos n. refl;
  bounded = slice-le;
  short = slice_short;
  sectors = get_or-slice;
  behind = get_elem?-behind;
  at_end = λ d pos n h. ap (λ xs. some xs) (slice_behind d pos n h);
}

pread-Holds_example :
    (buf : List ℕ) × (pread pread_list 0 2 4 fresh 3 5 ≡ some (buf, none))
    × Holds length get_elem? pread_list 0 list-ReadLaws fresh.fdata (at fresh.index.mapping) 5 8 buf
pread-Holds_example =
    pread-Holds length get_elem? pread_list 0 list-ReadLaws 2 4 fresh 3 5 fresh-Stored (omega arith)
      (omega arith) (omega arith) (omega arith)

pread-pwrite_example :
    (f' : LsmtFile (List ℕ) (List SegmentMapping)) × (pwrite length append append 2 4 fresh
        (7 ∷ 8 ∷ 9 ∷ [])
        5
      ≡ some (f', true))
    × (pread pread_list 0 2 4 f' 3 5 ≡ some (7 ∷ 8 ∷ 9 ∷ [], none))
pread-pwrite_example =
    pread-pwrite length append append (λ g ms. refl) get_elem? pread_list 0 list-AppendLaws
      list-ReadLaws (λ d xs. refl) 2 fresh (7 ∷ 8 ∷ 9 ∷ []) 5 (omega arith) (omega arith)
      fresh-Stored (omega arith) (omega arith) (omega arith) (omega arith)
