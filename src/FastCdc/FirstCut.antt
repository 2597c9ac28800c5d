-- ===== src/FastCdc/FirstCut.antt =====
-- What `cdc_origin_64` and `normalized_chunking_64` of FastCDC-c/fastcdc.c return: the first cut
-- of the fingerprint, or the end of the data that they look at.
use dadi_fast_cdc.Prelude.{ℕ, ◌+◌, ◌-◌, ◌≤◌, ◌<◌, min, ◌≡◌, refl, ap, ◌∙◌}
use dadi_fast_cdc.Prelude.{◌⊎◌, inl, inr, some, false, List, arith, length}
use dadi_fast_cdc.Prelude.{ltb, leb, if◌then◌else◌, Bool-cases, leb→le}
use dadi_fast_cdc.FastCdc.Globals.{Globals, fing_gear_08kb_64, fing_gear_02kb_64, fing_gear_32kb_64}
use dadi_fast_cdc.FastCdc.Chunking.{
  Scan, scan, finish, after, mid_size, cdc_origin_64, normalized_chunking_64,
}
use dadi_fast_cdc.FastCdc.Fingerprint.{
  IsBytes, fingerprint, IsCut, NoCut, Scanned, at_cut, at_end, scan-Scanned, fingerprint-zero,
}

-- A loop over `from .. hi - 1`, begun at `lo`, returns its first cut, or `hi` if there is none.
abbrev pub EndsAt : ℕ → List ℕ → ℕ → ℕ → ℕ → ℕ → Type 0
EndsAt mask p lo from hi r =
    ((from ≤ r) × (r < hi) × IsCut mask p lo r × NoCut mask p lo from r)
    ⊎ ((r ≡ hi) × NoCut mask p lo from hi)

-- Data of at most `lo` bytes is one chunk; other data ends by the loop from `lo`.
abbrev pub OriginChunk : Globals → List ℕ → ℕ → ℕ → Type 0
OriginChunk g p n r =
    ((n ≤ g.min_size) × (r ≡ n))
    ⊎ ((g.min_size < n) × EndsAt fing_gear_08kb_64 p g.min_size g.min_size (min n g.max_size) r)

-- The stricter mask up to `min n 8192`, and the looser one from there on.
abbrev pub NormalizedChunk : Globals → List ℕ → ℕ → ℕ → Type 0
NormalizedChunk g p n r =
    let hi = min n g.max_size in
    let mid = min hi 8192 in
    ((n ≤ 6144) × (r ≡ n))
    ⊎ ((6144 < n)
        × (6144 ≤ r)
        × (r < mid)
        × IsCut fing_gear_32kb_64 p 6144 r
        × NoCut fing_gear_32kb_64 p 6144 6144 r)
    ⊎ ((6144 < n)
        × NoCut fing_gear_32kb_64 p 6144 6144 mid
        × EndsAt fing_gear_02kb_64 p 6144 mid hi r)

abbrev pub clip : ℕ → ℕ → ℕ
clip n m = if ltb m n then m else n

pub clip-min : (n m : ℕ) → clip n m ≡ min n m
clip-min n m = ground arith

module _ (mask : ℕ) (p : List ℕ) (lo : ℕ) where
  finish-EndsAt :
      (from hi end : ℕ) (s : Scan)
      → (end ≡ hi) ⊎ ((end ≡ from) × (hi ≤ from))
      → Scanned mask p lo from end s
      → (r : ℕ) × (finish hi s ≡ some r) × EndsAt mask p lo from hi r
  unfolding finish
  finish-EndsAt from hi end s ends (at_cut r a b is no_cut) =
      (r, refl, inl (a, omega arith, is, no_cut))
  finish-EndsAt from hi end s ends (at_end j fp e f no_cut) =
      (hi, refl, inr (refl, λ k a b. no_cut k a (omega arith)))

  loop_ends :
      (from hi fp : ℕ)
      → IsBytes p
      → lo ≤ from
      → from ≤ length p
      → hi ≤ length p
      → fp ≡ fingerprint p lo (from - lo)
      → (r : ℕ) × (finish hi (scan mask p (hi - from) from fp) ≡ some r)
        × EndsAt mask p lo from hi r
  loop_ends from hi fp bytes a b c f =
      finish-EndsAt from hi (from + (hi - from)) _ (ground arith) (
        scan-Scanned mask p lo (hi - from) from (from + (hi - from)) fp bytes a refl (omega arith)
          f)

-- One loop after another, with the masks `mask` and `mask'`.
pub two_loops :
    (mask mask' : ℕ) (p : List ℕ) (lo mid hi : ℕ) (s : Scan)
    → IsBytes p
    → lo ≤ mid
    → mid ≤ hi
    → hi ≤ length p
    → Scanned mask p lo lo mid s
    → (r : ℕ) × (finish hi (after s (λ i fp. scan mask' p (hi - i) i fp)) ≡ some r)
      × (((lo ≤ r) × (r < mid) × IsCut mask p lo r × NoCut mask p lo lo r)
          ⊎ (NoCut mask p lo lo mid × EndsAt mask' p lo mid hi r))
unfolding finish
two_loops mask mask' p lo mid hi s bytes a b c (at_cut r from to is no_cut) =
    (r, refl, inl (from, to, is, no_cut))
two_loops mask mask' p lo mid hi s bytes a b c (at_end j fp e f no_cut) =
    let second = loop_ends mask' p lo mid hi fp bytes a (omega arith) c f in
    (
      second.0,
      ap (λ k. finish hi (scan mask' p (hi - k) k fp)) e ∙ second.1,
      inr (no_cut, second.2),
    )

-- `cdc_origin_64` reads no byte outside its buffer, and returns the whole of short data, else the
-- first index from `MinSize` on at which the masked fingerprint is zero, else the end of what it
-- looks at, `min n MaxSize`.
pub cdc_origin_64-OriginChunk :
    (g : Globals) (p : List ℕ) (n : ℕ)
    → IsBytes p
    → n ≤ length p
    → (r : ℕ) × (cdc_origin_64 g p n ≡ some r) × OriginChunk g p n r
unfolding cdc_origin_64
cdc_origin_64-OriginChunk g p n bytes fits = elim (Bool-cases (leb n g.min_size)) [
  | inl t ↦ (n, rw t, inl (leb→le _ _ t, refl))
  | inr t ↦
      let long : g.min_size < n = ground arith in
      let loop =
        loop_ends fing_gear_08kb_64 p g.min_size g.min_size (clip n g.max_size) 0 bytes
          (omega arith) (omega arith) (rw clip-min (omega arith)) (fingerprint-zero p g.min_size) in
      (loop.0, rw t loop.1, inr (long, rw clip-min at loop.2))
]

pub mid_size-min :
    (g : Globals) (n : ℕ)
    → (n ≤ g.max_size) ⊎ (8192 ≤ g.max_size)
    → mid_size g n ≡ min (min n g.max_size) 8192
mid_size-min g n h = ground arith

-- The long case, from the result of the two loops.
normalized_long :
    (g : Globals) (p : List ℕ) (n mid hi r : ℕ)
    → leb n 6144 ≡ false
    → mid_size g n ≡ mid
    → clip n g.max_size ≡ hi
    → finish hi (
        after
          (scan fing_gear_32kb_64 p (mid - 6144) 6144 0)
          (λ i fp. scan fing_gear_02kb_64 p (hi - i) i fp))
      ≡ some r
    → normalized_chunking_64 g p n ≡ (some r, record g { min_size = 6144 })
unfolding normalized_chunking_64
normalized_long g p n mid hi r t m c e = rw (t, m, c, e)

-- If the data fits `MaxSize` or that is at least 8192, `normalized_chunking_64` reads no byte
-- outside its buffer; it returns the whole of data of at most 6144 bytes, else the first cut of the
-- stricter mask in 6144 .. min n 8192 - 1, else the first cut of the looser mask after that, else
-- `min n MaxSize`. It leaves `MinSize` at 6144 and no other variable changed.
pub normalized_chunking_64-NormalizedChunk :
    (g : Globals) (p : List ℕ) (n : ℕ)
    → IsBytes p
    → n ≤ length p
    → (n ≤ g.max_size) ⊎ (8192 ≤ g.max_size)
    → (r : ℕ) × (normalized_chunking_64 g p n ≡ (some r, record g { min_size = 6144 }))
      × NormalizedChunk g p n r
unfolding normalized_chunking_64
normalized_chunking_64-NormalizedChunk g p n bytes fits wide = elim (Bool-cases (leb n 6144)) [
  | inl t ↦ (n, rw t, inl (leb→le _ _ t, refl))
  | inr t ↦
      let long : 6144 < n = ground arith in
      let hi = min n g.max_size in
      let mid = min hi 8192 in
      let roomy : 6144 ≤ mid = omega arith in
      let first =
        scan-Scanned fing_gear_32kb_64 p 6144 (mid - 6144) 6144 mid 0 bytes (omega arith)
          (omega arith) (omega arith) (fingerprint-zero p 6144) in
      let both =
        two_loops fing_gear_32kb_64 fing_gear_02kb_64 p 6144 mid hi _ bytes roomy (omega arith)
          (omega arith) first in
      (
        both.0,
        normalized_long g p n mid hi both.0 t (mid_size-min g n wide) (clip-min n g.max_size)
            both.1,
        elim both.2 [
          | inl (a, b, is, none_before) ↦ inr (inl (long, a, b, is, none_before))
          | inr (none_before, ends) ↦ inr (inr (long, none_before, ends))
        ],
      )
]
