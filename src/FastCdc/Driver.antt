-- ===== src/FastCdc/Driver.antt =====
-- `main` of FastCDC-c/fastcdc.c, the test driver that chunks a file through a window of `CacheSize`
-- bytes. `fopen` and `fread` are the C library's: the file is any type with a function that reads
-- at most as many bytes as asked. Timing and printing are left out. `method` of the source is the
-- constant 1, so that `chunking` is `cdc_origin_64`.
mod Tests
use dadi_fast_cdc.Prelude.{
  ℕ, zero, suc, ◌+◌, ◌-◌, ◌≤◌, ◌<◌, ◌≡◌, ◌≢◌, ◌⊎◌, refl, inl, inr, arith, Bool, true, false,
}
use dadi_fast_cdc.Prelude.{
  Option, none, some, List, ◌++◌, ◌&&◌, ltb, leb, ◌==◌, if◌then◌else◌, length, drop, take,
  replicate,
}
use dadi_fast_cdc.Prelude.{Bool-cases, Option-cases}
use dadi_fast_cdc.FastCdc.Globals.{Globals, cache_size, uninitialised, fast_cdc_init}
use dadi_fast_cdc.FastCdc.Chunking.{cdc_origin_64}

-- How `main` ends. `fault` is a read outside `fileCache`.
pub data Outcome : Type 0 where
  open_failed fault out_of_fuel : Outcome
  finished : ℕ → Outcome

module _ {File : Type 0} (fread : File → ℕ → List ℕ × File) where
  -- `end` can be -1, so it is kept plus one.
  pub record Window : Type 0 where
    pub file_cache : List ℕ
    pub offset : ℕ
    pub end_plus_one : ℕ
    pub read_flag : Bool
    pub chunk_num : ℕ
    pub random_file : File

  pub data Pass : Type 0 where
    go_on stop : Window → Pass
    overrun : Pass

  -- `memcpy(fileCache, fileCache + offset + 1, CacheSize - offset)`, which reads nothing where the
  -- count is 0.
  unfoldable pub shift_down : ℕ → List ℕ → ℕ → Option (List ℕ)
  shift_down size cache offset =
      let count = size - offset in
      if count == 0
      then some cache
      else if ltb (length cache) (offset + 1 + count)
      then none
      else some (take count (drop (offset + 1) cache) ++ drop count cache)

  -- Moves the rest of the window to its start and reads `offset` bytes behind it.
  unfoldable pub refill : ℕ → Window → Option Window
  unfolding shift_down
  refill size w = elim (shift_down size w.file_cache w.offset) [
    | none ↦ none
    | some cache ↦
        let rest = size - w.offset in
        let (bytes, file) = fread w.random_file w.offset in
        let read_status = length bytes in
        some (record w {
          file_cache = take rest cache ++ (bytes ++ drop (rest + read_status) cache);
          end_plus_one = rest + read_status;
          read_flag = if ltb read_status (w.offset + 1) then true else w.read_flag;
          random_file = file;
          offset = 0;
        })
  ]

  abbrev ends_here : Window → Pass
  ends_here w = if leb w.end_plus_one (w.offset + 1) && w.read_flag then stop w else go_on w

  abbrev refilled : Option Window → Pass
  refilled none = overrun
  refilled (some w) = ends_here w

  -- `CacheSize - offset < MaxSize`, an unsigned comparison.
  abbrev pub needs_refill : ℕ → Globals → ℕ → Bool
  needs_refill size g offset = leb offset size && ltb (size - offset) g.max_size

  -- One round of `for (;;)`.
  unfoldable pub pass : ℕ → Globals → Window → Pass
  unfolding refill
  pass size g w = elim (cdc_origin_64 g (drop w.offset w.file_cache) (size + 1 - w.offset)) [
    | none ↦ overrun
    | some chunk_length ↦
        let moved = record w { chunk_num = w.chunk_num + 1; offset = w.offset + chunk_length } in
        if needs_refill size g moved.offset then refilled (refill size moved) else ends_here moved
  ]

  unfoldable pub passes : ℕ → ℕ → Globals → Window → Outcome
  unfolding pass
  passes zero size g w = out_of_fuel
  passes (suc fuel) size g w = elim (pass size g w) [
    | overrun ↦ fault
    | stop w' ↦ finished w'.chunk_num
    | go_on w' ↦ passes fuel size g w'
  ]

  -- `memory` is what `malloc` gave, of which `memset` clears `sizeof(CacheSize)` bytes, those of an
  -- `int`; the last argument is what `fopen` gave.
  unfoldable pub main : ℕ → (List ℕ → List ℕ) → List ℕ → Option File → Outcome
  unfolding passes
  main fuel md5 memory none = open_failed
  main fuel md5 memory (some file) =
      let cleared = replicate 4 0 ++ drop 4 memory in
      let (bytes, file') = fread file cache_size in
      passes fuel cache_size (fast_cdc_init md5 uninitialised) (record {
        file_cache = bytes ++ drop (length bytes) cleared;
        offset = 0;
        end_plus_one = cache_size;
        read_flag = false;
        chunk_num = 0;
        random_file = file';
      })

  shift_down-none :
      (size : ℕ) (cache : List ℕ) (offset : ℕ)
      → length cache ≡ size
      → offset < size
      → shift_down size cache offset ≡ none
  unfolding shift_down
  shift_down-none size cache offset e inside = ground arith

  shift_down-some :
      (size : ℕ) (cache : List ℕ) (offset : ℕ)
      → offset ≡ size
      → shift_down size cache offset ≡ some cache
  unfolding shift_down
  shift_down-some size cache offset e = ground arith

  ends_here-ne-overrun : (w : Window) → ends_here w ≢ overrun
  ends_here-ne-overrun w h = elim (Bool-cases (leb w.end_plus_one (w.offset + 1) && w.read_flag)) [
    | inl t ↦ cc
    | inr t ↦ cc
  ]

  -- A window in which no byte is left is refilled within its bounds.
  refill-some :
      (size : ℕ) (w : Window) → w.offset ≡ size → (w1 : Window) × (refill size w ≡ some w1)
  unfolding refill
  refill-some size w e = elim (Option-cases (refill size w)) [
    | inl h ↦ absurd (ground (arith, shift_down-some size w.file_cache w.offset e))
    | inr s ↦ s
  ]

  -- A round of a chunk of `len` bytes: it refills a window of which bytes are left, or none, or it
  -- does not refill.
  abbrev pub Cut : ℕ → Globals → Window → ℕ → Type 0
  Cut size g w len =
      ((needs_refill size g (w.offset + len) ≡ true)
        × (w.offset + len < size)
        × (pass size g w ≡ overrun))
      ⊎ (((needs_refill size g (w.offset + len) ≡ true)
            × (w.offset + len ≡ size)
            × (pass size g w ≢ overrun))
          ⊎ ((needs_refill size g (w.offset + len) ≡ false)
              × (pass size g w
                  ≡ go_on (record w { chunk_num = w.chunk_num + 1; offset = w.offset + len }))))

  abbrev pub Round : ℕ → Globals → Window → Type 0
  Round size g w =
      ((cdc_origin_64 g (drop w.offset w.file_cache) (size + 1 - w.offset) ≡ none)
        × (pass size g w ≡ overrun))
      ⊎ ((len : ℕ) × (cdc_origin_64 g (drop w.offset w.file_cache) (size + 1 - w.offset) ≡ some len)
          × Cut size g w len)

  -- In a window of the declared size, with the flag not set, a round overruns where the chunking does.
  -- Else, behind the chunk that is cut: a round that refills a window of which bytes are left reads
  -- past the end of the window, whatever the file holds; one that refills a window of which none is
  -- left does not; and one that does not refill goes on there, with the window and the flag as they
  -- were.
  pub pass-overrun :
      (size : ℕ) (g : Globals) (w : Window)
      → length w.file_cache ≡ size
      → w.read_flag ≡ false
      → Round size g w
  unfolding pass
  pass-overrun size g w e f =
      elim (Option-cases (cdc_origin_64 g (drop w.offset w.file_cache) (size + 1 - w.offset))) [
        | inl faults ↦ inl (faults, rw (faults, pass))
        | inr (len, cuts) ↦
            let stop : ℕ = w.offset + len in
            let moved = record w { chunk_num = w.chunk_num + 1; offset = stop } in
            inr (
              len,
              cuts,
              elim (Bool-cases (needs_refill size g stop)) [
                | inr t ↦ inr (inr (t, ground arith))
                | inl t ↦ elim (Bool-cases (ltb stop size)) [
                  | inl inside ↦ inl (
                    t,
                    ground arith,
                    ground (arith, shift_down-none size w.file_cache stop e (ground arith)),
                  )
                  | inr ends ↦
                      let none_left : stop ≡ size = ground arith in
                      let s = refill-some size moved none_left in
                      inr (
                        inl (
                          t,
                          none_left,
                          λ h. ends_here-ne-overrun (s.0) (rw (pass, cuts, t, s.1) at h),
                        ))
                ]
              ],
            )
      ]
