-- ===== src/FastCdc/Window.antt =====
-- Content-defined chunking: the 64-bit fingerprint of FastCDC-c/fastcdc.c depends on the last 64
-- bytes only, so a cut moves with the content around it.
use native.Mathlib.Nat.{pow-suc}
use dadi_fast_cdc.Prelude.{ℕ, zero, suc, ◌+◌, ◌-◌, ◌*◌, ◌%◌, ◌^◌, ◌≤◌, ◌<◌, min, bit_and}
use dadi_fast_cdc.Prelude.{◌≡◌, refl, ap, ◌∙◌, sym, inl, inr, some, List, arith, length, get_or}
use dadi_fast_cdc.Prelude.{Bool-cases, ltb}
use dadi_fast_cdc.FastCdc.Globals.{Globals, fing_gear_08kb_64}
use dadi_fast_cdc.FastCdc.Chunking.{cdc_origin_64}
use dadi_fast_cdc.FastCdc.Fingerprint.{IsBytes, entry, weighted_sum, fingerprint, IsCut}
use dadi_fast_cdc.FastCdc.FirstCut.{OriginChunk, cdc_origin_64-OriginChunk}

-- The `k` bytes from `a` on in `p` are those from `b` on in `q`.
abbrev pub SameBytes : List ℕ → ℕ → List ℕ → ℕ → ℕ → Type 0
SameBytes p a q b k = (j : ℕ) → j < k → get_or p (a + j) 0 ≡ get_or q (b + j) 0

weighted_sum-split :
    (p : List ℕ) (lo m k : ℕ)
    → weighted_sum p lo (m + k) ≡ weighted_sum p lo m * 2 ^ k + weighted_sum p (lo + m) k
unfolding weighted_sum
weighted_sum-split p lo m zero = let end : m + 0 ≡ m = omega arith in rw end (omega arith)
weighted_sum-split p lo m (suc k) =
    ap (weighted_sum p lo) (suc_end m k)
    ∙ omega (
      arith,
      weighted_sum-split p lo m k,
      ap (λ t. weighted_sum p lo m * t) (pow-suc 2 k),
      ap (entry p) (regroup lo m k),
    )
  where
    suc_end : (a b : ℕ) → a + suc b ≡ suc (a + b)
    suc_end a b = omega arith

    regroup : (a b c : ℕ) → a + (b + c) ≡ a + b + c
    regroup a b c = omega arith

weighted_sum-same :
    (p q : List ℕ) (a b k : ℕ) → SameBytes p a q b k → weighted_sum p a k ≡ weighted_sum q b k
unfolding weighted_sum entry
weighted_sum-same p q a b zero same = refl
weighted_sum-same p q a b (suc k) same =
    rw (weighted_sum-same p q a b k (λ j h. same j (omega arith)), same k (omega arith))

-- The fingerprint of 64 bytes or more is that of the last 64.
fingerprint-window : (p : List ℕ) (lo k : ℕ) → fingerprint p lo (k + 64) ≡ fingerprint p (lo + k) 64
fingerprint-window p lo k = rw weighted_sum-split (modular _ _)
  where
    modular : (a b : ℕ) → (a * 2 ^ 64 + b) % 2 ^ 64 ≡ b % 2 ^ 64
    modular a b = omega arith

window :
    (p : List ℕ) (lo i : ℕ)
    → lo + 63 ≤ i
    → fingerprint p lo (suc i - lo) ≡ fingerprint p (i - 63) 64
window p lo i h =
    ap (fingerprint p lo) (omega arith)
    ∙ fingerprint-window p lo (i - 63 - lo)
    ∙ ap (λ t. fingerprint p t 64) (omega arith)

-- Two loops that have each read 64 bytes or more, the last 64 the same, agree on the cut.
pub IsCut-window :
    (mask : ℕ) (p q : List ℕ) (lo lo' i j : ℕ)
    → lo + 63 ≤ i
    → lo' + 63 ≤ j
    → SameBytes p (i - 63) q (j - 63) 64
    → IsCut mask p lo i
    → IsCut mask q lo' j
IsCut-window mask p q lo lo' i j a b same is = ap (λ t. bit_and t mask) (sym agree) ∙ is
  where
    agree : fingerprint p lo (suc i - lo) ≡ fingerprint q lo' (suc j - lo')
    agree =
        window p lo i a
        ∙ ap (λ (t : ℕ). t % 2 ^ 64) (weighted_sum-same p q (i - 63) (j - 63) 64 same)
        ∙ sym (window q lo' j b)

-- Resynchronisation: where `cdc_origin_64` cuts `p` at `r` by content, 64 bytes or more into its
-- loop, and the same 64 bytes end at `s` in `q`, also 64 bytes or more into the loop and before its
-- end, the chunk of `q` ends at `s` or before.
pub cdc_origin_64_resync :
    (g : Globals) (p q : List ℕ) (n n' r s : ℕ)
    → IsBytes p
    → n ≤ length p
    → IsBytes q
    → n' ≤ length q
    → g.min_size < n
    → cdc_origin_64 g p n ≡ some r
    → r < min n g.max_size
    → g.min_size + 63 ≤ r
    → g.min_size + 63 ≤ s
    → s < min n' g.max_size
    → SameBytes p (r - 63) q (s - 63) 64
    → (r' : ℕ) × (cdc_origin_64 g q n' ≡ some r') × (r' ≤ s)
cdc_origin_64_resync g p q n n' r s bp fp bq fq long cuts inner a b inner' same =
    (there.0, there.1, bound there.0 there.2)
  where
    here : (x : ℕ) × (cdc_origin_64 g p n ≡ some x) × OriginChunk g p n x
    here = cdc_origin_64-OriginChunk g p n bp fp

    there : (x : ℕ) × (cdc_origin_64 g q n' ≡ some x) × OriginChunk g q n' x
    there = cdc_origin_64-OriginChunk g q n' bq fq

    same_result : here.0 ≡ r
    same_result = cc (here.1)

    cut_of : (x : ℕ) → x ≡ r → OriginChunk g p n x → IsCut fing_gear_08kb_64 p g.min_size r
    cut_of x e (inl (short, all)) = absurd (omega arith)
    cut_of x e (inr (_, inl (from, to, is, none_before))) = rw (← e) is
    cut_of x e (inr (_, inr (end, none_before))) = absurd (omega arith)

    is' : IsCut fing_gear_08kb_64 q g.min_size s
    is' =
        IsCut-window fing_gear_08kb_64 p q g.min_size g.min_size r s a b same
          (cut_of here.0 same_result here.2)

    bound : (x : ℕ) → OriginChunk g q n' x → x ≤ s
    bound x (inl (short, all)) = absurd (omega arith)
    bound x (inr (_, inr (end, none_before))) =
        absurd (none_before s (omega arith) (omega arith) is')
    bound x (inr (_, inl (from, to, is, none_before))) = elim (Bool-cases (ltb s x)) [
      | inl t ↦ absurd (none_before s (omega arith) (ground arith) is')
      | inr t ↦ ground arith
    ]
