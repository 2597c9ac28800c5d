-- ===== src/Prelude/Slices.antt =====
-- Parts of lists: `take`, `drop` and `++` against one another.
use Prim.Native.Nat.{ℕ, zero, suc, ◌+◌, ◌-◌, ◌≤◌, ◌<◌, min}
use mathlib.Core.Path.{◌≡◌, refl, ap, ◌∙◌}
use mathlib.Core.List.{List, [], ◌∷◌, ◌++◌, append_assoc}
use native.Mathlib.Omega.{arith}
use dadi_fast_cdc.Prelude.Lists.{length, take, drop, replicate, sum, length-append}

module _ {ℓ} {A : Type ℓ} where
  pub length-take : (n : ℕ) (xs : List A) → n ≤ length xs → length (take n xs) ≡ n
  length-take zero xs h = refl
  length-take (suc n) [] h = absurd (omega arith)
  length-take (suc n) (x ∷ xs) h = omega (arith, length-take n xs (omega arith))

  pub length-replicate : (n : ℕ) (x : A) → length (replicate n x) ≡ n
  length-replicate zero x = refl
  length-replicate (suc n) x = omega (arith, length-replicate n x)

  pub take-all : (n : ℕ) (xs : List A) → length xs ≤ n → take n xs ≡ xs
  take-all zero [] h = refl
  take-all zero (x ∷ xs) h = absurd (omega arith)
  take-all (suc n) [] h = refl
  take-all (suc n) (x ∷ xs) h = ap (λ l. x ∷ l) (take-all n xs (omega arith))

  take-nil : (p q : ℕ) → take {A = A} q [] ≡ take p []
  take-nil zero zero = refl
  take-nil zero (suc q) = refl
  take-nil (suc p) zero = refl
  take-nil (suc p) (suc q) = refl

  pub take-min : (n k : ℕ) (xs : List A) → k ≡ length xs → take (min n k) xs ≡ take n xs
  take-min zero k xs e = let low : min 0 k ≡ 0 = omega arith in ap (λ m. take m xs) low
  take-min (suc n) k [] e = take-nil (suc n) (min (suc n) k)
  take-min (suc n) zero (x ∷ xs) e = absurd (omega arith)
  take-min (suc n) (suc k) (x ∷ xs) e =
      rw (min_suc n k) (ap (λ l. x ∷ l) (take-min n k xs (omega arith)))
    where
      min_suc : (a b : ℕ) → min (suc a) (suc b) ≡ suc (min a b)
      min_suc a b = omega arith

  pub take-append_left : (n : ℕ) (xs ys : List A) → n ≤ length xs → take n (xs ++ ys) ≡ take n xs
  take-append_left zero xs ys h = refl
  take-append_left (suc n) [] ys h = absurd (omega arith)
  take-append_left (suc n) (x ∷ xs) ys h = ap (λ l. x ∷ l) (take-append_left n xs ys (omega arith))

  pub take-append_right :
      (n : ℕ) (xs ys : List A) → length xs ≤ n → take n (xs ++ ys) ≡ xs ++ take (n - length xs) ys
  take-append_right n [] ys h = ap (λ k. take k ys) (omega arith)
  take-append_right zero (x ∷ xs) ys h = absurd (omega arith)
  take-append_right (suc n) (x ∷ xs) ys h =
      ap (λ l. x ∷ l)
        (take-append_right n xs ys (omega arith) ∙ ap (λ k. xs ++ take k ys) (omega arith))

  pub drop-append_left :
      (n : ℕ) (xs ys : List A) → n ≤ length xs → drop n (xs ++ ys) ≡ drop n xs ++ ys
  drop-append_left zero xs ys h = refl
  drop-append_left (suc n) [] ys h = absurd (omega arith)
  drop-append_left (suc n) (x ∷ xs) ys h = drop-append_left n xs ys (omega arith)

  pub drop-append_right :
      (n : ℕ) (xs ys : List A) → length xs ≤ n → drop n (xs ++ ys) ≡ drop (n - length xs) ys
  drop-append_right n [] ys h = ap (λ k. drop k ys) (omega arith)
  drop-append_right zero (x ∷ xs) ys h = absurd (omega arith)
  drop-append_right (suc n) (x ∷ xs) ys h =
      drop-append_right n xs ys (omega arith) ∙ ap (λ k. drop k ys) (omega arith)

  -- A slice of a prefix that holds it.
  pub take-drop-take :
      (n o r : ℕ) (xs : List A) → o + n ≤ r → take n (drop o (take r xs)) ≡ take n (drop o xs)
  take-drop-take zero o r xs h = refl
  take-drop-take (suc n) zero zero xs h = absurd (omega arith)
  take-drop-take (suc n) zero (suc r) [] h = refl
  take-drop-take (suc n) zero (suc r) (x ∷ xs) h =
      ap (λ l. x ∷ l) (take-drop-take n zero r xs (omega arith))
  take-drop-take (suc n) (suc o) zero xs h = absurd (omega arith)
  take-drop-take (suc n) (suc o) (suc r) [] h = refl
  take-drop-take (suc n) (suc o) (suc r) (x ∷ xs) h = take-drop-take (suc n) o r xs (omega arith)

  -- A slice, cut in two.
  pub take-plus : (n m : ℕ) (xs : List A) → take (n + m) xs ≡ take n xs ++ take m (drop n xs)
  take-plus zero m xs = ap (λ k. take k xs) (omega arith)
  take-plus (suc n) m [] = take-nil m (suc n + m)
  take-plus (suc n) m (x ∷ xs) = rw (suc_add n m) (ap (λ l. x ∷ l) (take-plus n m xs))
    where
      suc_add : (a b : ℕ) → suc a + b ≡ suc (a + b)
      suc_add a b = omega arith

-- Lists one after another, and their lengths.
abbrev pub concat {ℓ} : {A : Type ℓ} → List (List A) → List A
concat [] = []
concat (x ∷ xs) = x ++ concat xs

abbrev pub lengths {ℓ} : {A : Type ℓ} → List (List A) → List ℕ
lengths [] = []
lengths (x ∷ xs) = length x ∷ lengths xs

module _ {ℓ} {A : Type ℓ} where
  pub length-lengths : (xss : List (List A)) → length (lengths xss) ≡ length xss
  length-lengths [] = refl
  length-lengths (x ∷ xss) = ap suc (length-lengths xss)

  pub length-concat : (xss : List (List A)) → length (concat xss) ≡ sum (lengths xss)
  length-concat [] = refl
  length-concat (x ∷ xss) = omega (arith, length-append x (concat xss), length-concat xss)

  -- Without the bytes of the first `i` lists, the rest of the lists.
  pub drop-concat :
      (i : ℕ) (xss : List (List A)) (ys : List A)
      → drop (sum (take i (lengths xss))) (concat xss ++ ys) ≡ concat (drop i xss) ++ ys
  drop-concat zero xss ys = refl
  drop-concat (suc i) [] ys = refl
  drop-concat (suc i) (x ∷ xss) ys = rw (append_assoc x (concat xss) ys) (
      drop-append_right (length x + sum (take i (lengths xss))) x (concat xss ++ ys) (omega arith)
      ∙ ap (λ k. drop k (concat xss ++ ys)) (omega arith)
      ∙ drop-concat i xss ys)

-- One element more in a prefix sum.
pub sum-take-suc :
    (i : ℕ) (xs ys : List ℕ) (x : ℕ)
    → drop i xs ≡ x ∷ ys
    → sum (take (suc i) xs) ≡ sum (take i xs) + x
sum-take-suc i [] ys x h = absurd (no_element i (ap length h))
  where
    drop_length : (k : ℕ) → length (drop {A = ℕ} k []) ≡ 0
    drop_length zero = refl
    drop_length (suc k) = refl

    no_element : (k : ℕ) → length (drop {A = ℕ} k []) ≡ suc (length ys) → ⊥
    no_element k e = omega (arith, drop_length k)
sum-take-suc zero (z ∷ xs) ys x h = omega (arith, ap first h)
  where
    first : List ℕ → ℕ
    first [] = 0
    first (y ∷ l) = y
sum-take-suc (suc i) (z ∷ xs) ys x h = omega (arith, sum-take-suc i xs ys x h)

-- The lists from a position on: the one there, and the others.
pub drop-cons {ℓ} :
    {A : Type ℓ} (i : ℕ) (xs : List A)
    → i < length xs
    → (x : A) × (ys : List A) × (drop i xs ≡ x ∷ ys)
drop-cons i [] h = absurd (omega arith)
drop-cons zero (x ∷ xs) h = (x, xs, refl)
drop-cons (suc i) (x ∷ xs) h = drop-cons i xs (omega arith)

pub drop-lengths {ℓ} :
    {A : Type ℓ} (i : ℕ) (xss : List (List A)) → drop i (lengths xss) ≡ lengths (drop i xss)
drop-lengths zero xss = refl
drop-lengths (suc i) [] = refl
drop-lengths (suc i) (x ∷ xss) = drop-lengths i xss

-- Prefix sums grow.
pub sum-take_le : (i j : ℕ) (xs : List ℕ) → i ≤ j → sum (take i xs) ≤ sum (take j xs)
sum-take_le zero j xs h = omega arith
sum-take_le (suc i) zero xs h = absurd (omega arith)
sum-take_le (suc i) (suc j) [] h = omega arith
sum-take_le (suc i) (suc j) (x ∷ xs) h = omega (arith, sum-take_le i j xs (omega arith))

pub sum-take_all : (i : ℕ) (xs : List ℕ) → sum (take i xs) ≤ sum xs
sum-take_all zero xs = omega arith
sum-take_all (suc i) [] = omega arith
sum-take_all (suc i) (x ∷ xs) = omega (arith, sum-take_all i xs)
