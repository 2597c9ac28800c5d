-- ===== src/Prelude/Bits.antt =====
-- `&` at variables, from the recursion on binary digits that the native operation stands for.
use Prim.Native.Nat.{ℕ, zero, suc, ◌+◌, ◌-◌, ◌*◌, ◌/◌, ◌%◌, ◌^◌, ◌≤◌, ◌<◌, min, bit_and}
use Prim.Native.Nat.{digits, bit_and-bitwise}
use mathlib.Core.Path.{◌≡◌, refl, sym, ◌∙◌, ap}
use native.Mathlib.Nat.{pow-suc, one-le-pow, mod-eq_of_lt, add-mul-mod_self_left}
use native.Mathlib.Omega.{arith}

-- Fuel beyond the first operand changes nothing.
module _ (z : ℕ → ℕ) (f : ℕ → ℕ → ℕ) where
  digits_none : (fuel y : ℕ) → digits z f fuel 0 y ≡ digits z f 0 0 y
  digits_none zero y = refl
  digits_none (suc fuel) y = refl

  digits_spare :
      (spare fuel x y : ℕ) → x ≤ fuel → digits z f (fuel + spare) x y ≡ digits z f fuel x y
  digits_spare spare fuel zero y fits = digits_none (fuel + spare) y ∙ sym (digits_none fuel y)
  digits_spare spare zero (suc x) y fits = absurd (omega arith)
  digits_spare spare (suc fuel) (suc x) y fits =
      ap (λ k. digits z f k (suc x) y) (suc_add fuel spare)
      ∙ omega (arith, digits_spare spare fuel (suc x / 2) (y / 2) (omega arith))
    where
      suc_add : (p q : ℕ) → suc p + q ≡ suc (p + q)
      suc_add p q = omega arith

-- The lowest digit of `x & y`, and the rest.
pub bit_and_step : (x y : ℕ) → bit_and x y ≡ bit_and (x / 2) (y / 2) * 2 + min (x % 2) (y % 2)
bit_and_step zero y = ground (arith, bit_and-bitwise zero y, bit_and-bitwise zero (y / 2))
bit_and_step (suc x) y =
    let half : ℕ = suc x / 2 in
    let whole = ap (λ k. digits (λ d. 0) min k half (y / 2)) (filled x) in
    ground (
      arith,
      whole,
      digits_spare (λ d. 0) min (x - half) half half (y / 2),
      bit_and-bitwise half (y / 2),
      bit_and-bitwise (suc x) y,
    )
  where
    filled : (p : ℕ) → suc p / 2 + (p - suc p / 2) ≡ p
    filled p = omega arith

below_bit_and-zero : (bound x : ℕ) → x < bound → bit_and x 0 ≡ 0
below_bit_and-zero zero x below = absurd (omega arith)
below_bit_and-zero (suc bound) zero below = refl
below_bit_and-zero (suc bound) (suc x) below =
    bit_and_step (suc x) 0 ∙ omega (arith, below_bit_and-zero bound (suc x / 2) (omega arith))

pub bit_and-zero : (x : ℕ) → bit_and x 0 ≡ 0
bit_and-zero x = below_bit_and-zero (suc x) x (omega arith)

-- Halving a remainder by an even number.
half-mod : (x p : ℕ) → 0 < p → x % (p * 2) ≡ x / 2 % p * 2 + x % 2
half-mod x p h =
    ap (λ (t : ℕ). t % (p * 2)) split ∙ add-mul-mod_self_left low (p * 2) q ∙ mod-eq_of_lt small
  where
    q : ℕ
    q = x / 2 / p

    low : ℕ
    low = x / 2 % p * 2 + x % 2

    small : low < p * 2
    small = omega arith

    split : x ≡ low + p * 2 * q
    split = omega arith

-- A mask below `2 ^ k` reads the low `k` bits only.
pub bit_and-mod : (k x m : ℕ) → m < 2 ^ k → bit_and (x % 2 ^ k) m ≡ bit_and x m
bit_and-mod zero x m h = ground (arith, bit_and-zero (x % 1), bit_and-zero x)
bit_and-mod (suc k) x m h = rw halved (
    ground (
      arith,
      bit_and_step (x / 2 % 2 ^ k * 2 + x % 2) m,
      bit_and_step x m,
      bit_and-mod k (x / 2) (m / 2) (omega (arith, pow-suc 2 k)),
    ))
  where
    halved : x % 2 ^ suc k ≡ x / 2 % 2 ^ k * 2 + x % 2
    halved = ap (λ (t : ℕ). x % t) (pow-suc 2 k) ∙ half-mod x (2 ^ k) (one-le-pow k 2 (omega arith))

-- Both operands doubled.
pub bit_and-double : (x m : ℕ) → bit_and (x * 2) (m * 2) ≡ bit_and x m * 2
bit_and-double x m = ground (arith, bit_and_step (x * 2) (m * 2))

-- The mask of the low `k` bits, a remainder.
pub bit_and-mask : (k x : ℕ) → bit_and x (2 ^ k - 1) ≡ x % 2 ^ k
bit_and-mask zero x = ground (arith, bit_and-zero x)
bit_and-mask (suc k) x =
    let p : ℕ = 2 ^ k in
    let some_bits = one-le-pow k 2 (omega arith) in
    rw (pow-suc 2 k) (
      bit_and_step x (p * 2 - 1)
      ∙ ground (
        arith,
        some_bits,
        ap (bit_and (x / 2)) (halved p some_bits),
        half-mod x p some_bits,
        bit_and-mask k (x / 2),
      ))
  where
    halved : (p : ℕ) → 1 ≤ p → (p * 2 - 1) / 2 ≡ p - 1
    halved p h = omega arith
