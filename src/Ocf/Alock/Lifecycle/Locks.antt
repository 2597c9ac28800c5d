-- ===== src/Ocf/Alock/Lifecycle/Locks.antt =====
-- How often a resource is acquired and released by the loops over the spinlocks of utils/utils_alock.c.
use dadi_fast_cdc.Prelude.{
  ℕ, zero, suc, ◌+◌, ◌≡◌, refl, ap, sym, inl, inr, arith, Bool, true, false, Option, none, some,
}
use dadi_fast_cdc.Prelude.{List, [], ◌∷◌, ◌++◌, ◌==◌, ltb, if◌then◌else◌, Bool-cases}
use dadi_fast_cdc.Ocf.Alock.Lifecycle.{
  Resource, object, mutex, table, allocator, spinlock, Event, get, put, Environment, init_spinlocks,
  unwind, destroy_spinlocks,
}

abbrev pub same : Resource → Resource → Bool
same object object = true
same mutex mutex = true
same table table = true
same allocator allocator = true
same (spinlock i) (spinlock j) = i == j
same _ _ = false

unfoldable pub times : Resource → Resource → ℕ
times r x = if same r x then 1 else 0

-- How often `r` is acquired, and how often it is released.
abbrev pub gets : Resource → List Event → ℕ
gets r [] = 0
gets r (get x ∷ es) = times r x + gets r es
gets r (put x ∷ es) = gets r es

abbrev pub puts : Resource → List Event → ℕ
puts r [] = 0
puts r (get x ∷ es) = puts r es
puts r (put x ∷ es) = times r x + puts r es

-- 1 for a spinlock below `i`.
unfoldable pub below : Resource → ℕ → ℕ
below (spinlock k) i = if ltb k i then 1 else 0
below _ i = 0

pub below-zero : (r : Resource) → below r 0 ≡ 0
unfolding below
below-zero (spinlock k) = ground arith
below-zero object = refl
below-zero mutex = refl
below-zero table = refl
below-zero allocator = refl

below-suc : (r : Resource) (i : ℕ) → times r (spinlock i) + below r i ≡ below r (suc i)
unfolding below times
below-suc (spinlock k) i = ground arith
below-suc object i = refl
below-suc mutex i = refl
below-suc table i = refl
below-suc allocator i = refl

-- Where the loop over the spinlocks ends.
abbrev pub reached : ℕ → Option ℕ → ℕ
reached end none = end
reached end (some j) = j

suc_end : (a b : ℕ) → a + 1 + b ≡ a + suc b
suc_end a b = omega arith

add_one : (a : ℕ) → a + 1 ≡ suc a
add_one a = omega arith

add_zero : (a : ℕ) → a + 0 ≡ a
add_zero a = omega arith

module _ (r : Resource) where
  pub gets-append : (es fs : List Event) → gets r (es ++ fs) ≡ gets r es + gets r fs
  gets-append [] fs = omega arith
  gets-append (get x ∷ es) fs = omega (arith, gets-append es fs)
  gets-append (put x ∷ es) fs = gets-append es fs

  pub puts-append : (es fs : List Event) → puts r (es ++ fs) ≡ puts r es + puts r fs
  puts-append [] fs = omega arith
  puts-append (get x ∷ es) fs = puts-append es fs
  puts-append (put x ∷ es) fs = omega (arith, puts-append es fs)

  pub unwind-lem : (i : ℕ) → (gets r (unwind i) ≡ 0) × (puts r (unwind i) ≡ below r i)
  unfolding unwind
  unwind-lem zero = (refl, sym (below-zero r))
  unwind-lem (suc i) = ((unwind-lem i).0, omega (arith, (unwind-lem i).1, below-suc r i))

  pub destroy_spinlocks-lem :
      (count i : ℕ)
      → (gets r (destroy_spinlocks count i) ≡ 0)
        × (puts r (destroy_spinlocks count i) + below r i ≡ below r (i + count))
  unfolding destroy_spinlocks
  destroy_spinlocks-lem zero i = (refl, omega (arith, ap (below r) (add_zero i)))
  destroy_spinlocks-lem (suc count) i =
      let rest = destroy_spinlocks-lem count (i + 1) in
      (
        rest.0,
        omega (
          arith,
          rest.1,
          below-suc r i,
          ap (below r) (add_one i),
          ap (below r) (suc_end i count),
        ),
      )

  pub init_spinlocks-lem :
      (env : Environment) (count i : ℕ)
      → let out = init_spinlocks env count i in
        (puts r out.1 ≡ 0) × (gets r out.1 + below r i ≡ below r (reached (i + count) out.0))
  unfolding init_spinlocks
  init_spinlocks-lem env zero i = (refl, omega (arith, ap (below r) (add_zero i)))
  init_spinlocks-lem env (suc count) i =
      let rest = init_spinlocks-lem env count (i + 1) in
      elim (Bool-cases (env.spinlock_err i == 0)) [
        | inr t ↦ rw t (refl, omega arith)
        | inl t ↦ rw t (
          rest.0,
          omega (
            arith,
            rest.1,
            below-suc r i,
            ap (below r) (add_one i),
            ap (λ e. below r (reached e (init_spinlocks env count (i + 1)).0)) (suc_end i count),
          ),
        )
      ]
