-- ===== src/Zfile/JumpTable/Groups.antt =====
-- The quotient by the group size, from one block to the next.
use dadi_fast_cdc.Prelude.{ℕ, suc, ◌-◌, ◌*◌, ◌+◌, ◌/◌, ◌%◌, ◌≤◌, ◌<◌, ◌≡◌, ◌≢◌, arith}

pub next_group : (n g : ℕ) → 0 < g → suc n % g ≡ 0 → suc n / g ≡ suc (n / g)
next_group n g h e = grind arith

pub same_group : (n g : ℕ) → 0 < g → suc n % g ≢ 0 → suc n / g ≡ n / g
same_group n g h e = grind arith

pub groups_up : (i n g : ℕ) → 0 < g → i ≤ n → i / g ≤ n / g
groups_up i n g h e = grind arith

pub next_in_group : (n g : ℕ) → 0 < g → suc n % g ≢ 0 → suc n % g ≡ n % g + 1
next_in_group n g h e = grind arith

-- The delta stays below a bound that `g - 1` of the longest blocks do not reach.
pub delta_bound :
    (n g longest delta len most : ℕ)
    → 0 < g
    → suc n % g ≢ 0
    → delta ≤ n % g * longest
    → len ≤ longest
    → (g - 1) * longest < most
    → (delta + len ≤ suc n % g * longest) × (delta + len < most)
delta_bound n g longest delta len most h e d l m = grind (arith, next_in_group n g h e)
