-- ===== src/Ocf/Alock/Lifecycle.antt =====
-- The creation and the destruction of a lock table: `ocf_alock_init_inplace`, `ocf_alock_init` and
-- `ocf_alock_deinit` of utils/utils_alock.c. What the environment's functions give or refuse is a
-- parameter, and what they are called for is a list of events, in order.
pub mod Locks
pub mod Release
mod Tests
use dadi_fast_cdc.Prelude.{ℕ, zero, suc, ◌+◌, Bool, true, false, Option, none, some}
use dadi_fast_cdc.Prelude.{List, [], ◌∷◌, ◌++◌, ◌==◌, not, if◌then◌else◌}

pub data Resource : Type 0 where
  object mutex table allocator : Resource
  spinlock : ℕ → Resource

pub data Event : Type 0 where
  get put : Resource → Event

-- What `env_mutex_init` and `env_spinlock_init` return, and whether the allocations succeed.
pub record Environment : Type 0 where
  pub object_given : Bool
  pub mutex_err : ℕ
  pub table_given : Bool
  pub allocator_given : Bool
  pub spinlock_err : ℕ → ℕ

-- The loop over the spinlocks, from `i` on: where it fails, if it does, and its events.
unfoldable pub init_spinlocks : Environment → ℕ → ℕ → Option ℕ × List Event
init_spinlocks env zero i = (none, [])
init_spinlocks env (suc count) i =
    let (failed_at, events) = init_spinlocks env count (i + 1) in
    if env.spinlock_err i == 0 then (failed_at, get (spinlock i) ∷ events) else (some i, [])

-- `while (i--)`
unfoldable pub unwind : ℕ → List Event
unwind zero = []
unwind (suc i) = put (spinlock i) ∷ unwind i

abbrev given : Bool → Resource → List Event
given true r = put r ∷ []
given false r = []

-- From `allocation_err` on; whether the two pointers are set.
unfoldable pub allocation_err : Bool → Bool → List Event
allocation_err has_allocator has_table =
    given has_allocator allocator ++ (given has_table table ++ (put mutex ∷ []))

abbrev pub ended : Option ℕ × List Event → Bool × List Event
ended (none, events) = (true, events)
ended (some i, events) = (false, events ++ (unwind i ++ allocation_err true true))

abbrev pub preceded : Event → Bool × List Event → Bool × List Event
preceded e (done, events) = (done, e ∷ events)

-- Whether it succeeds, and its events. `stale` is whether `self->allocator` was set before the call.
unfoldable pub init_inplace : ℕ → Environment → Bool → Bool × List Event
unfolding init_spinlocks unwind allocation_err
init_inplace waiters_list_entries env stale =
    if not (env.mutex_err == 0)
    then (false, [])
    else preceded (get mutex) (
        if env.table_given
        then preceded (get table) (
            if env.allocator_given
            then preceded (get allocator) (ended (init_spinlocks env waiters_list_entries 0))
            else (false, allocation_err false true))
        else (false, allocation_err stale false))

-- The new object is zeroed, so its `allocator` is not set.
unfoldable pub create : ℕ → Environment → Bool × List Event
unfolding init_inplace
create waiters_list_entries env =
    let (done, events) = init_inplace waiters_list_entries env false in
    if env.object_given
    then preceded (get object)
        (if done then (true, events) else (false, events ++ (put object ∷ [])))
    else (false, [])

unfoldable pub destroy_spinlocks : ℕ → ℕ → List Event
destroy_spinlocks zero i = []
destroy_spinlocks (suc count) i = put (spinlock i) ∷ destroy_spinlocks count (i + 1)

-- `present` is whether there is a table, which has both its pointers set then.
unfoldable pub destroy : ℕ → Bool → List Event
unfolding destroy_spinlocks
destroy waiters_list_entries present =
    if present
    then put mutex
      ∷ (destroy_spinlocks waiters_list_entries 0 ++ (put table ∷ put allocator ∷ put object ∷ []))
    else []
