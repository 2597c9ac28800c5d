-- ===== src/Ocf/AsyncLock.antt =====
-- utils/utils_async_lock.c of the cache engine: a lock for one writer or many readers whose
-- waiters are called back. Each operation runs under `waiters_lock`, so it is one step here. What
-- it calls back, after the spinlock is released, is a list in order. `none` is an `ENV_BUG_ON`.
pub mod Invariant
pub mod Fifo
mod Tests
use dadi_fast_cdc.Prelude.{ℕ, zero, suc, ◌+◌, ◌-◌, Bool, true, false, Option, none, some}
use dadi_fast_cdc.Prelude.{List, [], ◌∷◌, ◌++◌, map, ◌==◌, ◌||◌, not, if◌then◌else◌}

-- `waiter` of the source names the callback and the private data; here it is a number.
pub record Waiter : Type 0 where
  pub name : ℕ
  pub write_lock : Bool

pub record Lock : Type 0 where
  pub rd : ℕ
  pub wr : ℕ
  pub waiters : List Waiter

pub data Status : Type 0 where
  ok err_no_lock : Status

-- The call of a waiter's completion, with its status.
pub record Completion : Type 0 where
  pub waiter : Waiter
  pub status : Status

abbrev pub is_zero : ℕ → Bool
is_zero n = n == 0

abbrev pub is_empty : List Waiter → Bool
is_empty [] = true
is_empty (w ∷ ws) = false

-- What `_ocf_async_lock_collect_waiters` takes off the list, what it leaves, and the new counters.
pub record Collected : Type 0 where
  pub taken : List Waiter
  pub left : List Waiter
  pub rd : ℕ
  pub wr : ℕ

abbrev take_first : Waiter → Collected → Collected
take_first w c = record c { taken = w ∷ c.taken }

unfoldable pub collect_waiters : ℕ → ℕ → List Waiter → Collected
collect_waiters rd wr [] = record { taken = []; left = []; rd = rd; wr = wr }
collect_waiters rd wr (w ∷ ws) =
    let rest = collect_waiters (rd + 1) wr ws in
    if not w.write_lock
    then take_first w rest
    else if is_zero rd
    then record { taken = w ∷ []; left = ws; rd = rd; wr = 1 }
    else record { taken = []; left = w ∷ ws; rd = rd; wr = wr }

unfoldable pub run_waiters : List Waiter → Status → List Completion
run_waiters ws s = map (λ w. record { waiter = w; status = s }) ws

-- `err` is what `env_spinlock_init` returns, 0 for success.
unfoldable pub init : ℕ → Option Lock
init err = if is_zero err then some (record { rd = 0; wr = 0; waiters = [] }) else none

-- The lock is destroyed; every waiter is called back without it.
unfoldable pub deinit : Lock → List Completion
unfolding run_waiters
deinit l = run_waiters l.waiters err_no_lock

-- `_ocf_async_trylock` and `ocf_async_trylock`
unfoldable pub trylock : Lock → Status × Lock
trylock l =
    if not (is_zero l.wr) || not (is_zero l.rd) then (err_no_lock, l) else (ok, record l { wr = 1 })

abbrev granted_or_queued : Bool → ℕ → Status × Lock → Lock × List Completion
granted_or_queued write name (ok, l) =
    (l, record { waiter = record { name = name; write_lock = write }; status = ok } ∷ [])
granted_or_queued write name (err_no_lock, l) =
    (record l { waiters = l.waiters ++ (record { name = name; write_lock = write } ∷ []) }, [])

-- `ocf_async_lock`
unfoldable pub lock : Lock → ℕ → Lock × List Completion
unfolding trylock
lock l name = granted_or_queued true name (trylock l)

-- The end of `ocf_async_unlock` and of `ocf_async_read_unlock`.
unfoldable pub wake : Lock → Lock × List Completion
unfolding collect_waiters run_waiters
wake l =
    let c = collect_waiters l.rd l.wr l.waiters in
    (record { rd = c.rd; wr = c.wr; waiters = c.left }, run_waiters c.taken ok)

unfoldable pub unlock : Lock → Option (Lock × List Completion)
unfolding wake
unlock l = if not (is_zero l.rd) || is_zero l.wr then none else some (wake (record l { wr = 0 }))

-- `_ocf_async_read_trylock` and `ocf_async_read_trylock`
unfoldable pub read_trylock : Lock → Status × Lock
read_trylock l =
    if not (is_zero l.wr) || not (is_empty l.waiters)
    then (err_no_lock, l)
    else (ok, record l { rd = l.rd + 1 })

unfoldable pub read_lock : Lock → ℕ → Lock × List Completion
unfolding read_trylock
read_lock l name = granted_or_queued false name (read_trylock l)

unfoldable pub read_unlock : Lock → Option (Lock × List Completion)
unfolding wake
read_unlock l =
    let l' = record l { rd = l.rd - 1 } in
    if is_zero l.rd || not (is_zero l.wr)
    then none
    else some (if not (is_zero l'.rd) then (l', []) else wake l')

unfoldable pub is_locked : Lock → Bool
is_locked l = not (is_zero l.rd) || not (is_zero l.wr)

-- A client's calls.
pub data Op : Type 0 where
  write_op read_op : ℕ → Op
  try_write_op try_read_op unlock_op read_unlock_op : Op

-- One call: the lock after it, and whom it called back. A try-lock calls nobody back.
unfoldable pub step : Lock → Op → Option (Lock × List Completion)
unfolding lock read_lock trylock read_trylock unlock read_unlock
step l (write_op name) = some (lock l name)
step l (read_op name) = some (read_lock l name)
step l try_write_op = some ((trylock l).1, [])
step l try_read_op = some ((read_trylock l).1, [])
step l unlock_op = unlock l
step l read_unlock_op = read_unlock l
