-- ===== src/Ocf/Alock/Request.antt =====
-- The operations of utils/utils_alock.c on a lock table and on the requests that use it.
pub mod Overlooked
pub mod Lists
use dadi_fast_cdc.Prelude.{ℕ, zero, suc, ◌+◌, ◌-◌, ◌%◌, Bool, true, false, Option, none, some}
use dadi_fast_cdc.Prelude.{List, [], ◌∷◌, ◌++◌, ◌==◌, not, ltb, if◌then◌else◌}
use dadi_fast_cdc.Ocf.Alock.Entry.{Try, trylock_entry_wr, trylock_entry_rd, trylock_entry_rd_idle}
use dadi_fast_cdc.Ocf.Alock.Waitlist.{
  Rw, read, write, Waiter, Drained, waitlist_is_empty_locked, waitlist_add, unlock_one_common,
}

-- `struct ocf_alock`, and of the requests `lock_remaining`, `alock_status` and `core_line_count`.
-- `resumed` is the requests whose completion has been called, in order.
pub record Alock : Type 0 where
  pub access : ℕ → ℕ
  pub waiters_lsts : ℕ → List Waiter
  pub waiting : ℕ
  pub lock_remaining : ℕ → ℕ
  pub alock_status : ℕ → ℕ → Bool
  pub core_line_count : ℕ → ℕ
  pub resumed : List ℕ

abbrev pub update {ℓ} : {A : Type ℓ} → (ℕ → A) → ℕ → A → ℕ → A
update f k v j = if k == j then v else f j

unfoldable pub mark_index_locked : Alock → ℕ → ℕ → Bool → Alock
mark_index_locked a req idx locked = record a {
  alock_status = update a.alock_status req (update (a.alock_status req) idx locked);
}

unfoldable pub is_index_locked : Alock → ℕ → ℕ → Bool
is_index_locked a req idx = a.alock_status req idx

unfoldable pub entry_locked : Alock → ℕ → Option Alock
entry_locked a req =
    let left = a.lock_remaining req - 1 in
    let a' = record a { lock_remaining = update a.lock_remaining req left } in
    if a.lock_remaining req == 0
    then none
    else if not (left == 0)
    then some a'
    else if a.waiting == 0
    then none
    else some (record a' { waiting = a.waiting - 1; resumed = a.resumed ++ (req ∷ []) })

-- What follows each lock that is got for a request.
unfoldable pub granted : Alock → ℕ → ℕ → Option Alock
unfolding mark_index_locked entry_locked
granted a req idx = entry_locked (mark_index_locked a req idx true) req

abbrev pub set_access : Alock → ℕ → ℕ → Alock
set_access a entry v = record a { access = update a.access entry v }

abbrev pub with_true : Option Alock → Option (Bool × Alock)
with_true none = none
with_true (some a) = some (true, a)

-- `OCF_LOCK_ACQUIRED`, `OCF_LOCK_NOT_ACQUIRED`, or the error of `lock_entries_slow`.
pub data LockResult : Type 0 where
  acquired not_acquired : LockResult
  failed : ℕ → LockResult

-- `ocf_alock_lock_rd` and `ocf_alock_lock_wr`. `fast` and `slow` are the callbacks that the user of
-- the lock registers; `slow` returns 0 or an error.
module _ (fast : Alock → ℕ → Rw → LockResult × Alock) (slow : Alock → ℕ → Rw → ℕ × Alock) where
  -- `env_atomic_dec_return` and the way out of the slow path.
  unfoldable pub slow_end : LockResult → ℕ → ℕ × Alock → Option (LockResult × Alock)
  slow_end lock req (zero, a) =
      let left = a.lock_remaining req - 1 in
      let a' = record a { lock_remaining = update a.lock_remaining req left } in
      if a.lock_remaining req == 0
      then none
      else if not (left == 0)
      then some (lock, a')
      else if a.waiting == 0
      then none
      else some (acquired, record a' { waiting = a.waiting - 1 })
  slow_end lock req (suc e, a) =
      if a.waiting == 0
      then none
      else some (
        failed (suc e),
        record a { lock_remaining = update a.lock_remaining req 0; waiting = a.waiting - 1 },
      )

  unfoldable pub lock_slow : LockResult → Alock → ℕ → Rw → Option (LockResult × Alock)
  unfolding slow_end
  lock_slow lock a req rw =
      if not (a.lock_remaining req == 0)
      then none
      else slow_end lock req (
          slow
            (record a {
              waiting = a.waiting + 1;
              lock_remaining = update a.lock_remaining req (a.core_line_count req + 1);
            })
            req rw)

  unfoldable pub lock_request : Alock → ℕ → Rw → Option (LockResult × Alock)
  unfolding lock_slow
  lock_request a req rw =
      let (lock, a') = fast a req rw in
      if not (a.lock_remaining req == 0) then none else elim lock [
        | acquired ↦ some (acquired, a')
        | not_acquired ↦ lock_slow not_acquired a' req rw
        | failed e ↦ lock_slow (failed e) a' req rw
      ]

-- The lists are `_WAITERS_LIST_ENTRIES` many, a number that hangs on the machine's word.
module _ (waiters_list_entries : ℕ) where
  -- `_WAITERS_LIST_ITEM`
  abbrev pub item : ℕ → ℕ
  item entry = entry % waiters_list_entries

  abbrev pub enqueue : Alock → Waiter → Alock
  enqueue a w =
      let k = item w.entry in
      record a { waiters_lsts = update a.waiters_lsts k (waitlist_add (a.waiters_lsts k) w) }

  -- Under the spinlock: a second attempt, else the request waits.
  unfoldable pub lock_one_wr_locked : Alock → ℕ → ℕ → ℕ → Option (Bool × Alock)
  unfolding trylock_entry_wr
  lock_one_wr_locked a entry req idx =
      let (got, v) = trylock_entry_wr (a.access entry) in
      if got
      then with_true (granted (set_access a entry v) req idx)
      else some (true, enqueue a (record { entry = entry; idx = idx; req = req; rw = write }))

  unfoldable pub lock_one_rd_locked : Alock → ℕ → ℕ → ℕ → Option (Bool × Alock)
  unfolding trylock_entry_rd
  lock_one_rd_locked a entry req idx =
      let (got, v) = trylock_entry_rd (a.access entry) in
      if (if waitlist_is_empty_locked entry (a.waiters_lsts (item entry)) then got else false)
      then with_true (granted (set_access a entry v) req idx)
      else some (true, enqueue a (record { entry = entry; idx = idx; req = req; rw = read }))

  -- `allocated` is whether `env_allocator_new` gave a waiter, `meanwhile` what other threads do
  -- between the first attempt and the spinlock.
  unfoldable pub lock_one_wr : (Alock → Alock) → Bool → Alock → ℕ → ℕ → ℕ → Option (Bool × Alock)
  unfolding lock_one_wr_locked trylock_entry_wr
  lock_one_wr meanwhile allocated a entry req idx =
      let (got, v) = trylock_entry_wr (a.access entry) in
      if got
      then with_true (granted (set_access a entry v) req idx)
      else if not allocated
      then some (false, meanwhile a)
      else lock_one_wr_locked (meanwhile a) entry req idx

  unfoldable pub lock_one_rd : (Alock → Alock) → Bool → Alock → ℕ → ℕ → ℕ → Option (Bool × Alock)
  unfolding lock_one_rd_locked trylock_entry_rd_idle
  lock_one_rd meanwhile allocated a entry req idx =
      let (got, v) = trylock_entry_rd_idle (a.access entry) in
      if got
      then with_true (granted (set_access a entry v) req idx)
      else if not allocated
      then some (false, meanwhile a)
      else lock_one_rd_locked (meanwhile a) entry req idx

  unfoldable pub trylock_one_rd : Alock → ℕ → Bool × Alock
  trylock_one_rd a entry =
      let (got, v) = trylock_entry_rd_idle (a.access entry) in (got, set_access a entry v)

  -- The requests that a release woke, in order.
  unfoldable pub wake_all : Alock → List Waiter → Option Alock
  wake_all a [] = some a
  wake_all a (w ∷ ws) = elim (granted a w.req w.idx) [ none ↦ none | some a' ↦ wake_all a' ws ]

  abbrev pub hand_out : Alock → ℕ → Option Drained → Option Alock
  hand_out a entry none = none
  hand_out a entry (some d) =
      wake_all
        (record a {
          access = update a.access entry d.access;
          waiters_lsts = update a.waiters_lsts (item entry) d.left;
        })
        d.granted

  -- `ocf_alock_unlock_one_rd` and `ocf_alock_unlock_one_wr`
  unfoldable pub unlock_one : Rw → Alock → ℕ → Option Alock
  unlock_one held a entry =
      hand_out a entry (unlock_one_common held entry (a.access entry) (a.waiters_lsts (item entry)))

  -- `list_del` of the first waiter of the request, whatever entry it waits for.
  unfoldable pub remove_req : ℕ → List Waiter → List Waiter
  remove_req req [] = []
  remove_req req (w ∷ ws) = if w.req == req then ws else w ∷ remove_req req ws

  abbrev unmarked : ℕ → ℕ → Option Alock → Option Alock
  unmarked req i none = none
  unmarked req i (some a) = some (mark_index_locked a req i false)

  unfoldable pub waitlist_remove_entry : Alock → ℕ → ℕ → ℕ → Rw → Option Alock
  unfolding unlock_one remove_req is_index_locked mark_index_locked
  waitlist_remove_entry a req entry i rw_held =
      let k = item entry in
      if is_index_locked a req i
      then unmarked req i (unlock_one rw_held a entry)
      else some
          (record a { waiters_lsts = update a.waiters_lsts k (remove_req req (a.waiters_lsts k)) })

  unfoldable pub waitlist_is_empty : Alock → ℕ → Bool
  waitlist_is_empty a entry = waitlist_is_empty_locked entry (a.waiters_lsts (item entry))

  -- `ocf_cache_line_is_used`
  unfoldable pub is_used : Alock → ℕ → Bool
  unfolding waitlist_is_empty
  is_used a entry = if not (a.access entry == 0) then true else not (waitlist_is_empty a entry)

  unfoldable pub waitlist_count : Alock → ℕ
  waitlist_count a = a.waiting
