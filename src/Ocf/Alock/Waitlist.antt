-- ===== src/Ocf/Alock/Waitlist.antt =====
-- The waiters' lists of utils/utils_alock.c, and the hand-over of a line's lock to its waiters.
pub mod Later
pub mod Handover
use dadi_fast_cdc.Prelude.{ℕ, Bool, true, false, Option, none, some, List, [], ◌∷◌, ◌++◌}
use dadi_fast_cdc.Prelude.{◌==◌, not, if◌then◌else◌}
use dadi_fast_cdc.Ocf.Alock.Entry.{
  Try, trylock_entry_wr, trylock_entry_rd, unlock_entry_wr, unlock_entry_rd, trylock_entry_wr2wr,
  trylock_entry_wr2rd, trylock_entry_rd2wr, trylock_entry_rd2rd,
}

-- `struct ocf_alock_waiter`; `rw` is `OCF_WRITE` or `OCF_READ`.
pub data Rw : Type 0 where
  read write : Rw

pub record Waiter : Type 0 where
  pub entry : ℕ
  pub idx : ℕ
  pub req : ℕ
  pub rw : Rw

-- `ocf_alock_waitlist_is_empty_locked`: nobody on the list waits for this entry.
unfoldable pub waitlist_is_empty_locked : ℕ → List Waiter → Bool
waitlist_is_empty_locked entry [] = true
waitlist_is_empty_locked entry (w ∷ ws) =
    if w.entry == entry then false else waitlist_is_empty_locked entry ws

unfoldable pub waitlist_add : List Waiter → Waiter → List Waiter
waitlist_add ws w = ws ++ (w ∷ [])

-- The lock that is released: `Rw.write` for `ocf_alock_unlock_one_wr_common`.
unfoldable pub exchange : Rw → Rw → ℕ → Option Try
unfolding trylock_entry_rd2wr trylock_entry_rd2rd trylock_entry_wr2wr trylock_entry_wr2rd
exchange read write v = trylock_entry_rd2wr v
exchange read read v = trylock_entry_rd2rd v
exchange write write v = trylock_entry_wr2wr v
exchange write read v = trylock_entry_wr2rd v

unfoldable pub fresh_lock : Rw → ℕ → Option Try
unfolding trylock_entry_wr trylock_entry_rd
fresh_lock write v = some (trylock_entry_wr v)
fresh_lock read v = some (trylock_entry_rd v)

-- Where the loop over the list stands at its end.
pub record Drained : Type 0 where
  pub granted : List Waiter
  pub left : List Waiter
  pub access : ℕ
  pub exchanged : Bool

abbrev keep : Waiter → Option Drained → Option Drained
keep w none = none
keep w (some d) = some (record d { left = w ∷ d.left })

abbrev grant : Waiter → Option Drained → Option Drained
grant w none = none
grant w (some d) = some (record d { granted = w ∷ d.granted })

-- `list_for_each_safe`, with `exchanged` and the access word; `locked` false breaks the loop.
unfoldable pub drain : Rw → ℕ → Bool → ℕ → List Waiter → Option Drained
unfolding exchange fresh_lock
drain held entry exchanged v [] =
    some (record { granted = []; left = []; access = v; exchanged = exchanged })
drain held entry exchanged v (w ∷ ws) = elim (entry == w.entry) [
  | false ↦ keep w (drain held entry exchanged v ws)
  | true ↦ elim (if exchanged then exchange held w.rw v else fresh_lock w.rw v) [
    | none ↦ none
    | some (locked, v') ↦ elim locked [
      | true ↦ grant w (drain held entry false v' ws)
      | false ↦ some (record { granted = []; left = w ∷ ws; access = v; exchanged = exchanged })
    ]
  ]
]

unfoldable pub unlock_entry : Rw → ℕ → Option ℕ
unfolding unlock_entry_rd unlock_entry_wr
unlock_entry read v = unlock_entry_rd v
unlock_entry write v = unlock_entry_wr v

abbrev pub release : Rw → Drained → Option Drained
release held d =
    if d.exchanged
    then (elim (unlock_entry held d.access) [
      | none ↦ none
      | some v ↦ some (record d { access = v })
    ])
    else some d

abbrev pub released : Rw → Option Drained → Option Drained
released held none = none
released held (some d) = release held d

-- `ocf_alock_unlock_one_rd_common` and `ocf_alock_unlock_one_wr_common`: whom they wake, the list and
-- the word after them.
unfoldable pub unlock_one_common : Rw → ℕ → ℕ → List Waiter → Option Drained
unfolding drain unlock_entry
unlock_one_common held entry v ws = released held (drain held entry true v ws)
