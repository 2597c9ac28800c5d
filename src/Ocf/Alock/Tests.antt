-- ===== src/Ocf/Alock/Tests.antt =====
-- Runs of the lines' locks.
use dadi_fast_cdc.Prelude.{
  ◌+◌, ◌≡◌, refl, arith, true, false, some, List, [], ◌∷◌, ◌++◌, ◌==◌, if◌then◌else◌,
}
use dadi_fast_cdc.Ocf.Alock.Entry.{access_wr, trylock_entry_wr2rd}
use dadi_fast_cdc.Ocf.Alock.Waitlist.{
  read, write, Waiter, Drained, unlock_one_common, drain, exchange,
}
use dadi_fast_cdc.Ocf.Alock.Waitlist.Later.{mine, others, readers, writers, Holds, NoneOverlooked}
use dadi_fast_cdc.Ocf.Alock.Waitlist.Handover.{staying, unlock_one_common-handover}
use dadi_fast_cdc.Ocf.Alock.Request.{
  Alock, update, granted, unlock_one, wake_all, mark_index_locked, entry_locked,
}
use dadi_fast_cdc.Ocf.Alock.Request.Overlooked.{AllServed}

abbrev reader_of_5 : Waiter
reader_of_5 = record { entry = 5; idx = 0; req = 1; rw = read }

abbrev reader_of_21 : Waiter
reader_of_21 = record { entry = 21; idx = 0; req = 2; rw = read }

abbrev writer_of_5 : Waiter
writer_of_5 = record { entry = 5; idx = 1; req = 3; rw = write }

abbrev queue : List Waiter
queue = reader_of_5 ∷ reader_of_21 ∷ writer_of_5 ∷ []

unlock_one_common-handover_example :
    (d : Drained) × (unlock_one_common write 5 access_wr queue ≡ some d)
    × (d.granted ++ mine 5 d.left ≡ mine 5 queue)
    × (others 5 d.left ≡ others 5 queue)
    × Holds d.access (staying write access_wr + readers d.granted) (writers d.granted)
    × NoneOverlooked 5 d.access d.left
unlock_one_common-handover_example =
    unlock_one_common-handover write 5 access_wr queue (omega arith)

-- A writer holds line 5, of the lines that share the list 5 of 16.
abbrev held : List Waiter → Alock
held ws = record {
  access = λ x. if x == 5 then access_wr else 0;
  waiters_lsts = λ k. if k == 5 then ws else [];
  waiting = 3;
  lock_remaining = λ req. 1;
  alock_status = λ req idx. false;
  core_line_count = λ req. 1;
  resumed = [];
}

held-AllServed : AllServed 16 (held (reader_of_5 ∷ []))
held-AllServed x = ground arith

abbrev unchanged : Alock → Alock
unchanged a = a

-- The waiting reader has the line and goes on.
abbrev handed_on : Alock
handed_on =
    let a = held (reader_of_5 ∷ []) in
    record a {
      access = update a.access 5 1;
      waiters_lsts = update a.waiters_lsts 5 [];
      alock_status = update a.alock_status 1 (update (a.alock_status 1) 0 true);
      lock_remaining = update a.lock_remaining 1 0;
      waiting = 2;
      resumed = 1 ∷ [];
    }

held-unlock_one : unlock_one 16 write (held (reader_of_5 ∷ [])) 5 ≡ some handed_on
unfolding unlock_one unlock_one_common drain exchange trylock_entry_wr2rd wake_all granted
    mark_index_locked entry_locked
held-unlock_one = refl
