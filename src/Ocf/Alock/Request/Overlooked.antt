-- ===== src/Ocf/Alock/Request/Overlooked.antt =====
-- Whom the operations of utils/utils_alock.c leave waiting.
use dadi_fast_cdc.Prelude.{ℕ, ◌+◌, ◌<◌, ◌≡◌, ◌≢◌, refl, sym, ap, ◌∙◌, arith, Bool, some}
use dadi_fast_cdc.Prelude.{List, [], ◌==◌, ==_false, Bool-cases, inl, inr, length}
use dadi_fast_cdc.Ocf.Alock.Entry.{access_wr}
use dadi_fast_cdc.Ocf.Alock.Waitlist.{Rw, read, write, Waiter, waitlist_is_empty_locked, Drained}
use dadi_fast_cdc.Ocf.Alock.Waitlist.Later.{mine, NoneOverlooked}
use dadi_fast_cdc.Ocf.Alock.Waitlist.Handover.{CanRelease, unlock_one_common-handover}
use dadi_fast_cdc.Ocf.Alock.Request.{
  Alock, update, item, granted, set_access, enqueue, unlock_one, lock_one_wr_locked,
  lock_one_rd_locked, lock_one_wr, lock_one_rd,
}
use dadi_fast_cdc.Ocf.Alock.Request.Lists.{
  mine-add, waitlist_is_empty_locked-mine, mine-others, granted-same, wake_all-same,
  WriterFirst-snoc,
}

module _ (entries : ℕ) where
  -- Nobody waits for an idle line, and behind the readers of a line the first to wait is a writer.
  abbrev pub AllServed : Alock → Type 0
  AllServed a = (x : ℕ) → NoneOverlooked x (a.access x) (a.waiters_lsts (item entries x))

  -- A line that was idle is taken.
  take_idle :
      (a : Alock) (entry v : ℕ)
      → a.access entry ≡ 0
      → 0 < v
      → AllServed a
      → AllServed (set_access a entry v)
  take_idle a entry v idle pos ok x = ground (arith, ok x, ok entry)

  -- A line that readers hold, and nobody waits for, gets one more.
  take_more :
      (a : Alock) (entry : ℕ)
      → mine entry (a.waiters_lsts (item entries entry)) ≡ []
      → AllServed a
      → AllServed (set_access a entry (a.access entry + 1))
  take_more a entry nobody ok x = ground (arith, ok x)

  served-granted :
      (a : Alock) (req idx : ℕ) {a' : Alock}
      → granted a req idx ≡ some a'
      → AllServed a
      → AllServed a'
  served-granted a req idx h ok x = ground (arith, granted-same a req idx h, ok x)

  -- A request waits for a line that is taken; a reader only behind a writer or behind others.
  served-enqueue :
      (a : Alock) (w : Waiter)
      → a.access w.entry ≢ 0
      → (a.access w.entry < access_wr
          → mine w.entry (a.waiters_lsts (item entries w.entry)) ≡ []
          → w.rw ≡ write)
      → AllServed a
      → AllServed (enqueue entries a w)
  served-enqueue a w busy behind ok x = ground (
    arith,
    mine-add x (a.waiters_lsts (item entries x)) w,
    WriterFirst-snoc (mine x (a.waiters_lsts (item entries x))) w,
    ok x,
  )

  -- What an idle line is taken for.
  granted_idle :
      (a : Alock) (entry v req idx : ℕ) {a' : Alock}
      → a.access entry ≡ 0
      → 0 < v
      → granted (set_access a entry v) req idx ≡ some a'
      → AllServed a
      → AllServed a'
  granted_idle a entry v req idx idle pos h ok =
      served-granted (set_access a entry v) req idx h (take_idle a entry v idle pos ok)

  lock_one_wr_locked-served :
      (a : Alock) (entry req idx : ℕ) {b : Bool} {a' : Alock}
      → lock_one_wr_locked entries a entry req idx ≡ some (b, a')
      → AllServed a
      → AllServed a'
  unfolding lock_one_wr_locked
  lock_one_wr_locked-served a entry req idx {a'} h ok = elim (Bool-cases (a.access entry == 0)) [
    | inl idle ↦
        granted_idle a entry access_wr req idx {a' = a'} (ground arith) (omega arith) (ground arith)
          ok
    | inr busy ↦
        let waiter : Waiter = record { entry = entry; idx = idx; req = req; rw = write } in
        let queued : enqueue entries a waiter ≡ a' = ground arith in
        rw (← queued) (served-enqueue a waiter (==_false _ 0 busy) (λ p q. refl) ok)
  ]

  lock_one_rd_locked-served :
      (a : Alock) (entry req idx : ℕ) {b : Bool} {a' : Alock}
      → lock_one_rd_locked entries a entry req idx ≡ some (b, a')
      → AllServed a
      → AllServed a'
  unfolding lock_one_rd_locked
  lock_one_rd_locked-served a entry req idx {a'} h ok =
      elim (Bool-cases (waitlist_is_empty_locked entry list)) [
        | inl empty ↦ elim (Bool-cases (a.access entry == access_wr)) [
          | inr free ↦
              served-granted (set_access a entry (a.access entry + 1)) req idx {a' = a'}
                (ground arith)
                (take_more a entry (ground (arith, waitlist_is_empty_locked-mine entry list)) ok)
          | inl held ↦
              let queued : enqueue entries a waiter ≡ a' = ground arith in
              rw (← queued) (served-enqueue a waiter (ground arith) (λ p q. ground arith) ok)
        ]
        | inr others_wait ↦
            let queued : enqueue entries a waiter ≡ a' = ground arith in
            let somebody : mine entry list ≢ [] =
              ground (arith, waitlist_is_empty_locked-mine entry list) in
            rw (← queued) (
              served-enqueue a waiter (λ idle. somebody ((ok entry).0 idle))
                (λ p q. absurd (somebody q)) ok)
      ]
    where
      list : List Waiter
      list = a.waiters_lsts (item entries entry)

      waiter : Waiter
      waiter = record { entry = entry; idx = idx; req = req; rw = read }

  -- If nobody is overlooked when a write lock is asked for, nor after what other threads do before
  -- its second attempt, nobody is after it, whether it is got, waited for or refused: no request
  -- waits for an idle line, and behind the readers of a line the first to wait is a writer.
  pub lock_one_wr-served :
      (meanwhile : Alock → Alock) (allocated : Bool) (a : Alock) (entry req idx : ℕ) (b : Bool)
      (a' : Alock)
      → AllServed a
      → AllServed (meanwhile a)
      → lock_one_wr entries meanwhile allocated a entry req idx ≡ some (b, a')
      → AllServed a'
  unfolding lock_one_wr
  lock_one_wr-served meanwhile allocated a entry req idx b a' ok ok' h =
      elim (Bool-cases (a.access entry == 0)) [
        | inl idle ↦
            granted_idle a entry access_wr req idx {a' = a'} (ground arith) (omega arith)
              (ground arith) ok
        | inr busy ↦ elim (Bool-cases allocated) [
          | inl there ↦
              lock_one_wr_locked-served (meanwhile a) entry req idx {b = b} {a' = a'} (ground arith)
                ok'
          | inr refused ↦ let same : meanwhile a ≡ a' = ground arith in rw (← same) ok'
        ]
      ]

  -- The same of a read lock.
  pub lock_one_rd-served :
      (meanwhile : Alock → Alock) (allocated : Bool) (a : Alock) (entry req idx : ℕ) (b : Bool)
      (a' : Alock)
      → AllServed a
      → AllServed (meanwhile a)
      → lock_one_rd entries meanwhile allocated a entry req idx ≡ some (b, a')
      → AllServed a'
  unfolding lock_one_rd
  lock_one_rd-served meanwhile allocated a entry req idx b a' ok ok' h =
      elim (Bool-cases (a.access entry == 0)) [
        | inl idle ↦
            granted_idle a entry 1 req idx {a' = a'} (ground arith) (omega arith) (ground arith) ok
        | inr busy ↦ elim (Bool-cases allocated) [
          | inl there ↦
              lock_one_rd_locked-served (meanwhile a) entry req idx {b = b} {a' = a'} (ground arith)
                ok'
          | inr refused ↦ let same : meanwhile a ≡ a' = ground arith in rw (← same) ok'
        ]
      ]

  -- A release wakes those it must, on its own line and on the others that share the list: from a
  -- state in which nobody is overlooked it leads to such a state.
  pub unlock_one-served :
      (held : Rw) (a : Alock) (entry : ℕ) (a' : Alock)
      → AllServed a
      → CanRelease held (a.access entry) (length (a.waiters_lsts (item entries entry)))
      → unlock_one entries held a entry ≡ some a'
      → AllServed a'
  unfolding unlock_one
  unlock_one-served held a entry a' ok can h x =
      let out = unlock_one_common-handover held entry (a.access entry) list can in
      let d = out.0 in
      let same = wake_all-same entries (handed d) d.granted {a' = a'} (ground (arith, out.1)) in
      let word = ap (λ (f : ℕ → ℕ). f x) same.0 in
      let waiters = ap (λ (f : ℕ → List Waiter). f (item entries x)) same.1 in
      elim (Bool-cases (entry == x)) [
        | inl own ↦ let e : entry ≡ x = ground arith in ground (arith, word, waiters, out.5)
        | inr other ↦
            let kept : mine x d.left ≡ mine x list =
              sym (mine-others x entry d.left (ground arith))
              ∙ ap (mine x) out.3
              ∙ mine-others x entry list (ground arith) in
            ground (arith, word, waiters, kept, ok x)
      ]
    where
      list : List Waiter
      list = a.waiters_lsts (item entries entry)

      handed : Drained → Alock
      handed d = record a {
        access = update a.access entry d.access;
        waiters_lsts = update a.waiters_lsts (item entries entry) d.left;
      }
