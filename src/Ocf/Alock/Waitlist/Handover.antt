-- ===== src/Ocf/Alock/Waitlist/Handover.antt =====
-- What a release does with a line's lock: whom it wakes, and who holds the lock afterwards.
use dadi_fast_cdc.Prelude.{ℕ, suc, ◌+◌, ◌-◌, ◌<◌, ◌≡◌, ◌≢◌, ◌⊎◌, refl, inl, inr, arith}
use dadi_fast_cdc.Prelude.{true, false, some, List, [], ◌∷◌, ◌++◌, length}
use dadi_fast_cdc.Prelude.{◌==◌, Bool-cases, ==_false}
use dadi_fast_cdc.Ocf.Alock.Entry.{access_wr}
use dadi_fast_cdc.Ocf.Alock.Waitlist.{
  Rw, read, write, Waiter, Drained, exchange, drain, unlock_entry, unlock_one_common,
}
use dadi_fast_cdc.Ocf.Alock.Waitlist.Later.{
  mine, others, readers, writers, WriterFirst, Holds, NoneOverlooked, Later, Rw-cases, drain-Later,
}

-- The readers that stay when one holder of the kind `held` goes.
abbrev pub staying : Rw → ℕ → ℕ
staying read v = v - 1
staying write v = 0

-- `v` is a word at which a holder of the kind `held` can release the lock, with room for readers.
abbrev pub CanRelease : Rw → ℕ → ℕ → Type 0
CanRelease read v n = (0 < v) × (v + n < access_wr)
CanRelease write v n = (v ≡ access_wr) × (n + 1 < access_wr)

-- The whole loop: nobody was granted the lock, or the lock changed hands.
record First (held : Rw) (entry v : ℕ) (ws : List Waiter) (d : Drained) : Type 0 where
  order : d.granted ++ mine entry d.left ≡ mine entry ws
  rest : others entry d.left ≡ others entry ws
  untouched :
      d.exchanged ≡ true
      → (d.access ≡ v)
        × (d.granted ≡ [])
        × ((mine entry d.left ≡ []) ⊎ ((held ≡ read) × (v ≢ 1) × WriterFirst (mine entry d.left)))
  handed :
      d.exchanged ≡ false
      → Holds d.access (staying held v + readers d.granted) (writers d.granted)
        × (0 < d.access)
        × (d.access < access_wr → WriterFirst (mine entry d.left))

First-keep :
    (held : Rw) (entry v : ℕ) (w : Waiter) (ws : List Waiter) (d : Drained)
    → (entry == w.entry) ≡ false
    → First held entry v ws d
    → First held entry v (w ∷ ws) (record d { left = w ∷ d.left })
First-keep held entry v w ws d t f = ground arith

-- The first grant, which leaves the word `v'`.
First-grant :
    (held : Rw) (entry v v' : ℕ) (w : Waiter) (ws : List Waiter) (d : Drained)
    → (entry == w.entry) ≡ true
    → 0 < v'
    → ((w.rw ≡ read) × (v' ≡ staying held v + 1) × (v' < access_wr))
      ⊎ ((w.rw ≡ write) × (v' ≡ access_wr) × (staying held v ≡ 0))
    → Later entry v' ws d
    → First held entry v (w ∷ ws) (record d { granted = w ∷ d.granted })
First-grant held entry v v' w ws d t pos how l = ground arith

CanRelease-tail : (held : Rw) (v n : ℕ) → CanRelease held v (suc n) → CanRelease held v n
CanRelease-tail read v n can = omega arith
CanRelease-tail write v n can = omega arith

module _ (held : Rw) (entry v : ℕ) (w : Waiter) (ws : List Waiter)
    (t : (entry == w.entry) ≡ true) where
  -- The first to wait is granted the lock, and the loop goes on from the word `v'`.
  hand_over :
      (v' : ℕ)
      → exchange held w.rw v ≡ some (true, v')
      → 0 < v'
      → ((w.rw ≡ read) × (v' ≡ staying held v + 1) × (v' < access_wr))
        ⊎ ((w.rw ≡ write) × (v' ≡ access_wr) × (staying held v ≡ 0))
      → (v' ≡ access_wr) ⊎ (v' + length ws < access_wr)
      → (d : Drained) × (drain held entry true v (w ∷ ws) ≡ some d) × First held entry v (w ∷ ws) d
  unfolding drain
  hand_over v' e pos how fits =
      let r = drain-Later held entry v' ws pos fits in
      (
        record r.0 { granted = w ∷ r.0.granted },
        ground (arith, r.1),
        First-grant held entry v v' w ws r.0 t pos how r.2,
      )

  -- Other readers stay, and the first to wait is a writer.
  not_yet :
      exchange held w.rw v ≡ some (false, v)
      → held ≡ read
      → v ≢ 1
      → w.rw ≡ write
      → (d : Drained) × (drain held entry true v (w ∷ ws) ≡ some d) × First held entry v (w ∷ ws) d
  unfolding drain
  not_yet e h ne m = (
    record { granted = []; left = w ∷ ws; access = v; exchanged = true },
    ground arith,
    ground arith,
  )

own_head :
    (held : Rw) (entry v : ℕ) (w : Waiter) (ws : List Waiter)
    → (entry == w.entry) ≡ true
    → CanRelease held v (suc (length ws))
    → (d : Drained) × (drain held entry true v (w ∷ ws) ≡ some d) × First held entry v (w ∷ ws) d
unfolding exchange
own_head read entry v w ws t can = elim (Rw-cases w.rw) [
  | inl m ↦
      hand_over read entry v w ws t v (ground arith) (omega arith) (ground arith) (omega arith)
  | inr m ↦ elim (Bool-cases (v == 1)) [
    | inl one ↦
        hand_over read entry v w ws t access_wr (ground arith) (omega arith) (ground arith)
          (inl refl)
    | inr more ↦ not_yet read entry v w ws t (ground arith) refl (==_false v 1 more) m
  ]
]
own_head write entry v w ws t can = elim (Rw-cases w.rw) [
  | inl m ↦
      hand_over write entry v w ws t 1 (ground arith) (omega arith) (ground arith) (omega arith)
  | inr m ↦
      hand_over write entry v w ws t access_wr (ground arith) (omega arith) (ground arith)
        (inl refl)
]

drain-First :
    (held : Rw) (entry v : ℕ) (ws : List Waiter)
    → CanRelease held v (length ws)
    → (d : Drained) × (drain held entry true v ws ≡ some d) × First held entry v ws d
unfolding drain
drain-First held entry v [] can =
    (record { granted = []; left = []; access = v; exchanged = true }, refl, ground arith)
drain-First held entry v (w ∷ ws) can = elim (Bool-cases (entry == w.entry)) [
  | inl t ↦ own_head held entry v w ws t can
  | inr t ↦
      let r = drain-First held entry v ws (CanRelease-tail held v (length ws) can) in
      (
        record r.0 { left = w ∷ r.0.left },
        ground (arith, r.1),
        First-keep held entry v w ws r.0 t r.2,
      )
]

unlock_entry-staying :
    (held : Rw) (v n : ℕ) → CanRelease held v n → unlock_entry held v ≡ some (staying held v)
unfolding unlock_entry
unlock_entry-staying read v n can = ground arith
unlock_entry-staying write v n can = ground arith

-- The word after a release that woke nobody.
alone :
    (held : Rw) (entry v n : ℕ) (ws : List Waiter)
    → CanRelease held v n
    → (mine entry ws ≡ []) ⊎ ((held ≡ read) × (v ≢ 1) × WriterFirst (mine entry ws))
    → Holds (staying held v) (staying held v + 0) 0 × NoneOverlooked entry (staying held v) ws
alone read entry v n ws can none_first = ground arith
alone write entry v n ws can none_first = ground arith

-- A release by a holder of the kind `held`, at a word that such a holder can leave, meets no
-- `ENV_BUG_ON`. Those it wakes followed by those still waiting for the line are those who waited, in
-- order, and the waiters for other lines stay. The word then stands for the readers that stay and
-- those woken, or for the one writer woken; nobody waits for an idle line, and behind readers the
-- first to wait is a writer.
pub unlock_one_common-handover :
    (held : Rw) (entry v : ℕ) (ws : List Waiter)
    → CanRelease held v (length ws)
    → (d : Drained) × (unlock_one_common held entry v ws ≡ some d)
      × (d.granted ++ mine entry d.left ≡ mine entry ws)
      × (others entry d.left ≡ others entry ws)
      × Holds d.access (staying held v + readers d.granted) (writers d.granted)
      × NoneOverlooked entry d.access d.left
unfolding unlock_one_common
unlock_one_common-handover held entry v ws can =
    let r = drain-First held entry v ws can in
    elim (Bool-cases r.0.exchanged) [
      | inr handed_over ↦
          let after = r.2.handed handed_over in
          (
            r.0,
            ground (arith, r.1),
            r.2.order,
            r.2.rest,
            after.0,
            (λ idle. absurd (omega (arith, after.1)), after.2),
          )
      | inl nobody ↦
          let same = r.2.untouched nobody in
          let word = unlock_entry-staying held v (length ws) can in
          let good = alone held entry v (length ws) r.0.left can same.2 in
          (
            record r.0 { access = staying held v },
            ground (arith, r.1, word),
            r.2.order,
            r.2.rest,
            ground (arith, good.0),
            good.1,
          )
    ]
