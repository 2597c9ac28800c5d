-- ===== src/Ocf/Alock/Waitlist/Later.antt =====
-- The loop of a release over the waiters, after a first waiter has the lock.
use dadi_fast_cdc.Prelude.{ℕ, ◌+◌, ◌<◌, ◌≡◌, ◌⊎◌, refl, inl, inr, arith}
use dadi_fast_cdc.Prelude.{true, false, some, List, [], ◌∷◌, ◌++◌, length}
use dadi_fast_cdc.Prelude.{◌==◌, if◌then◌else◌, Bool-cases}
use dadi_fast_cdc.Ocf.Alock.Entry.{access_wr}
use dadi_fast_cdc.Ocf.Alock.Waitlist.{Rw, read, write, Waiter, Drained, drain}

-- Those on the list who wait for `entry`, and those who do not.
abbrev pub mine : ℕ → List Waiter → List Waiter
mine entry [] = []
mine entry (w ∷ ws) = if entry == w.entry then w ∷ mine entry ws else mine entry ws

abbrev pub others : ℕ → List Waiter → List Waiter
others entry [] = []
others entry (w ∷ ws) = if entry == w.entry then others entry ws else w ∷ others entry ws

abbrev pub readers : List Waiter → ℕ
readers [] = 0
readers (w ∷ ws) = (elim w.rw [ read ↦ 1 | write ↦ 0 ]) + readers ws

abbrev pub writers : List Waiter → ℕ
writers [] = 0
writers (w ∷ ws) = (elim w.rw [ read ↦ 0 | write ↦ 1 ]) + writers ws

abbrev pub WriterFirst : List Waiter → Type 0
WriterFirst [] = Unit
WriterFirst (w ∷ ws) = w.rw ≡ write

-- The word `v` stands for `r` readers and `n` writers.
abbrev pub Holds : ℕ → ℕ → ℕ → Type 0
Holds v r n = ((n ≡ 0) × (v ≡ r) × (r < access_wr)) ⊎ ((n ≡ 1) × (r ≡ 0) × (v ≡ access_wr))

-- Nobody waits for an idle line, and behind readers the first to wait is a writer.
abbrev pub NoneOverlooked : ℕ → ℕ → List Waiter → Type 0
NoneOverlooked entry v ws =
    (v ≡ 0 → mine entry ws ≡ []) × (v < access_wr → WriterFirst (mine entry ws))

-- The loop after a first grant.
pub record Later (entry v : ℕ) (ws : List Waiter) (d : Drained) : Type 0 where
  pub done : d.exchanged ≡ false
  pub order : d.granted ++ mine entry d.left ≡ mine entry ws
  pub rest : others entry d.left ≡ others entry ws
  pub kept_wr : v ≡ access_wr → (d.access ≡ access_wr) × (d.granted ≡ [])
  pub counted :
      v < access_wr
      → (d.access ≡ v + readers d.granted)
        × (writers d.granted ≡ 0)
        × (d.access < access_wr)
        × WriterFirst (mine entry d.left)

pub Rw-cases : (m : Rw) → (m ≡ read) ⊎ (m ≡ write)
Rw-cases read = inl refl
Rw-cases write = inr refl

pub Later-keep :
    (entry v : ℕ) (w : Waiter) (ws : List Waiter) (d : Drained)
    → (entry == w.entry) ≡ false
    → Later entry v ws d
    → Later entry v (w ∷ ws) (record d { left = w ∷ d.left })
Later-keep entry v w ws d t l = ground arith

pub Later-grant :
    (entry v : ℕ) (w : Waiter) (ws : List Waiter) (d : Drained)
    → (entry == w.entry) ≡ true
    → w.rw ≡ read
    → v + 1 < access_wr
    → Later entry (v + 1) ws d
    → Later entry v (w ∷ ws) (record d { granted = w ∷ d.granted })
Later-grant entry v w ws d t m fits l = ground arith

abbrev stopped : Waiter → List Waiter → ℕ → Drained
stopped w ws v = record { granted = []; left = w ∷ ws; access = v; exchanged = false }

pub drain-Later :
    (held : Rw) (entry v : ℕ) (ws : List Waiter)
    → 0 < v
    → (v ≡ access_wr) ⊎ (v + length ws < access_wr)
    → (d : Drained) × (drain held entry false v ws ≡ some d) × Later entry v ws d
unfolding drain
drain-Later held entry v [] pos fits =
    (record { granted = []; left = []; access = v; exchanged = false }, refl, ground arith)
drain-Later held entry v (w ∷ ws) pos fits = elim (Bool-cases (entry == w.entry)) [
  | inr t ↦
      let r = drain-Later held entry v ws pos (omega arith) in
      (record r.0 { left = w ∷ r.0.left }, ground (arith, r.1), Later-keep entry v w ws r.0 t r.2)
  | inl t ↦ elim (Rw-cases w.rw) [
    | inr is_write ↦ (stopped w ws v, ground arith, ground arith)
    | inl is_read ↦ elim (Bool-cases (v == access_wr)) [
      | inl full ↦ (stopped w ws v, ground arith, ground arith)
      | inr free ↦
          let r = drain-Later held entry (v + 1) ws (omega arith) (ground arith) in
          (
            record r.0 { granted = w ∷ r.0.granted },
            ground (arith, r.1),
            Later-grant entry v w ws r.0 t is_read (ground arith) r.2,
          )
    ]
  ]
]
