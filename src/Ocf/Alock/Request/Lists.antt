-- ===== src/Ocf/Alock/Request/Lists.antt =====
-- The lists of utils/utils_alock.c as seen from one line, and what granting a lock leaves alone.
use dadi_fast_cdc.Prelude.{ℕ, ◌≡◌, ◌≢◌, refl, ◌∙◌, arith, true, false, some}
use dadi_fast_cdc.Prelude.{List, [], ◌∷◌, ◌++◌, ◌==◌, if◌then◌else◌, Option-cases, inl, inr}
use dadi_fast_cdc.Ocf.Alock.Waitlist.{Waiter, write, waitlist_is_empty_locked, waitlist_add}
use dadi_fast_cdc.Ocf.Alock.Waitlist.Later.{mine, others, WriterFirst}
use dadi_fast_cdc.Ocf.Alock.Request.{Alock, granted, wake_all}

pub mine-add :
    (x : ℕ) (ws : List Waiter) (w : Waiter)
    → mine x (waitlist_add ws w) ≡ mine x ws ++ (if x == w.entry then w ∷ [] else [])
unfolding waitlist_add
mine-add x [] w = refl
mine-add x (y ∷ ys) w = ground (arith, mine-add x ys w)

-- `ocf_alock_waitlist_is_empty_locked` says whether nobody waits for the entry.
pub waitlist_is_empty_locked-mine :
    (entry : ℕ) (ws : List Waiter)
    → waitlist_is_empty_locked entry ws ≡ (elim (mine entry ws) [ [] ↦ true | w ∷ r ↦ false ])
unfolding waitlist_is_empty_locked
waitlist_is_empty_locked-mine entry [] = refl
waitlist_is_empty_locked-mine entry (w ∷ ws) =
    ground (arith, waitlist_is_empty_locked-mine entry ws)

-- Another line's waiters are among the others.
pub mine-others :
    (x entry : ℕ) (ws : List Waiter) → x ≢ entry → mine x (others entry ws) ≡ mine x ws
mine-others x entry [] ne = refl
mine-others x entry (w ∷ ws) ne = ground (arith, mine-others x entry ws)

pub granted-same :
    (a : Alock) (req idx : ℕ) {a' : Alock}
    → granted a req idx ≡ some a'
    → (a'.access ≡ a.access) × (a'.waiters_lsts ≡ a.waiters_lsts)
unfolding granted
granted-same a req idx h = ground arith

pub wake_all-same :
    (n : ℕ) (a : Alock) (ws : List Waiter) {a' : Alock}
    → wake_all n a ws ≡ some a'
    → (a'.access ≡ a.access) × (a'.waiters_lsts ≡ a.waiters_lsts)
unfolding wake_all
wake_all-same n a [] h = ground arith
wake_all-same n a (w ∷ ws) {a'} h = elim (Option-cases (granted a w.req w.idx)) [
  | inl bug ↦ ground arith
  | inr (b, got) ↦
      let later = wake_all-same n b ws {a' = a'} (ground arith) in
      let now = granted-same a w.req w.idx got in (later.0 ∙ now.0, later.1 ∙ now.1)
]

pub WriterFirst-snoc :
    (ws : List Waiter) (w : Waiter)
    → WriterFirst ws
    → (ws ≡ [] → w.rw ≡ write)
    → WriterFirst (ws ++ (w ∷ []))
WriterFirst-snoc [] w h k = k refl
WriterFirst-snoc (x ∷ xs) w h k = h
