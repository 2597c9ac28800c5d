-- ===== src/Ocf/Alock/Entry.antt =====
-- One line's `access` word: idle, a number of readers, or a writer.
use dadi_fast_cdc.Prelude.{ℕ, ◌+◌, ◌-◌, ◌^◌, Bool, true, false, Option, none, some}
use dadi_fast_cdc.Prelude.{◌==◌, not, ◌||◌, if◌then◌else◌}

-- `OCF_CACHE_LINE_ACCESS_WR`, `INT_MAX`
abbrev pub access_wr : ℕ
access_wr = 2 ^ 31 - 1

abbrev pub access_idle : ℕ
access_idle = 0

abbrev pub access_one_rd : ℕ
access_one_rd = 1

-- Whether the lock was got, and the word after it.
abbrev pub Try : Type 0
Try = Bool × ℕ

-- `env_atomic_cmpxchg(access, old, new) == old`
abbrev pub cmpxchg : ℕ → ℕ → ℕ → Try
cmpxchg v old new = if v == old then (true, new) else (false, v)

unfoldable pub trylock_entry_wr : ℕ → Try
trylock_entry_wr v = cmpxchg v access_idle access_wr

unfoldable pub trylock_entry_rd_idle : ℕ → Try
trylock_entry_rd_idle v = cmpxchg v access_idle access_one_rd

-- `env_atomic_add_unless(access, 1, OCF_CACHE_LINE_ACCESS_WR)`
unfoldable pub trylock_entry_rd : ℕ → Try
trylock_entry_rd v = if v == access_wr then (false, v) else (true, v + 1)

unfoldable pub unlock_entry_wr : ℕ → Option ℕ
unlock_entry_wr v = if not (v == access_wr) then none else some access_idle

unfoldable pub unlock_entry_rd : ℕ → Option ℕ
unlock_entry_rd v = if v == 0 || v == access_wr then none else some (v - 1)

unfoldable pub trylock_entry_wr2wr : ℕ → Option Try
trylock_entry_wr2wr v = if not (v == access_wr) then none else some (true, v)

unfoldable pub trylock_entry_wr2rd : ℕ → Option Try
trylock_entry_wr2rd v = if not (v == access_wr) then none else some (true, access_one_rd)

unfoldable pub trylock_entry_rd2wr : ℕ → Option Try
trylock_entry_rd2wr v =
    if v == access_idle || v == access_wr then none else some (cmpxchg v access_one_rd access_wr)

unfoldable pub trylock_entry_rd2rd : ℕ → Option Try
trylock_entry_rd2rd v = if v == access_idle || v == access_wr then none else some (true, v)
