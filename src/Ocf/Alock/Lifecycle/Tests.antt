-- ===== src/Ocf/Alock/Lifecycle/Tests.antt =====
-- The creation of a lock table that fails half-way.
use dadi_fast_cdc.Prelude.{true, ◌==◌, if◌then◌else◌}
use dadi_fast_cdc.Ocf.Alock.Lifecycle.{Environment}

-- The third spinlock cannot be initialised.
abbrev third_fails : Environment
third_fails = record {
  object_given = true;
  mutex_err = 0;
  table_given = true;
  allocator_given = true;
  spinlock_err = λ i. if i == 2 then 12 else 0;
}
