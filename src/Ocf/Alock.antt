-- ===== src/Ocf/Alock.antt =====
-- utils/utils_alock.c of the cache engine: a lock for each cache line, taken by one writer or many
-- readers, with lists of waiting requests that the lines share. A step under the spinlock of a list
-- is one function here. `none` is an `ENV_BUG_ON`. The atomic integers are natural numbers, and a
-- decrement of `lock_remaining` at zero, which would make it negative, is `none` too.
pub mod Entry
pub mod Waitlist
pub mod Request
pub mod Lifecycle
mod Tests
