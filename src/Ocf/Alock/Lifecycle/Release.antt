-- ===== src/Ocf/Alock/Lifecycle/Release.antt =====
-- What `ocf_alock_init` and `ocf_alock_deinit` acquire is released, once.
use dadi_fast_cdc.Prelude.{
  ℕ, ◌+◌, ◌≡◌, refl, ap, inl, inr, arith, Bool, true, false, Option, none, some,
}
use dadi_fast_cdc.Prelude.{List, [], ◌∷◌, ◌++◌, ◌==◌, if◌then◌else◌, Bool-cases}
use dadi_fast_cdc.Ocf.Alock.Lifecycle.{
  Resource, object, mutex, table, allocator, Event, get, put, Environment, init_spinlocks, unwind,
  allocation_err, init_inplace, create, destroy_spinlocks, destroy, ended, preceded,
}
use dadi_fast_cdc.Ocf.Alock.Lifecycle.Locks.{
  times, gets, puts, below, reached, below-zero, gets-append, puts-append, unwind-lem,
  destroy_spinlocks-lem, init_spinlocks-lem,
}

module _ (r : Resource) where
  -- What a table that is there has of `r`.
  abbrev owed : ℕ → Bool → ℕ
  owed n true = times r mutex + (times r table + (times r allocator + below r n))
  owed n false = 0

  ended-lem :
      (n : ℕ) (out : Option ℕ × List Event)
      → puts r out.1 ≡ 0
      → gets r out.1 ≡ below r (reached n out.0)
      → times r mutex + (times r table + (times r allocator + gets r (ended out).1))
        ≡ puts r (ended out).1 + owed n (ended out).0
  unfolding allocation_err
  ended-lem n (none, es) p q = omega (arith, p, q)
  ended-lem n (some i, es) p q = omega (
    arith,
    p,
    q,
    gets-append r es (unwind i ++ allocation_err true true),
    puts-append r es (unwind i ++ allocation_err true true),
    gets-append r (unwind i) (allocation_err true true),
    puts-append r (unwind i) (allocation_err true true),
    unwind-lem r i,
  )

  init_inplace-lem :
      (n : ℕ) (env : Environment)
      → let out = init_inplace n env false in gets r out.1 ≡ puts r out.1 + owed n out.0
  unfolding init_inplace allocation_err
  init_inplace-lem n env = elim (Bool-cases (env.mutex_err == 0)) [
    | inr t ↦ rw t (omega arith)
    | inl t ↦ elim (Bool-cases env.table_given) [
      | inr u ↦ rw (t, u) (omega arith)
      | inl u ↦ elim (Bool-cases env.allocator_given) [
        | inr v ↦ rw (t, u, v) (omega arith)
        | inl v ↦
            let locks = init_spinlocks-lem r env n 0 in
            let out = init_spinlocks env n 0 in
            let total : gets r out.1 ≡ below r (reached n out.0) =
              omega
                (arith, locks.1, below-zero r, ap (λ e. below r (reached e out.0)) (zero_add n)) in
            rw (t, u, v) (grouped n (ended out) (ended-lem n out locks.0 total))
      ]
    ]
  ]
    where
      zero_add : (a : ℕ) → 0 + a ≡ a
      zero_add a = omega arith

      grouped :
          (n : ℕ) (out : Bool × List Event)
          → times r mutex + (times r table + (times r allocator + gets r out.1))
            ≡ puts r out.1 + owed n out.0
          → let all = preceded (get mutex) (preceded (get table) (preceded (get allocator) out)) in
            gets r all.1 ≡ puts r all.1 + owed n all.0
      grouped n (done, es) h = h

  destroy-lem :
      (n : ℕ)
      → (gets r (destroy n true) ≡ 0) × (puts r (destroy n true) ≡ owed n true + times r object)
  unfolding destroy
  destroy-lem n =
      let locks = destroy_spinlocks-lem r n 0 in
      let last = put table ∷ put allocator ∷ put object ∷ [] in
      (
        omega (arith, locks.0, gets-append r (destroy_spinlocks n 0) last),
        omega (
          arith,
          locks.1,
          below-zero r,
          ap (below r) (zero_add n),
          puts-append r (destroy_spinlocks n 0) last,
        ),
      )
    where
      zero_add : (a : ℕ) → 0 + a ≡ a
      zero_add a = omega arith

destroy-nothing : (r : Resource) (n : ℕ) → gets r (destroy n false) ≡ puts r (destroy n false)
unfolding destroy
destroy-nothing r n = refl

-- Whether `ocf_alock_init` fails, at whatever point, or succeeds and `ocf_alock_deinit` follows:
-- each resource is released as often as it was acquired.
pub create-released :
    (waiters_list_entries : ℕ) (env : Environment) (r : Resource)
    → let (done, made) = create waiters_list_entries env in
      let events = made ++ destroy waiters_list_entries done in gets r events ≡ puts r events
unfolding create
create-released n env r = elim (Bool-cases env.object_given) [
  | inr t ↦ rw t (destroy-nothing r n)
  | inl t ↦ rw t (after_inplace (init_inplace n env false) (init_inplace-lem r n env))
]
  where
    after_inplace :
        (out : Bool × List Event)
        → gets r out.1 ≡ puts r out.1 + owed r n out.0
        → let (done, made) =
            preceded
              (get object)
              (if out.0 then (true, out.1) else (false, out.1 ++ (put object ∷ []))) in
          gets r (made ++ destroy n done) ≡ puts r (made ++ destroy n done)
    after_inplace (true, es) h = omega (
      arith,
      h,
      destroy-lem r n,
      gets-append r es (destroy n true),
      puts-append r es (destroy n true),
    )
    after_inplace (false, es) h = omega (
      arith,
      h,
      destroy-nothing r n,
      gets-append r (es ++ (put object ∷ [])) (destroy n false),
      puts-append r (es ++ (put object ∷ [])) (destroy n false),
      gets-append r es (put object ∷ []),
      puts-append r es (put object ∷ []),
    )
