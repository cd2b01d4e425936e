-- ===== src/Stack/Valid.antt =====
-- The invariant of `struct genericStack`: the block holds the allocated slots, and the stack lies
-- within them. Every operation keeps it.
use marpa_wrapper.Prelude.{
  ℕ, zero, suc, ◌+◌, ◌-◌, ◌*◌, ◌/◌, ◌%◌, ◌≤◌, ◌<◌, ◌≡◌, ◌≢◌, ◌^◌, ◌⊎◌, refl, inl, inr, true, false,
  Option, none, some, ◌++◌, arith, leb, ◌&&◌, Bool-cases, Option-cases, length, get_or, set,
  replicate, length-append, length-set, length-take, length-replicate,
}
use marpa_wrapper.Prelude.Int.{mul_size, uint_mod, sizeof_pointer, ptrdiff_max}
use marpa_wrapper.World.{Ptr, null, Trace, Env, IsBounded}
use marpa_wrapper.Stack.{
  Stack, grow, copy, push_element, push, shrink, pop, grow_to, get, get_grown, release, set_element,
  set_grown, set_at,
}

pub record IsValid (s : Stack) : Type 0 where
  pub held : length s.slots ≡ s.alloc_size
  pub within : s.stack_size ≤ s.alloc_size
  pub room : s.alloc_size * sizeof_pointer ≤ s.bytes
  pub small : s.bytes ≤ ptrdiff_max
  pub least : 4 ≤ s.alloc_size
  pub few : s.alloc_size < uint_mod

-- Up to so many slots a growth ends: twice as many are counted by an `unsigned int`.
abbrev pub most_items : ℕ
most_items = 2 ^ 31

-- What the operations leave alone.
pub record SameSetup (s s' : Stack) : Type 0 where
  pub failure : s'.failure ≡ s.failure
  pub free_element : s'.free_element ≡ s.free_element
  pub copy_element : s'.copy_element ≡ s.copy_element
  pub grow_on_set : s'.grow_on_set ≡ s.grow_on_set
  pub grow_on_get : s'.grow_on_get ≡ s.grow_on_get
  pub element_size : s'.element_size ≡ s.element_size

-- What a growth does: on success twice the slots, the old ones first and the new ones NULL.
pub record Grows (s s' : Stack) : Type 0 where
  pub slots : s'.slots ≡ s.slots ++ replicate s.alloc_size null
  pub alloc_size : s'.alloc_size ≡ s.alloc_size * 2
  pub stack_size : s'.stack_size ≡ s.stack_size

module _ (env : Env) (bounded : IsBounded env) where
  pub grow-IsValid : (s : Stack) (t : Trace) → IsValid s → IsValid (grow env s t).1
  unfolding grow
  grow-IsValid s t v = ground (
    arith,
    bounded.realloc_bounded t s.block (mul_size (mul_size s.alloc_size 2) sizeof_pointer),
    length-append s.slots (replicate (mul_size s.alloc_size 2 - s.alloc_size) null),
    length-replicate (mul_size s.alloc_size 2 - s.alloc_size) null,
  )

  -- A successful growth, exactly: `realloc` answered, and the stack has twice the slots.
  pub grow-Grows :
      (s : Stack) (t : Trace) → IsValid s → (grow env s t).0 ≡ some true → Grows s (grow env s t).1
  unfolding grow
  grow-Grows s t v ok = ground (
    arith,
    bounded.realloc_bounded t s.block (mul_size (mul_size s.alloc_size 2) sizeof_pointer),
    double_minus s.alloc_size,
  )
    where
      double_minus : (n : ℕ) → n * 2 - n ≡ n
      double_minus n = omega arith

module _ (env : Env) where
  pub grow-fails : (s : Stack) (t : Trace) → (grow env s t).0 ≢ some true → (grow env s t).1 ≡ s
  unfolding grow
  grow-fails s t failed = ground arith

  -- A growth below 2^31 slots ends.
  pub grow-ends : (s : Stack) (t : Trace) → s.alloc_size < most_items → (grow env s t).0 ≢ none
  unfolding grow
  grow-ends s t few = ground arith

  pub grow-cases :
      (s : Stack) (t : Trace)
      → ((grow env s t).0 ≡ some true)
        ⊎ (((grow env s t).0 ≡ some false) × ((grow env s t).1 ≡ s))
        ⊎ (((grow env s t).0 ≡ none) × ((grow env s t).1 ≡ s))
  unfolding grow
  grow-cases s t = ground arith

  -- Copying an element changes no field of the stack.
  pub copy-state : (p : Ptr) (s : Stack) (t : Trace) → (copy env p s t).1 ≡ s
  unfolding copy
  copy-state p s t = ground arith

  pub release-state : (p : Ptr) (s : Stack) (t : Trace) → (release env p s t).1 ≡ s
  unfolding release
  release-state p s t = ground arith

  pub grow-SameSetup : (s : Stack) (t : Trace) → SameSetup s (grow env s t).1
  unfolding grow
  grow-SameSetup s t = ground arith

  pub push_element-IsValid :
      (p : Ptr) (s : Stack) (t : Trace)
      → IsValid s
      → s.stack_size < s.alloc_size
      → IsValid (push_element env p s t).1
  unfolding push_element
  push_element-IsValid p s t v lt = ground (
    arith,
    copy-state p s t,
    length-set s.slots s.stack_size null,
    length-set s.slots s.stack_size (copy env p s t).0,
  )

module _ (env : Env) (bounded : IsBounded env) where
  -- `genericStack_pushi` keeps the invariant, whatever the allocator answers.
  pub push-IsValid : (p : Ptr) (s : Stack) (t : Trace) → IsValid s → IsValid (push env p s t).1
  unfolding push
  push-IsValid p s t v = elim (Bool-cases (leb s.alloc_size s.stack_size)) [
    | inl full ↦ elim (grow-cases env s t) [
      | inl ok ↦
          rw (full, ok)
            (push_element-IsValid env p (grow env s t).1 (grow env s t).2
              (grow-IsValid env bounded s t v) (omega (arith, grow-Grows env bounded s t v ok)))
      | inr (inl (failed, _)) ↦ rw (full, failed) (grow-IsValid env bounded s t v)
      | inr (inr (endless, _)) ↦ rw (full, endless) (grow-IsValid env bounded s t v)
    ]
    | inr free ↦ rw free (push_element-IsValid env p s t v (ground arith))
  ]

  pub shrink-IsValid : (s : Stack) (t : Trace) → IsValid s → IsValid (shrink env s t).1
  unfolding shrink
  shrink-IsValid s t v = ground (
    arith,
    bounded.realloc_bounded t s.block (mul_size (s.alloc_size / 2) sizeof_pointer),
    length-take (s.alloc_size / 2) s.slots,
  )

  -- `genericStack_popp` keeps the invariant, shrinking or not, on an empty stack too.
  pub pop-IsValid : (s : Stack) (t : Trace) → IsValid s → IsValid (pop env s t).1
  unfolding pop
  pop-IsValid s t v = ground (
    arith,
    shrink-IsValid (record s { stack_size = s.stack_size - 1 }) t
        (record {
          held = v.held;
          within = omega arith;
          room = v.room;
          small = v.small;
          least = v.least;
          few = v.few;
        }),
  )

  pub grow_to-IsValid :
      (rounds index : ℕ) (s : Stack) (t : Trace)
      → IsValid s
      → IsValid (grow_to env rounds index s t).1
  unfolding grow_to
  grow_to-IsValid zero index s t v = v
  grow_to-IsValid (suc rounds) index s t v = elim (Option-cases (push env null s t).0) [
    | inl endless ↦ rw endless (ground (arith, push-IsValid null s t v))
    | inr (status, pushed) ↦ rw pushed (
        ground (
          arith,
          grow_to-IsValid rounds index (push env null s t).1 (push env null s t).2
              (push-IsValid null s t v),
        ))
  ]

module _ (env : Env) where
  pub set_element-IsValid :
      (index : ℕ) (p : Ptr) (s : Stack) (t : Trace)
      → IsValid s
      → index < s.alloc_size
      → IsValid (set_element env index p s t).1
  unfolding set_element
  set_element-IsValid index p s t v lt = ground (
    arith,
    release-state env old s t,
    copy-state env p cleared after,
    length-set s.slots index null,
    length-set (set s.slots index null) index null,
    length-set (set s.slots index null) index (copy env p cleared after).0,
    mod-le (index + 1),
  )
    where
      old : Ptr
      old = get_or s.slots index null

      after : Trace
      after = (release env old s t).2

      cleared : Stack
      cleared = record s { slots = set s.slots index null }

      mod-le : (n : ℕ) → n % uint_mod ≤ n
      mod-le n = omega arith

module _ (env : Env) (bounded : IsBounded env) where
  -- After the growth that ended the slot exists.
  pub grow_to-lt :
      (rounds index : ℕ) (s : Stack) (t : Trace)
      → (grow_to env rounds index s t).0 ≡ some tt
      → index < (grow_to env rounds index s t).1.alloc_size
  unfolding grow_to
  grow_to-lt zero index s t ended = ground arith
  grow_to-lt (suc rounds) index s t ended =
      ground (arith, grow_to-lt rounds index (push env null s t).1 (push env null s t).2)

  -- `genericStack_getp` keeps the invariant, though it may grow the stack.
  pub get-IsValid : (index : ℕ) (s : Stack) (t : Trace) → IsValid s → IsValid (get env index s t).1
  unfolding get get_grown
  get-IsValid index s t v = ground (arith, grow_to-IsValid env bounded (index + 1) index s t v)

  set_grown-IsValid :
      (index : ℕ) (p : Ptr) (ended : Option (Unit {0})) (s : Stack) (t : Trace)
      → IsValid s
      → (ended ≢ none → s.grow_on_set ≡ true → index < s.alloc_size)
      → IsValid (set_grown env index p ended s t).1
  unfolding set_grown
  set_grown-IsValid index p none s t v slot = v
  set_grown-IsValid index p (some u) s t v slot =
      ground (arith, set_element-IsValid env index p s t v, slot (λ e. cc))

  -- `genericStack_seti` keeps the invariant.
  pub set_at-IsValid :
      (index : ℕ) (p : Ptr) (s : Stack) (t : Trace) → IsValid s → IsValid (set_at env index p s t).1
  unfolding set_at
  set_at-IsValid index p s t v = elim (Bool-cases (leb s.alloc_size index && s.grow_on_set)) [
    | inl far ↦ rw far (
        set_grown-IsValid index p (grow_to env (index + 1) index s t).0
          (grow_to env (index + 1) index s t).1 (grow_to env (index + 1) index s t).2
          (grow_to-IsValid env bounded (index + 1) index s t v)
          (λ ended _. grow_to-lt (index + 1) index s t (some_tt _ ended)))
    | inr near ↦ rw near (set_grown-IsValid index p (some tt) s t v (λ _ on. ground arith))
  ]
    where
      some_tt : (o : Option (Unit {0})) → o ≢ none → o ≡ some tt
      some_tt none ne = absurd (ne refl)
      some_tt (some u) ne = refl
