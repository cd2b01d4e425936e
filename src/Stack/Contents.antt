-- ===== src/Stack/Contents.antt =====
-- What a stack of `genericStack.c` holds: the pointers below its size, in order. Pushing appends,
-- popping removes the last, and a failure changes nothing of it.
use marpa_wrapper.Prelude.{
  ℕ, ◌+◌, ◌-◌, ◌/◌, ◌<◌, ◌≡◌, ◌≢◌, refl, sym, ◌∙◌, ap, ◌⊎◌, inl, inr, Option, some, List, [], ◌∷◌,
  ◌++◌, arith, leb, ◌==◌, Bool-cases, get_or, take, replicate, take-set, take-append, take-take,
  take-suc,
}
use marpa_wrapper.World.{Ptr, null, malloc, memcpy, Trace, Env, IsBounded}
use marpa_wrapper.Stack.{Stack, grow, copy, push_element, push, shrink, pop}
use marpa_wrapper.Stack.Valid.{
  IsValid, most_items, Grows, grow-Grows, grow-IsValid, grow-cases, grow-ends, grow-SameSetup,
  copy-state,
}

abbrev pub contents : Stack → List Ptr
contents s = take s.stack_size s.slots

-- The last two calls of `t` made `q` a copy of `element`: `malloc` gave it, of the size of an element,
-- and `memcpy` filled it from the element.
abbrev pub IsCopying : Env → ℕ → Ptr → Ptr → Trace → Type 0
IsCopying env size element q t =
    (before : Trace) × (q ≡ env.address before (malloc size))
    × (t ≡ memcpy q element size ∷ malloc size ∷ before)

-- Some two calls of a trace did.
abbrev pub IsCopied : Env → ℕ → Ptr → Ptr → Trace → Type 0
IsCopied env size element q [] = ¬ (Unit {0})
IsCopied env size element q (c ∷ t) =
    IsCopying env size element q (c ∷ t) ⊎ IsCopied env size element q t

-- What stands for an element in a stack: NULL for NULL, else a copy of it that is not NULL.
abbrev pub Stands : Env → ℕ → Ptr → Ptr → Trace → Type 0
Stands env size element q t =
    ((element ≡ null) × (q ≡ null))
    ⊎ ((element ≢ null) × (q ≢ null) × IsCopied env size element q t)

-- The outcome of pushing `element` on a stack that held `xs`, `n` slots: one pointer more, or a
-- status of 0 and no change.
abbrev pub Pushes : Env → (size : ℕ) → Ptr → List Ptr → ℕ → Option ℕ × Stack × Trace → Type 0
Pushes env size element xs n (status, s', t') =
    ((q : Ptr) × (status ≡ some 1)
      × (contents s' ≡ xs ++ q ∷ [])
      × (s'.stack_size ≡ n + 1)
      × Stands env size element q t')
    ⊎ ((status ≡ some 0) × (contents s' ≡ xs) × (s'.stack_size ≡ n))

module _ (env : Env) where
  pub copy-IsCopied :
      (p : Ptr) (s : Stack) (t : Trace)
      → (copy env p s t).0 ≢ null
      → IsCopied env s.element_size p (copy env p s t).0 (copy env p s t).2
  unfolding copy
  copy-IsCopied p s t ne = ground arith

  push_element-Pushes :
      (p : Ptr) (s : Stack) (t : Trace)
      → IsValid s
      → s.stack_size < s.alloc_size
      → let (status, s', t') = push_element env p s t in
        Pushes env s.element_size p (contents s) s.stack_size (some status, s', t')
  unfolding push_element
  push_element-Pushes p s t v lt = elim (Bool-cases (p == null)) [
    | inl e ↦ inl (
      null,
      ground arith,
      ground (arith, take-set s.slots s.stack_size null),
      ground arith,
      inl (ground arith, refl),
    )
    | inr e ↦ elim (Bool-cases ((copy env p s t).0 == null)) [
      | inl failed ↦ inr (ground (arith, copy-state env p s t))
      | inr ok ↦
          rw (e, ok)
            (inl (
              (copy env p s t).0,
              refl,
              ground
                  (arith, copy-state env p s t, take-set s.slots s.stack_size (copy env p s t).0),
              ground (arith, copy-state env p s t),
              inr (ground arith, ground arith, copy-IsCopied p s t (ground arith)),
            ))
    ]
  ]

  pub grow-contents :
      (bounded : IsBounded env) (s : Stack) (t : Trace)
      → IsValid s
      → (contents (grow env s t).1 ≡ contents s) × ((grow env s t).1.stack_size ≡ s.stack_size)
  grow-contents bounded s t v = elim (grow-cases env s t) [
    | inl ok ↦
        let g : Grows s (grow env s t).1 = grow-Grows env bounded s t v ok in
        (
          rw (g.stack_size, g.slots)
              (take-append s.slots (replicate s.alloc_size null) s.stack_size (omega arith)),
          g.stack_size,
        )
    | inr (inl (_, same)) ↦ rw same (refl, refl)
    | inr (inr (_, same)) ↦ rw same (refl, refl)
  ]

module _ (env : Env) (bounded : IsBounded env) where
  -- On a valid stack of fewer than 2^31 slots `genericStack_pushi` returns. Either it returns 1 and
  -- appends one pointer to what the stack holds: NULL for NULL, else a block of the size of an element
  -- that `malloc` gave and into which `memcpy` copied the element. Or it returns 0 and leaves what the
  -- stack holds.
  pub push-Pushes :
      (p : Ptr) (s : Stack) (t : Trace)
      → IsValid s
      → s.alloc_size < most_items
      → Pushes env s.element_size p (contents s) s.stack_size (push env p s t)
  unfolding push
  push-Pushes p s t v few = elim (Bool-cases (leb s.alloc_size s.stack_size)) [
    | inl full ↦ elim (grow-cases env s t) [
      | inl ok ↦
          rw (full, ok)
            (rw (after.0, after.1, (grow-SameSetup env s t).element_size) at
              (push_element-Pushes env p grown (grow env s t).2 (grow-IsValid env bounded s t v)
                (omega (arith, grow-Grows env bounded s t v ok))))
      | inr (inl (failed, _)) ↦ rw (full, failed) (inr (refl, after.0, after.1))
      | inr (inr (endless, _)) ↦ absurd (grow-ends env s t few endless)
    ]
    | inr free ↦ rw free (push_element-Pushes env p s t v (ground arith))
  ]
    where
      grown : Stack
      grown = (grow env s t).1

      after : (contents grown ≡ contents s) × (grown.stack_size ≡ s.stack_size)
      after = grow-contents env bounded s t v

  shrink_lem :
      (s : Stack) (t : Trace)
      → IsValid s
      → (contents (shrink env s t).1 ≡ contents s) × ((shrink env s t).1.stack_size ≡ s.stack_size)
  unfolding shrink
  shrink_lem s t v = ground (arith, take-take s.slots s.stack_size (s.alloc_size / 2))

  -- On a valid stack that is not empty `genericStack_popp` returns the last pointer that the stack
  -- holds and takes just that one off, shrinking or not.
  pub pop_lem :
      (s : Stack) (t : Trace)
      → IsValid s
      → 0 < s.stack_size
      → let (value, s', _) = pop env s t in
        (contents s' ++ value ∷ [] ≡ contents s) × (s'.stack_size + 1 ≡ s.stack_size)
  unfolding pop
  pop_lem s t v pos = ground (arith, shrink_lem popped t valid, top)
    where
      popped : Stack
      popped = record s { stack_size = s.stack_size - 1 }

      valid : IsValid popped
      valid = record {
        held = v.held;
        within = omega arith;
        room = v.room;
        small = v.small;
        least = v.least;
        few = v.few;
      }

      top :
          take s.stack_size s.slots
          ≡ take (s.stack_size - 1) s.slots ++ get_or s.slots (s.stack_size - 1) null ∷ []
      top =
          let e : s.stack_size - 1 + 1 ≡ s.stack_size = omega arith in
          ap (λ n. take n s.slots) (sym e) ∙ take-suc s.slots (s.stack_size - 1) null (omega arith)
