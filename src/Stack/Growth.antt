-- ===== src/Stack/Growth.antt =====
-- The growth loop of `genericStack_getp` and `genericStack_seti`: when it ends, what it leaves, and
-- that it never ends when memory has run out.
use marpa_wrapper.Prelude.{
  ℕ, zero, suc, ◌+◌, ◌≤◌, ◌<◌, ◌≡◌, refl, ◌∙◌, inl, inr, true, none, some, arith, leb, Bool-cases,
  Option-cases, get_or, replicate, get_or-set_ne, get_or-append,
}
use marpa_wrapper.Prelude.Int.{mul_size, sizeof_pointer}
use marpa_wrapper.World.{null, Trace, Env, IsBounded, IsGenerous, IsExhausted}
use marpa_wrapper.Stack.{Stack, grow, push_element, push, grow_to}
use marpa_wrapper.Stack.Valid.{IsValid, most_items, Grows, grow-Grows, grow-cases, push-IsValid}

-- `s'` has the slots of `s` below its size, and no smaller size.
pub record Extends (s s' : Stack) : Type 0 where
  pub larger : s.stack_size ≤ s'.stack_size
  pub kept : (i : ℕ) → i < s.stack_size → get_or s'.slots i null ≡ get_or s.slots i null

Extends-trans : {s s' s'' : Stack} → Extends s s' → Extends s' s'' → Extends s s''
Extends-trans e f = record {
  larger = omega arith;
  kept = λ i lt. f.kept i (omega arith) ∙ e.kept i lt;
}

module _ (env : Env) where
  grow_answers :
      (generous : IsGenerous env) (s : Stack) (t : Trace)
      → s.alloc_size < most_items
      → (grow env s t).0 ≡ some true
  unfolding grow
  grow_answers generous s t small = ground (
    arith,
    generous.realloc_answers t s.block (mul_size (mul_size s.alloc_size 2) sizeof_pointer),
  )

  pad_size :
      (bounded : IsBounded env) (generous : IsGenerous env) (s : Stack) (t : Trace)
      → IsValid s
      → s.alloc_size < most_items
      → ((push env null s t).0 ≡ some 1) × ((push env null s t).1.stack_size ≡ s.stack_size + 1)
  unfolding push push_element
  pad_size bounded generous s t v small =
      ground (arith, grow_answers generous s t small, grow-Grows env bounded s t v)

  grow-Extends :
      (bounded : IsBounded env) (s : Stack) (t : Trace) → IsValid s → Extends s (grow env s t).1
  grow-Extends bounded s t v = elim (grow-cases env s t) [
    | inl ok ↦
        let g : Grows s (grow env s t).1 = grow-Grows env bounded s t v ok in
        record {
          larger = omega arith;
          kept = λ i lt.
              rw g.slots (get_or-append s.slots (replicate s.alloc_size null) i null (omega arith));
        }
    | inr (inl (_, same)) ↦ rw same (record { larger = omega arith; kept = λ i lt. refl })
    | inr (inr (_, same)) ↦ rw same (record { larger = omega arith; kept = λ i lt. refl })
  ]

  pad_element-Extends : (s : Stack) (t : Trace) → Extends s (push_element env null s t).1
  unfolding push_element
  pad_element-Extends s t = record {
    larger = omega arith;
    kept = λ i lt. get_or-set_ne s.slots s.stack_size i null null (omega arith);
  }

  pad-Extends :
      (bounded : IsBounded env) (s : Stack) (t : Trace)
      → IsValid s
      → Extends s (push env null s t).1
  unfolding push
  pad-Extends bounded s t v = elim (Bool-cases (leb s.alloc_size s.stack_size)) [
    | inl full ↦ elim (grow-cases env s t) [
      | inl ok ↦
          rw (full, ok)
            (Extends-trans (grow-Extends bounded s t v)
              (pad_element-Extends (grow env s t).1 (grow env s t).2))
      | inr (inl (failed, _)) ↦ rw (full, failed) (grow-Extends bounded s t v)
      | inr (inr (endless, _)) ↦ rw (full, endless) (grow-Extends bounded s t v)
    ]
    | inr free ↦ rw free (pad_element-Extends s t)
  ]

  -- Growing to an index keeps what the stack holds, whether memory runs out or not.
  pub grow_to-Extends :
      (bounded : IsBounded env) (rounds index : ℕ) (s : Stack) (t : Trace)
      → IsValid s
      → Extends s (grow_to env rounds index s t).1
  unfolding grow_to
  grow_to-Extends bounded zero index s t v = record { larger = omega arith; kept = λ i lt. refl }
  grow_to-Extends bounded (suc rounds) index s t v = elim (Bool-cases (leb s.alloc_size index)) [
    | inl more ↦ elim (Option-cases (push env null s t).0) [
      | inl endless ↦ rw (more, endless) (pad-Extends bounded s t v)
      | inr (status, pushed) ↦
          rw (more, pushed)
            (Extends-trans (pad-Extends bounded s t v) (
              grow_to-Extends bounded rounds index (push env null s t).1 (push env null s t).2
                (push-IsValid env bounded null s t v)))
    ]
    | inr done ↦ rw done (record { larger = omega arith; kept = λ i lt. refl })
  ]

  -- With memory the loop to an index below 2^31 ends, in no more rounds than `index + 1` less the size
  -- of the stack.
  pub grow_to-ends :
      (bounded : IsBounded env) (generous : IsGenerous env) (rounds index : ℕ) (s : Stack)
      (t : Trace)
      → IsValid s
      → index < most_items
      → index + 1 ≤ s.stack_size + rounds
      → (grow_to env rounds index s t).0 ≡ some tt
  unfolding grow_to
  grow_to-ends bounded generous zero index s t v small enough = ground arith
  grow_to-ends bounded generous (suc rounds) index s t v small enough = ground (
    arith,
    pad_size bounded generous s t v,
    grow_to-ends bounded generous rounds index (push env null s t).1 (push env null s t).2
        (push-IsValid env bounded null s t v),
  )

  pad_exhausted :
      (exhausted : IsExhausted env) (s : Stack) (t : Trace)
      → (push env null s t).1.alloc_size ≡ s.alloc_size
  unfolding push push_element grow
  pad_exhausted exhausted s t =
      ground (arith, exhausted t s.block (mul_size (mul_size s.alloc_size 2) sizeof_pointer))

  -- Without memory the loop never ends: after any number of rounds it is still running.
  pub grow_to-exhausted :
      (exhausted : IsExhausted env) (rounds index : ℕ) (s : Stack) (t : Trace)
      → s.alloc_size ≤ index
      → (grow_to env rounds index s t).0 ≡ none
  unfolding grow_to
  grow_to-exhausted exhausted zero index s t beyond = ground arith
  grow_to-exhausted exhausted (suc rounds) index s t beyond = ground (
    arith,
    pad_exhausted exhausted s t,
    grow_to-exhausted exhausted rounds index (push env null s t).1 (push env null s t).2,
  )
