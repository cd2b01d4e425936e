-- ===== src/Wrapper/Valuation/Inputs.antt =====
-- What a rule of a valuation of src/marpaWrapper.c is applied to, and what becomes of its value.
use marpa_wrapper.Prelude.{
  ℕ, zero, suc, ◌+◌, ◌-◌, ◌%◌, ◌≤◌, ◌<◌, ◌≡◌, ◌≢◌, refl, Option, none, some, List, [], ◌∷◌, arith,
  get_or, drop, Bool-cases, inl, inr, ◌==◌,
}
use marpa_wrapper.Prelude.Int.{ℤ, pos, ◌+ℤ◌, ◌-ℤ◌, uint_mod, eqb_ℤ, mul_size, sizeof_pointer}
use marpa_wrapper.World.{
  Ptr, null, marpa, v_rule, v_arg_0, v_arg_n, v_result, malloc, free, free_callback, Call, Trace,
  Env, IsBounded, value_rule_callback,
}
use marpa_wrapper.Stack.{Stack, set_at}
use marpa_wrapper.Stack.Valid.{IsValid}
use marpa_wrapper.Stack.Contents.{IsCopied}
use marpa_wrapper.Stack.Access.{Sets, set_at-Sets, set_at-status, get_below}
use marpa_wrapper.Wrapper.{at_id, Wrapper, to_size}
use marpa_wrapper.Wrapper.Valuation.{
  ValueOption, ElementOption, stack_env, to_uint, callback_status,
}
use marpa_wrapper.Wrapper.Valuation.Steps.{
  goes_on, read_inputs, give_back, store_result, apply_rule, rule_step,
}
use marpa_wrapper.Wrapper.Valuation.Valid.{stack_env-IsBounded}

-- the slots from one on
abbrev pub slots_from : (count first : ℕ) → Stack → List Ptr
slots_from zero first s = []
slots_from (suc count) first s = get_or s.slots first null ∷ slots_from count (first + 1) s

inputs_counted :
    (first last : ℕ)
    → first ≤ last
    → last < uint_mod
    → to_size (pos last -ℤ pos first +ℤ pos 1) ≡ last + 1 - first
unfolding ◌+ℤ◌ ◌-ℤ◌
inputs_counted first last order few = ground arith

module _ (env : Env) (w : Wrapper) (o : ValueOption) (e : ElementOption) where
  read_inputs_below :
      (count first : ℕ) (s : Stack) (t : Trace)
      → IsValid s
      → first + count ≤ s.stack_size
      → s.stack_size < uint_mod
      → read_inputs env w o e count first s t ≡ (some (slots_from count first s), s, t)
  unfolding read_inputs
  read_inputs_below zero first s t v below small = refl
  read_inputs_below (suc count) first s t v below small = ground (
    arith,
    get_below (stack_env env) (first % uint_mod) s t v,
    read_inputs_below count (first + 1) s t v,
  )

  -- What came to be of a trace, and stays, stays while a value is given back.
  give_back-stays :
      (P : Trace → Type 0)
      → ((c : Call) (t : Trace) → P t → P (c ∷ t))
      → (p : Ptr) (s : Stack) (t : Trace) → P t
      → P (give_back env w o e p s t).2
  unfolding give_back
  give_back-stays P stays p s t h = elim (Bool-cases (p == null)) [
    | inl nothing ↦ rw nothing h
    | inr given ↦ elim (Bool-cases (eqb_ℤ (callback_status (env.value t c)) (pos 0))) [
      | inl freed ↦ rw (given, freed) (stays (free p) (c ∷ t) (stays c t h))
      | inr failed ↦ rw (given, failed) (stays c t h)
    ]
  ]
    where
      c : Call
      c = free_callback e.free_user p

  give_back-Sets :
      (index : ℕ) (element p : Ptr) (s0 s : Stack) (t : Trace)
      → Sets (stack_env env) index element s0 s t
      → Sets (stack_env env) index element s0 s (give_back env w o e p s t).2
  give_back-Sets index element p s0 s t sets = record {
    stands = elim sets.stands [
      | inl nulls ↦ inl nulls
      | inr (some_element, some_slot, copied) ↦ inr (
        some_element,
        some_slot,
        give_back-stays
            (IsCopied (stack_env env) s.element_size element (get_or s.slots index null))
            (λ c t' h. inr h) p s t copied,
      )
    ];
    inside = sets.inside;
    kept = sets.kept;
  }

  give_back-stack : (p : Ptr) (s : Stack) (t : Trace) → (give_back env w o e p s t).1 ≡ s
  unfolding give_back
  give_back-stack p s t = ground arith

module _ (env : Env) (bounded : IsBounded env) (w : Wrapper) (o : ValueOption)
    (e : ElementOption) where
  pub store_result-Sets :
      (result : ℕ) (p : Ptr) (s : Stack) (t : Trace)
      → IsValid s
      → result + 1 < uint_mod
      → (store_result env w o e (pos result) p s t).0 ≡ goes_on
      → let (_, s', t') = store_result env w o e (pos result) p s t in
        Sets (stack_env env) result p s s' t'
  unfolding store_result
  store_result-Sets result p s t v small ok =
      rw (same, calls)
        (give_back-Sets env w o e result p p s stored.1 stored.2 (
          moved (to_uint (pos result)) index (
            set_at-Sets (stack_env env) (stack_env-IsBounded env bounded) (to_uint (pos result)) p s
              t v (omega (arith, small, index)) status)))
    where
      stored : Option ℕ × Stack × Trace
      stored = set_at (stack_env env) (to_uint (pos result)) p s t

      index : to_uint (pos result) ≡ result
      index = omega arith

      moved :
          (i : ℕ)
          → i ≡ result
          → Sets (stack_env env) i p s stored.1 stored.2
          → Sets (stack_env env) result p s stored.1 stored.2
      moved i equal written = rw equal at written

      returns : stored.0 ≢ none
      returns = ground arith

      accepted : stored.0 ≢ some 0
      accepted = ground arith

      status : stored.0 ≡ some 1
      status = set_at-status (stack_env env) (to_uint (pos result)) p s t returns accepted

      same : (store_result env w o e (pos result) p s t).1 ≡ stored.1
      same = ground (arith, give_back-stack env w o e p stored.1 stored.2)

      calls :
          (store_result env w o e (pos result) p s t).2
          ≡ (give_back env w o e p stored.1 stored.2).2
      calls = ground arith

  -- A step for a rule that succeeds, with a rule callback, on a valid stack of fewer than 2^32 slots in
  -- use, when libmarpa names inputs that the stack holds, the first not after the last, and a slot for
  -- the result that is at most 2^32 - 2: the callback was called with the rule and the values of the
  -- slots from the first to the last, in order, the array of them was freed, and what the callback
  -- answered was stored. What stands for it is in the slot of the result, NULL for NULL, else a block
  -- that `malloc` gave and into which `memcpy` copied it; every other slot that the stack held is as it
  -- was.
  pub rule_step-Sets :
      (user : Ptr) (first last result : ℕ) (p : Ptr) (s : Stack) (t : Trace)
      → IsValid s
      → o.rule_callback ≡ some user
      → s.stack_size < uint_mod
      → result + 1 < uint_mod
      → first ≤ last
      → last < s.stack_size
      → let t1 = marpa (v_rule p) ∷ t in
        let t2 = marpa (v_arg_0 p) ∷ t1 in
        let t3 = marpa (v_arg_n p) ∷ t2 in
        let block = malloc (mul_size (last + 1 - first) sizeof_pointer) in
        let t4 = block ∷ marpa (v_result p) ∷ t3 in
        let rule = at_id w.rules.slots (env.value t (marpa (v_rule p))) in
        let inputs = slots_from (last + 1 - first) first s in
        env.value t1 (marpa (v_arg_0 p)) ≡ pos first
        → env.value t2 (marpa (v_arg_n p)) ≡ pos last
        → env.value t3 (marpa (v_result p)) ≡ pos result
        → (rule_step env w o e p s t).0 ≡ goes_on
        → let c = value_rule_callback user rule inputs in
          let answer = env.address t4 c in
          let (stepped, s', t') = rule_step env w o e p s t in
          ((stepped, s', t')
            ≡ store_result env w o e
                (pos result)
                answer
                s
                (free (env.address (drop 1 t4) block) ∷ c ∷ t4))
          × Sets (stack_env env) result answer s s' t'
  unfolding rule_step apply_rule
  rule_step-Sets user first last result p s t v set few small order held e0 e1 e2 ok = (
    called,
    rw called (
        store_result-Sets result (env.address t4 c) s (free block ∷ c ∷ t4) v small
          (rw called at ok)),
  )
    where
      rule : ℤ
      rule = env.value t (marpa (v_rule p))

      asked : Trace
      asked = marpa (v_result p) ∷ marpa (v_arg_n p) ∷ marpa (v_arg_0 p) ∷ marpa (v_rule p) ∷ t

      count : ℕ
      count = last + 1 - first

      t4 : Trace
      t4 = malloc (mul_size count sizeof_pointer) ∷ asked

      block : Ptr
      block = env.address asked (malloc (mul_size count sizeof_pointer))

      inputs : List Ptr
      inputs = slots_from count first s

      read : read_inputs env w o e count first s t4 ≡ (some inputs, s, t4)
      read = read_inputs_below env w o e count first s t4 v (omega arith) few

      sized : to_size (pos last -ℤ pos first +ℤ pos 1) ≡ count
      sized = inputs_counted first last order (omega arith)

      here : to_size (pos first) ≡ first
      here = omega arith

      c : Call
      c = value_rule_callback user (at_id w.rules.slots rule) inputs

      called :
          rule_step env w o e p s t
          ≡ store_result env w o e (pos result) (env.address t4 c) s (free block ∷ c ∷ t4)
      called = ground (arith, e0, e1, e2, read, sized, here)
