-- ===== src/Wrapper/Valuation/Answers.antt =====
-- Where memory does not run out, and libmarpa names slots that there are, every step of a value returns.
use marpa_wrapper.Prelude.{
  ℕ, zero, suc, ◌+◌, ◌%◌, ◌≤◌, ◌<◌, ◌≡◌, ◌≢◌, false, inl, inr, Bool, Option, none, some, List, ◌∷◌,
  arith, Option-cases,
}
use marpa_wrapper.Prelude.Int.{
  ℤ, pos, negsuc, pos_part, is_negative, ◌≤ℤ◌, ◌+ℤ◌, ◌-ℤ◌, uint_mod, mul_size, sizeof_pointer,
}
use Prim.Native.String.{String}
use marpa_wrapper.World.{
  Ptr, null, marpa, malloc, free, v_rule, v_arg_0, v_arg_n, v_result, v_step, v_token,
  v_token_value, v_symbol, Call, Trace, Env, IsBounded, IsGenerous,
}
use marpa_wrapper.Stack.{Stack, get}
use marpa_wrapper.Stack.Valid.{IsValid, most_items, get-IsValid}
use marpa_wrapper.Stack.Ends.{access_returns}
use marpa_wrapper.Wrapper.{Wrapper, to_size}
use marpa_wrapper.Wrapper.Valuation.{ValueOption, ElementOption, stack_env, to_uint}
use marpa_wrapper.Wrapper.Valuation.Steps.{
  inactive, stuck, evaluating, read_inputs, ask_value, rule_call, give_back, store_result,
  apply_rule, rule_step, apply_symbol, token_step, nulling_step, value_step, hand_result,
}
use marpa_wrapper.Wrapper.Valuation.Valid.{
  stack_env-IsBounded, stack_env-IsGenerous, read_inputs-IsValid,
}

-- A number of a slot, an `int` that is not negative.
abbrev pub IsSlot : ℤ → Type 0
IsSlot i = (is_negative i ≡ false) × (pos_part i < most_items)

-- What libmarpa documents of the slots that it names for a step: they are on a stack that it counts
-- from 0 on, and the first of a rule's inputs is not after the last.
pub record IsPlaced (env : Env) : Type 0 where
  pub rule :
      (t : Trace) (p : Ptr)
      → env.value t (marpa (v_step p)) ≡ pos 1
      → let t1 = marpa (v_rule p) ∷ marpa (v_step p) ∷ t in
        let first = env.value t1 (marpa (v_arg_0 p)) in
        let t2 = marpa (v_arg_0 p) ∷ t1 in
        let last = env.value t2 (marpa (v_arg_n p)) in
        IsSlot first
        × IsSlot last
        × (first ≤ℤ last)
        × IsSlot (env.value (marpa (v_arg_n p) ∷ t2) (marpa (v_result p)))
  pub token :
      (t : Trace) (p : Ptr)
      → env.value t (marpa (v_step p)) ≡ pos 2
      → IsSlot (
          env.value
            (marpa (v_token_value p) ∷ marpa (v_token p) ∷ marpa (v_step p) ∷ t)
            (marpa (v_result p)))
  pub nulled :
      (t : Trace) (p : Ptr)
      → env.value t (marpa (v_step p)) ≡ pos 3
      → IsSlot (env.value (marpa (v_symbol p) ∷ marpa (v_step p) ∷ t) (marpa (v_result p)))

inputs_few :
    (first last : ℤ)
    → IsSlot first
    → IsSlot last
    → first ≤ℤ last
    → to_size first + to_size (last -ℤ first +ℤ pos 1) ≤ most_items
unfolding ◌+ℤ◌ ◌-ℤ◌
inputs_few (pos first) (pos last) a b order = ground arith
inputs_few (pos first) (negsuc last) a b order = ground arith
inputs_few (negsuc first) (pos last) a b order = ground arith
inputs_few (negsuc first) (negsuc last) a b order = ground arith

slot_index : (i : ℤ) → IsSlot i → to_uint i < most_items
slot_index (pos n) slot = ground arith
slot_index (negsuc n) slot = ground arith

module _ (env : Env) (bounded : IsBounded env) (generous : IsGenerous env) (w : Wrapper)
    (o : ValueOption) (e : ElementOption) where
  read_inputs_returns :
      (count first : ℕ) (s : Stack) (t : Trace)
      → IsValid s
      → first + count ≤ most_items
      → (read_inputs env w o e count first s t).0 ≢ none
  unfolding read_inputs
  read_inputs_returns zero first s t v few = ground arith
  read_inputs_returns (suc count) first s t v few = elim (Option-cases got.0) [
    | inl none_yet ↦ absurd (
        (access_returns (stack_env env) (stack_env-IsBounded env bounded)
            (stack_env-IsGenerous env generous) (first % uint_mod) null s t v (omega arith)).0
          none_yet)
    | inr (p, found) ↦ ground (arith, read_inputs_returns count (first + 1) got.1 got.2 valid)
  ]
    where
      got : Option Ptr × Stack × Trace
      got = get (stack_env env) (first % uint_mod) s t

      valid : IsValid got.1
      valid = get-IsValid (stack_env env) (stack_env-IsBounded env bounded) (first % uint_mod) s t v

  store_result_returns :
      (result : ℤ) (p : Ptr) (s : Stack) (t : Trace)
      → IsValid s
      → IsSlot result
      → (store_result env w o e result p s t).0 ≢ stuck
  unfolding store_result give_back
  store_result_returns result p s t v slot = ground (
    arith,
    access_returns (stack_env env) (stack_env-IsBounded env bounded)
        (stack_env-IsGenerous env generous) (to_uint result) p s t v (slot_index result slot),
  )

  apply_rule_returns :
      (rule result : ℤ) (p : Ptr) (ps : List Ptr) (s : Stack) (t : Trace)
      → IsValid s
      → IsSlot result
      → (apply_rule env w o e rule result p ps s t).0 ≢ stuck
  unfolding apply_rule
  apply_rule_returns rule result p ps s t v slot =
      ground (arith, store_result_returns result called.0.1 s (free p ∷ called.2) v slot)
    where
      called : (Bool × Ptr) × Stack × Trace
      called = ask_value env w o e (rule_call env w o e rule ps) "valueRuleCallbackp() failure" s t

  rule_step_returns :
      (p : Ptr) (s : Stack) (t : Trace)
      → IsValid s
      → IsPlaced env
      → env.value t (marpa (v_step p)) ≡ pos 1
      → (rule_step env w o e p s (marpa (v_step p) ∷ t)).0 ≢ stuck
  unfolding rule_step
  rule_step_returns p s t0 v placed kind = elim (Option-cases read.0) [
    | inl none_yet ↦ absurd (
        read_inputs_returns count (to_size (env.value ruled (marpa (v_arg_0 p)))) s
          (malloc (mul_size count sizeof_pointer) ∷ asked) v
          (inputs_few _ _ slots.0 slots.1 slots.2) none_yet)
    | inr (ps, found) ↦ ground (
      arith,
      apply_rule_returns (env.value t (marpa (v_rule p)))
          (env.value (marpa (v_arg_n p) ∷ marpa (v_arg_0 p) ∷ ruled) (marpa (v_result p))) block ps
          read.1 read.2
          (read_inputs-IsValid env bounded w o e count
            (to_size (env.value ruled (marpa (v_arg_0 p)))) s
            (malloc (mul_size count sizeof_pointer) ∷ asked) v)
          slots.3,
    )
  ]
    where
      t : Trace
      t = marpa (v_step p) ∷ t0

      ruled : Trace
      ruled = marpa (v_rule p) ∷ t

      asked : Trace
      asked = marpa (v_result p) ∷ marpa (v_arg_n p) ∷ marpa (v_arg_0 p) ∷ ruled

      count : ℕ
      count = to_size (
          env.value (marpa (v_arg_0 p) ∷ ruled) (marpa (v_arg_n p))
          -ℤ env.value ruled (marpa (v_arg_0 p))
          +ℤ pos 1)

      block : Ptr
      block = env.address asked (malloc (mul_size count sizeof_pointer))

      read : Option (List Ptr) × Stack × Trace
      read =
          read_inputs env w o e count (to_size (env.value ruled (marpa (v_arg_0 p)))) s
            (malloc (mul_size count sizeof_pointer) ∷ asked)

      slots :
          IsSlot (env.value ruled (marpa (v_arg_0 p)))
          × IsSlot (env.value (marpa (v_arg_0 p) ∷ ruled) (marpa (v_arg_n p)))
          × (env.value ruled (marpa (v_arg_0 p))
              ≤ℤ env.value (marpa (v_arg_0 p) ∷ ruled) (marpa (v_arg_n p)))
          × IsSlot (env.value (marpa (v_arg_n p) ∷ marpa (v_arg_0 p) ∷ ruled) (marpa (v_result p)))
      slots = placed.rule t0 p kind

  apply_symbol_returns :
      (result : ℤ) (c : Option Call) (text : String) (s : Stack) (t : Trace)
      → IsValid s
      → IsSlot result
      → (apply_symbol env w o e result c text s t).0 ≢ stuck
  unfolding apply_symbol
  apply_symbol_returns result none text s t v slot = store_result_returns result null s t v slot
  apply_symbol_returns result (some c) text s t v slot =
      ground (arith, store_result_returns result (env.address t c) s (c ∷ t) v slot)

  token_step_returns :
      (p : Ptr) (s : Stack) (t : Trace)
      → IsValid s
      → IsPlaced env
      → env.value t (marpa (v_step p)) ≡ pos 2
      → (token_step env w o e p s (marpa (v_step p) ∷ t)).0 ≢ stuck
  unfolding token_step
  token_step_returns p s t v placed kind = apply_symbol_returns _ _ _ s _ v (placed.token t p kind)

  nulling_step_returns :
      (p : Ptr) (s : Stack) (t : Trace)
      → IsValid s
      → IsPlaced env
      → env.value t (marpa (v_step p)) ≡ pos 3
      → (nulling_step env w o e p s (marpa (v_step p) ∷ t)).0 ≢ stuck
  unfolding nulling_step
  nulling_step_returns p s t v placed kind =
      apply_symbol_returns _ _ _ s _ v (placed.nulled t p kind)

  -- A step returns; and it says that the value is inactive if libmarpa says so.
  pub value_step_returns :
      (p : Ptr) (s : Stack) (t : Trace)
      → IsValid s
      → IsPlaced env
      → ((value_step env w o e p s t).0 ≢ stuck)
        × ((env.value t (marpa (v_step p)) ≡ pos 5) → (value_step env w o e p s t).0 ≡ inactive)
  unfolding value_step
  value_step_returns p s t v placed = (
    ground (
      arith,
      rule_step_returns p s t v placed,
      token_step_returns p s t v placed,
      nulling_step_returns p s t v placed,
    ),
    λ e. ground arith,
  )

  pub hand_result_returns :
      (s : Stack) (t : Trace) → IsValid s → (hand_result env w o e s t).0 ≢ evaluating
  unfolding hand_result
  hand_result_returns s t v = ground (
    arith,
    access_returns (stack_env env) (stack_env-IsBounded env bounded)
        (stack_env-IsGenerous env generous) 0 null s t v,
  )
