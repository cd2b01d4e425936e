-- ===== src/Wrapper/Valuation/Valid.antt =====
-- The steps of a value keep its stack valid, and return, where memory does not run out.
use marpa_wrapper.Prelude.{
  ℕ, zero, suc, ◌+◌, ◌%◌, ◌≡◌, inl, inr, Bool, Option, none, some, List, ◌∷◌, arith, Option-cases,
}
use marpa_wrapper.Prelude.Int.{ℤ, pos, ◌+ℤ◌, ◌-ℤ◌, uint_mod, mul_size, sizeof_pointer}
use Prim.Native.String.{String}
use marpa_wrapper.World.{
  Ptr, null, marpa, malloc, free, v_rule, v_arg_0, v_arg_n, v_result, v_step, Call, Trace, Env,
  IsBounded, IsGenerous,
}
use marpa_wrapper.Stack.{Stack, get, set_at}
use marpa_wrapper.Stack.Valid.{IsValid, get-IsValid, set_at-IsValid}
use marpa_wrapper.Wrapper.{Wrapper, to_size}
use marpa_wrapper.Wrapper.Valuation.{ValueOption, ElementOption, stack_env, to_uint}
use marpa_wrapper.Wrapper.Valuation.Steps.{
  read_inputs, ask_value, rule_call, give_back, store_result, apply_rule, rule_step, apply_symbol,
  token_step, nulling_step, value_step,
}

-- What the stack of a valuation sees of memory is what the world has.
pub stack_env-IsBounded : (env : Env) → IsBounded env → IsBounded (stack_env env)
stack_env-IsBounded env bounded = record {
  malloc_bounded = bounded.malloc_bounded;
  realloc_bounded = bounded.realloc_bounded;
}

pub stack_env-IsGenerous : (env : Env) → IsGenerous env → IsGenerous (stack_env env)
stack_env-IsGenerous env generous = record { realloc_answers = generous.realloc_answers }

module _ (env : Env) (bounded : IsBounded env) (w : Wrapper) (o : ValueOption)
    (e : ElementOption) where
  pub read_inputs-IsValid :
      (count first : ℕ) (s : Stack) (t : Trace)
      → IsValid s
      → IsValid (read_inputs env w o e count first s t).1
  unfolding read_inputs
  read_inputs-IsValid zero first s t v = v
  read_inputs-IsValid (suc count) first s t v = elim (Option-cases got.0) [
    | inl none_yet ↦ rw (no_input none_yet) valid
    | inr (p, found) ↦ ground (arith, read_inputs-IsValid count (first + 1) got.1 got.2 valid)
  ]
    where
      got : Option Ptr × Stack × Trace
      got = get (stack_env env) (first % uint_mod) s t

      valid : IsValid got.1
      valid = get-IsValid (stack_env env) (stack_env-IsBounded env bounded) (first % uint_mod) s t v

      no_input : got.0 ≡ none → read_inputs env w o e (suc count) first s t ≡ (none, got.1, got.2)
      no_input none_yet = ground arith

  give_back-state : (p : Ptr) (s : Stack) (t : Trace) → (give_back env w o e p s t).1 ≡ s
  unfolding give_back
  give_back-state p s t = ground arith

  store_result-IsValid :
      (result : ℤ) (p : Ptr) (s : Stack) (t : Trace)
      → IsValid s
      → IsValid (store_result env w o e result p s t).1
  unfolding store_result
  store_result-IsValid result p s t v = rw same valid
    where
      stored : Option ℕ × Stack × Trace
      stored = set_at (stack_env env) (to_uint result) p s t

      valid : IsValid stored.1
      valid =
          set_at-IsValid (stack_env env) (stack_env-IsBounded env bounded) (to_uint result) p s t v

      same : (store_result env w o e result p s t).1 ≡ stored.1
      same = ground (arith, give_back-state p stored.1 stored.2)

  apply_rule-IsValid :
      (rule result : ℤ) (p : Ptr) (ps : List Ptr) (s : Stack) (t : Trace)
      → IsValid s
      → IsValid (apply_rule env w o e rule result p ps s t).1
  unfolding apply_rule
  apply_rule-IsValid rule result p ps s t v =
      ground (arith, store_result-IsValid result called.0.1 s (free p ∷ called.2) v)
    where
      called : (Bool × Ptr) × Stack × Trace
      called = ask_value env w o e (rule_call env w o e rule ps) "valueRuleCallbackp() failure" s t

  rule_step-IsValid :
      (p : Ptr) (s : Stack) (t : Trace) → IsValid s → IsValid (rule_step env w o e p s t).1
  unfolding rule_step
  rule_step-IsValid p s t v = elim (Option-cases read.0) [
    | inl none_yet ↦ ground (arith, valid)
    | inr (ps, found) ↦ ground (
      arith,
      apply_rule-IsValid (env.value t (marpa (v_rule p)))
          (env.value (marpa (v_arg_n p) ∷ marpa (v_arg_0 p) ∷ ruled) (marpa (v_result p))) block ps
          read.1 read.2 valid,
    )
  ]
    where
      ruled : Trace
      ruled = marpa (v_rule p) ∷ t

      asked : Trace
      asked = marpa (v_result p) ∷ marpa (v_arg_n p) ∷ marpa (v_arg_0 p) ∷ ruled

      count : ℕ
      count = to_size (
          env.value (marpa (v_arg_0 p) ∷ ruled) (marpa (v_arg_n p))
          -ℤ env.value ruled (marpa (v_arg_0 p))
          +ℤ pos 1)

      block : Ptr
      block = env.address asked (malloc (mul_size count sizeof_pointer))

      read : Option (List Ptr) × Stack × Trace
      read =
          read_inputs env w o e count (to_size (env.value ruled (marpa (v_arg_0 p)))) s
            (malloc (mul_size count sizeof_pointer) ∷ asked)

      valid : IsValid read.1
      valid =
          read_inputs-IsValid count (to_size (env.value ruled (marpa (v_arg_0 p)))) s
            (malloc (mul_size count sizeof_pointer) ∷ asked) v

  apply_symbol-IsValid :
      (result : ℤ) (c : Option Call) (text : String) (s : Stack) (t : Trace)
      → IsValid s
      → IsValid (apply_symbol env w o e result c text s t).1
  unfolding apply_symbol
  apply_symbol-IsValid result none text s t v = store_result-IsValid result null s t v
  apply_symbol-IsValid result (some c) text s t v =
      ground (arith, store_result-IsValid result (env.address t c) s (c ∷ t) v)

  token_step-IsValid :
      (p : Ptr) (s : Stack) (t : Trace) → IsValid s → IsValid (token_step env w o e p s t).1
  unfolding token_step
  token_step-IsValid p s t v = apply_symbol-IsValid _ _ _ s _ v

  nulling_step-IsValid :
      (p : Ptr) (s : Stack) (t : Trace) → IsValid s → IsValid (nulling_step env w o e p s t).1
  unfolding nulling_step
  nulling_step-IsValid p s t v = apply_symbol-IsValid _ _ _ s _ v

  -- Every step of a value keeps the stack valid, whatever libmarpa, the callbacks and memory answer.
  pub value_step-IsValid :
      (p : Ptr) (s : Stack) (t : Trace) → IsValid s → IsValid (value_step env w o e p s t).1
  unfolding value_step
  value_step-IsValid p s t v = ground (
    arith,
    rule_step-IsValid p s (marpa (v_step p) ∷ t),
    token_step-IsValid p s (marpa (v_step p) ∷ t),
    nulling_step-IsValid p s (marpa (v_step p) ∷ t),
  )
