-- ===== src/Wrapper/Valuation/Tallies.antt =====
-- The calls of libmarpa that the parts of a valuation make, counted by their role.
use marpa_wrapper.Prelude.{
  ℕ, zero, suc, ◌+◌, ◌≡◌, refl, ◌∙◌, inl, inr, Bool, ◌%◌, Option, List, ◌∷◌, arith, Option-cases,
}
use marpa_wrapper.Prelude.Int.{ℤ, pos, ◌+ℤ◌, ◌-ℤ◌, uint_mod, mul_size, sizeof_pointer}
use Prim.Native.String.{String}
use marpa_wrapper.World.{
  Ptr, MarpaCall, v_step, v_rule, v_arg_0, v_arg_n, v_result, v_token, v_token_value, v_symbol,
  marpa, malloc, free, Call, Trace, Env,
}
use marpa_wrapper.World.Tally.{tally}
use marpa_wrapper.Stack.{Stack, get, set_at}
use marpa_wrapper.Stack.Tally.{tally-get, tally-set_at}
use marpa_wrapper.Wrapper.{Wrapper, to_size}
use marpa_wrapper.Wrapper.Valuation.{ValueOption, ElementOption, stack_env, to_uint}
use marpa_wrapper.Wrapper.Valuation.Steps.{
  read_inputs, ask_value, give_back, store_result, rule_call, apply_rule, rule_step, symbol_call,
  nulling_call, apply_symbol, token_step, nulling_step, value_step, hand_result,
}
use marpa_wrapper.Wrapper.Valuation.Roles.{Role, steps, by_role}

module _ (env : Env) (w : Wrapper) (o : ValueOption) (e : ElementOption)
    (g : Trace → MarpaCall → Role → ℕ) where
  tally-read_inputs :
      (count first : ℕ) (s : Stack) (t : Trace)
      → tally (by_role g) (read_inputs env w o e count first s t).2 ≡ tally (by_role g) t
  unfolding read_inputs
  tally-read_inputs zero first s t = refl
  tally-read_inputs (suc count) first s t = elim (Option-cases got.0) [
    | inl none_yet ↦ ground (arith, tally-get (stack_env env) (by_role g) (first % uint_mod) s t)
    | inr (p, found) ↦ ground (
      arith,
      tally-get (stack_env env) (by_role g) (first % uint_mod) s t,
      tally-read_inputs count (first + 1) got.1 got.2,
    )
  ]
    where
      got : Option Ptr × Stack × Trace
      got = get (stack_env env) (first % uint_mod) s t

  tally-give_back :
      (p : Ptr) (s : Stack) (t : Trace)
      → tally (by_role g) (give_back env w o e p s t).2 ≡ tally (by_role g) t
  unfolding give_back
  tally-give_back p s t = ground arith

  tally-store_result :
      (result : ℤ) (p : Ptr) (s : Stack) (t : Trace)
      → tally (by_role g) (store_result env w o e result p s t).2 ≡ tally (by_role g) t
  unfolding store_result
  tally-store_result result p s t = elim (Option-cases stored.0) [
    | inl none_yet ↦ ground (arith, tally-set_at (stack_env env) (by_role g) (to_uint result) p s t)
    | inr (status, found) ↦ ground (
      arith,
      tally-set_at (stack_env env) (by_role g) (to_uint result) p s t,
      tally-give_back p stored.1 stored.2,
    )
  ]
    where
      stored : Option ℕ × Stack × Trace
      stored = set_at (stack_env env) (to_uint result) p s t

  tally-rule_call :
      (rule : ℤ) (ps : List Ptr) (text : String) (s : Stack) (t : Trace)
      → tally (by_role g) (ask_value env w o e (rule_call env w o e rule ps) text s t).2
        ≡ tally (by_role g) t
  tally-rule_call rule ps text s t = ground arith

  tally-symbol_call :
      (symbol token : ℤ) (text : String) (s : Stack) (t : Trace)
      → tally (by_role g) (ask_value env w o e (symbol_call env w o e symbol token) text s t).2
        ≡ tally (by_role g) t
  tally-symbol_call symbol token text s t = ground arith

  tally-nulling_call :
      (symbol : ℤ) (text : String) (s : Stack) (t : Trace)
      → tally (by_role g) (ask_value env w o e (nulling_call env w o e symbol) text s t).2
        ≡ tally (by_role g) t
  tally-nulling_call symbol text s t = ground arith

  tally-apply_rule :
      (rule result : ℤ) (p : Ptr) (ps : List Ptr) (s : Stack) (t : Trace)
      → tally (by_role g) (apply_rule env w o e rule result p ps s t).2 ≡ tally (by_role g) t
  unfolding apply_rule
  tally-apply_rule rule result p ps s t = ground (
    arith,
    tally-rule_call rule ps "valueRuleCallbackp() failure" s t,
    tally-store_result result called.0.1 called.1 (free p ∷ called.2),
  )
    where
      called : (Bool × Ptr) × Stack × Trace
      called = ask_value env w o e (rule_call env w o e rule ps) "valueRuleCallbackp() failure" s t

  tally-rule_step :
      (v : Ptr) (s : Stack) (t : Trace)
      → tally (by_role g) (rule_step env w o e v s t).2 ≡ tally (by_role g) t
  unfolding rule_step
  tally-rule_step v s t = elim (Option-cases read.0) [
    | inl none_yet ↦ ground (arith, tally-read_inputs count first s after)
    | inr (ps, found) ↦ ground (
      arith,
      tally-read_inputs count first s after,
      tally-apply_rule (env.value t (marpa (v_rule v)))
          (env.value (marpa (v_arg_n v) ∷ marpa (v_arg_0 v) ∷ marpa (v_rule v) ∷ t)
            (marpa (v_result v)))
          block ps read.1 read.2,
    )
  ]
    where
      ruled : Trace
      ruled = marpa (v_rule v) ∷ t

      asked : Trace
      asked = marpa (v_result v) ∷ marpa (v_arg_n v) ∷ marpa (v_arg_0 v) ∷ ruled

      first : ℕ
      first = to_size (env.value ruled (marpa (v_arg_0 v)))

      count : ℕ
      count = to_size (
          env.value (marpa (v_arg_0 v) ∷ ruled) (marpa (v_arg_n v))
          -ℤ env.value ruled (marpa (v_arg_0 v))
          +ℤ pos 1)

      after : Trace
      after = malloc (mul_size count sizeof_pointer) ∷ asked

      block : Ptr
      block = env.address asked (malloc (mul_size count sizeof_pointer))

      read : Option (List Ptr) × Stack × Trace
      read = read_inputs env w o e count first s after

  tally-apply_symbol :
      (result : ℤ) (c : Option Call) (text : String) (s : Stack) (t : Trace)
      → tally (by_role g) (ask_value env w o e c text s t).2 ≡ tally (by_role g) t
      → tally (by_role g) (apply_symbol env w o e result c text s t).2 ≡ tally (by_role g) t
  unfolding apply_symbol
  tally-apply_symbol result c text s t quiet =
      ground (arith, tally-store_result result called.0.1 called.1 called.2)
    where
      called : (Bool × Ptr) × Stack × Trace
      called = ask_value env w o e c text s t

  tally-token_step :
      (v : Ptr) (s : Stack) (t : Trace)
      → tally (by_role g) (token_step env w o e v s t).2 ≡ tally (by_role g) t
  unfolding token_step
  tally-token_step v s t =
      tally-apply_symbol (env.value valued (marpa (v_result v)))
        (symbol_call env w o e symbol token) "valueSymbolCallbackp() failure" s
        (marpa (v_result v) ∷ valued)
        (tally-symbol_call symbol token "valueSymbolCallbackp() failure" s
          (marpa (v_result v) ∷ valued))
      ∙ omega arith
    where
      symbol : ℤ
      symbol = env.value t (marpa (v_token v))

      token : ℤ
      token = env.value (marpa (v_token v) ∷ t) (marpa (v_token_value v))

      valued : Trace
      valued = marpa (v_token_value v) ∷ marpa (v_token v) ∷ t

  tally-nulling_step :
      (v : Ptr) (s : Stack) (t : Trace)
      → tally (by_role g) (nulling_step env w o e v s t).2 ≡ tally (by_role g) t
  unfolding nulling_step
  tally-nulling_step v s t =
      tally-apply_symbol (env.value (marpa (v_symbol v) ∷ t) (marpa (v_result v)))
        (nulling_call env w o e symbol) "valueNullingCallbackp() failure" s asked
        (tally-nulling_call symbol "valueNullingCallbackp() failure" s asked)
      ∙ omega arith
    where
      symbol : ℤ
      symbol = env.value t (marpa (v_symbol v))

      asked : Trace
      asked = marpa (v_result v) ∷ marpa (v_symbol v) ∷ t

  -- A step of a value asks for one step, and makes no call of another role.
  pub tally-value_step :
      (v : Ptr) (s : Stack) (t : Trace)
      → tally (by_role g) (value_step env w o e v s t).2
        ≡ g t (v_step v) steps + tally (by_role g) t
  unfolding value_step
  tally-value_step v s t = ground (
    arith,
    tally-rule_step v s (marpa (v_step v) ∷ t),
    tally-token_step v s (marpa (v_step v) ∷ t),
    tally-nulling_step v s (marpa (v_step v) ∷ t),
  )

  pub tally-hand_result :
      (s : Stack) (t : Trace)
      → tally (by_role g) (hand_result env w o e s t).2 ≡ tally (by_role g) t
  unfolding hand_result
  tally-hand_result s t = ground (arith, tally-get (stack_env env) (by_role g) 0 s t)
