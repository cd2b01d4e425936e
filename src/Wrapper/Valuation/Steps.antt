-- ===== src/Wrapper/Valuation/Steps.antt =====
-- The steps of a value: the inner loop of `marpaWrapper_vb` of src/marpaWrapper.c.
use marpa_wrapper.Prelude.{
  ℕ, zero, suc, ◌+◌, ◌%◌, Bool, true, not, Option, none, some, List, [], ◌∷◌, ◌==◌, if◌then◌else◌,
}
use marpa_wrapper.Prelude.Int.{
  ℤ, pos, ◌+ℤ◌, ◌-ℤ◌, eqb_ℤ, is_minus_one, uint_mod, mul_size, sizeof_pointer,
}
use Prim.Native.String.{String}
use marpa_wrapper.World.{
  Ptr, null, error, na, malloc, free, free_callback, log, marpa, v_step, v_rule, v_arg_0, v_arg_n,
  v_result, v_token, v_token_value, v_symbol, value_rule_callback, value_symbol_callback,
  value_nulling_callback, value_result_callback, Call, Env, M, pure, ◌>>=◌, ◌>>◌, emit, ask_int,
  ask_pointer,
}
use marpa_wrapper.Stack.{Stack, get, set_at}
use marpa_wrapper.Wrapper.{at_id, Wrapper, to_size, log_error, log_sys_error}
use marpa_wrapper.Wrapper.Valuation.{
  ValueOption, ElementOption, callback_status, stack_env, to_uint,
}

-- What one step of a valuation comes to. A failure says which blocks are still held: the value of a
-- callback and the array of inputs. `stuck` is the growth of the stack that has not ended.
pub data Stepped : Type 0 where
  goes_on : Stepped
  inactive : Stepped
  step_failed : (output inputs : Ptr) → Stepped
  stuck : Stepped

-- The same of all the steps of a value, with its result callback.
pub data Evaluated : Type 0 where
  evaluating : Evaluated
  value_failed : (output inputs : Ptr) → Evaluated
  value_stopped : Evaluated
  value_done : Evaluated

module _ (env : Env) (w : Wrapper) (o : ValueOption) (e : ElementOption) where
  -- `for (i = 0; i < nValueInputi; i++) valueInputArraypp[i] = genericStack_getp(...)`
  unfoldable pub read_inputs : (count first : ℕ) → M Stack (Option (List Ptr))
  read_inputs zero first = pure (some [])
  read_inputs (suc count) first = do
    value ← get (stack_env env) (first % uint_mod)
    elim value [
      | none ↦ pure none
      | some p ↦ do
        rest ← read_inputs count (first + 1)
        elim rest [ none ↦ pure none | some ps ↦ pure (some (p ∷ ps)) ]
    ]

  -- A callback of the application, if it is set: whether it did not return FALSE, and the value that
  -- it left.
  abbrev pub ask_value : Option Call → String → M Stack (Bool × Ptr)
  ask_value none text = pure (true, null)
  ask_value (some c) text = λ s t.
      let failed = eqb_ℤ (env.value t c) (pos 0) in
      (
        (not failed, env.address t c),
        s,
        if failed then log error na (pos 0) text ∷ c ∷ t else c ∷ t,
      )

  -- The end of a step: a value that the stack has copied is given back.
  unfoldable pub give_back : Ptr → M Stack Stepped
  give_back output = if output == null then pure goes_on else (do
    answer ← ask_int env (free_callback e.free_user output)
    if eqb_ℤ (callback_status answer) (pos 0)
        then emit (free output) >> pure goes_on
        else pure (step_failed output null))

  -- `genericStack_seti(genericStackp, argResulti, valueOutputp)`, and the end of the step.
  unfoldable pub store_result : ℤ → Ptr → M Stack Stepped
  store_result result output = do
    status ← set_at (stack_env env) (to_uint result) output
    elim status [
      | none ↦ pure stuck
      | some status ↦ if status == 0 then pure (step_failed output null) else give_back output
    ]

  abbrev pub rule_call : ℤ → List Ptr → Option Call
  rule_call rule inputs = elim o.rule_callback [
    | none ↦ none
    | some user ↦ some (value_rule_callback user (at_id w.rules.slots rule) inputs)
  ]

  -- A rule from the call of its callback on; `block` is the array of the inputs.
  unfoldable pub apply_rule : (rule result : ℤ) → Ptr → List Ptr → M Stack Stepped
  apply_rule rule result block inputs = do
    called ← ask_value (rule_call rule inputs) "valueRuleCallbackp() failure"
    if called.0
        then emit (free block) >> store_result result called.1
        else pure (step_failed called.1 block)

  -- MARPA_STEP_RULE
  unfoldable pub rule_step : Ptr → M Stack Stepped
  rule_step v = do
    rule ← ask_int env (marpa (v_rule v))
    first ← ask_int env (marpa (v_arg_0 v))
    last ← ask_int env (marpa (v_arg_n v))
    result ← ask_int env (marpa (v_result v))
    let count = to_size (last -ℤ first +ℤ pos 1)
    block ← ask_pointer env (malloc (mul_size count sizeof_pointer))
    if block == null then log_sys_error env "malloc()" >> pure (step_failed null null) else (do
      inputs ← read_inputs count (to_size first)
      elim inputs [ none ↦ pure stuck | some ps ↦ apply_rule rule result block ps ])

  abbrev pub symbol_call : (symbol token : ℤ) → Option Call
  symbol_call symbol token = elim o.symbol_callback [
    | none ↦ none
    | some user ↦ some (value_symbol_callback user (at_id w.symbols.slots symbol) token)
  ]

  abbrev pub nulling_call : ℤ → Option Call
  nulling_call symbol = elim o.nulling_callback [
    | none ↦ none
    | some user ↦ some (value_nulling_callback user (at_id w.symbols.slots symbol))
  ]

  -- A symbol from the call of its callback on.
  unfoldable pub apply_symbol : ℤ → Option Call → String → M Stack Stepped
  apply_symbol result c text = do
    called ← ask_value c text
    if called.0 then store_result result called.1 else pure (step_failed called.1 null)

  -- MARPA_STEP_TOKEN
  unfoldable pub token_step : Ptr → M Stack Stepped
  token_step v = do
    symbol ← ask_int env (marpa (v_token v))
    token ← ask_int env (marpa (v_token_value v))
    result ← ask_int env (marpa (v_result v))
    apply_symbol result (symbol_call symbol token) "valueSymbolCallbackp() failure"

  -- MARPA_STEP_NULLING_SYMBOL
  unfoldable pub nulling_step : Ptr → M Stack Stepped
  nulling_step v = do
    symbol ← ask_int env (marpa (v_symbol v))
    result ← ask_int env (marpa (v_result v))
    apply_symbol result (nulling_call symbol) "valueNullingCallbackp() failure"

  -- The body of the inner loop: the `switch` over the numbers of libmarpa, where any other number, an
  -- error of libmarpa too, does nothing.
  unfoldable pub value_step : Ptr → M Stack Stepped
  value_step v = do
    type ← ask_int env (marpa (v_step v))
    if eqb_ℤ type (pos 1)
        then rule_step v
        else if eqb_ℤ type (pos 2)
        then token_step v
        else if eqb_ℤ type (pos 3)
        then nulling_step v
        else if eqb_ℤ type (pos 5)
        then pure inactive
        else pure goes_on

  -- The result callback, with the value in slot 0.
  unfoldable pub hand_result : M Stack Evaluated
  hand_result = elim o.result_callback [
    | none ↦ pure value_done
    | some user ↦ do
      value ← get (stack_env env) 0
      elim value [
        | none ↦ pure evaluating
        | some p ↦ do
          answer ← ask_int env (value_result_callback user p)
          if eqb_ℤ answer (pos 0)
              then log_error "valueResultCallbackp() failure" >> pure (value_failed null null)
              else if is_minus_one answer
              then pure value_stopped
              else pure value_done
      ]
  ]

  -- `while (nextb == MARPAWRAPPER_BOOL_TRUE)`, at most so many rounds, and the result.
  unfoldable pub evaluate : ℕ → Ptr → M Stack Evaluated
  evaluate zero v = pure evaluating
  evaluate (suc rounds) v = do
    stepped ← value_step v
    elim stepped [
      | goes_on ↦ evaluate rounds v
      | inactive ↦ hand_result
      | step_failed output inputs ↦ pure (value_failed output inputs)
      | stuck ↦ pure evaluating
    ]
