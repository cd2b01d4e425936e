-- ===== src/Wrapper/Valuation/Leaves.antt =====
-- What a token and a nulled symbol of a valuation of src/marpaWrapper.c are valued by, and where the
-- value goes; and which steps leave the stack alone.
use marpa_wrapper.Prelude.{ℕ, ◌+◌, ◌<◌, ◌≡◌, ◌⊎◌, inl, inr, some, ◌∷◌, arith}
use marpa_wrapper.Prelude.Int.{ℤ, pos, uint_mod}
use Prim.Native.String.{String}
use marpa_wrapper.World.{
  Ptr, marpa, v_step, v_token, v_token_value, v_symbol, v_result, Call, value_symbol_callback,
  value_nulling_callback, Trace, Env, IsBounded,
}
use marpa_wrapper.Stack.{Stack}
use marpa_wrapper.Stack.Valid.{IsValid}
use marpa_wrapper.Stack.Access.{Sets}
use marpa_wrapper.Wrapper.{at_id, Wrapper}
use marpa_wrapper.Wrapper.Valuation.{ValueOption, ElementOption, stack_env}
use marpa_wrapper.Wrapper.Valuation.Steps.{
  Stepped, goes_on, store_result, apply_symbol, token_step, nulling_step, value_step,
}
use marpa_wrapper.Wrapper.Valuation.Inputs.{store_result-Sets}

-- What a step `after` came to that called `c` after the trace `t`: it went on to store what the callback
-- answered, and what stands for that is in the slot.
abbrev pub Answers :
    Env
    → Wrapper
    → ValueOption
    → ElementOption
    → (result : ℕ) → Call
    → Stack
    → Trace
    → Stepped × Stack × Trace
    → Type 0
Answers env w o e result c s t (stepped, s', t') =
    ((stepped, s', t') ≡ store_result env w o e (pos result) (env.address t c) s (c ∷ t))
    × Sets (stack_env env) result (env.address t c) s s' t'

module _ (env : Env) (bounded : IsBounded env) (w : Wrapper) (o : ValueOption)
    (e : ElementOption) where
  apply_symbol-Answers :
      (result : ℕ) (c : Call) (text : String) (s : Stack) (t : Trace)
      → IsValid s
      → result + 1 < uint_mod
      → (apply_symbol env w o e (pos result) (some c) text s t).0 ≡ goes_on
      → Answers env w o e result c s t (apply_symbol env w o e (pos result) (some c) text s t)
  unfolding apply_symbol
  apply_symbol-Answers result c text s t v small ok = (
    called,
    rw called (
        store_result-Sets env bounded w o e result (env.address t c) s (c ∷ t) v small
          (rw called at ok)),
  )
    where
      called :
          apply_symbol env w o e (pos result) (some c) text s t
          ≡ store_result env w o e (pos result) (env.address t c) s (c ∷ t)
      called = ground arith

  -- A step for a token or for a nulled symbol that succeeds, with callbacks for both, on a valid stack
  -- and when libmarpa names a slot for the result that is at most 2^32 - 2: the callback was called with
  -- the symbol of the wrapper that libmarpa names, and with the value of the token, and what it
  -- answered was stored. What stands for it is in the slot of the result, NULL for NULL, else a block
  -- that `malloc` gave and into which `memcpy` copied it; every other slot that the stack held is as it
  -- was.
  pub value_step-leaves :
      (symbol_user nulling_user : Ptr) (result : ℕ) (p : Ptr) (s : Stack) (t : Trace)
      → IsValid s
      → o.symbol_callback ≡ some symbol_user
      → o.nulling_callback ≡ some nulling_user
      → result + 1 < uint_mod
      → let kind = env.value t (marpa (v_step p)) in
        let t0 = marpa (v_step p) ∷ t in
        let token = env.value t0 (marpa (v_token p)) in
        let t1 = marpa (v_token p) ∷ t0 in
        let value = env.value t1 (marpa (v_token_value p)) in
        let t2 = marpa (v_token_value p) ∷ t1 in
        let nulled = env.value t0 (marpa (v_symbol p)) in
        let t3 = marpa (v_symbol p) ∷ t0 in
        let token_call = value_symbol_callback symbol_user (at_id w.symbols.slots token) value in
        let nulled_call = value_nulling_callback nulling_user (at_id w.symbols.slots nulled) in
        ((kind ≡ pos 2) × (env.value t2 (marpa (v_result p)) ≡ pos result))
          ⊎ ((kind ≡ pos 3) × (env.value t3 (marpa (v_result p)) ≡ pos result))
        → (value_step env w o e p s t).0 ≡ goes_on
        → let after = value_step env w o e p s t in
          ((kind ≡ pos 2) × Answers env w o e result token_call s (marpa (v_result p) ∷ t2) after)
          ⊎ ((kind ≡ pos 3)
              × Answers env w o e result nulled_call s (marpa (v_result p) ∷ t3) after)
  unfolding value_step token_step nulling_step
  value_step-leaves symbol_user nulling_user result p s t v set1 set2 small (inl (kind, slot)) ok =
      inl (kind, rw called (apply_symbol-Answers result c text s t3 v small (rw called at ok)))
    where
      t2 : Trace
      t2 = marpa (v_token_value p) ∷ marpa (v_token p) ∷ marpa (v_step p) ∷ t

      t3 : Trace
      t3 = marpa (v_result p) ∷ t2

      token : ℤ
      token = env.value (marpa (v_step p) ∷ t) (marpa (v_token p))

      value : ℤ
      value = env.value (marpa (v_token p) ∷ marpa (v_step p) ∷ t) (marpa (v_token_value p))

      c : Call
      c = value_symbol_callback symbol_user (at_id w.symbols.slots token) value

      text : String
      text = "valueSymbolCallbackp() failure"

      called : value_step env w o e p s t ≡ apply_symbol env w o e (pos result) (some c) text s t3
      called = ground (arith, kind, slot, set1)
  value_step-leaves symbol_user nulling_user result p s t v set1 set2 small (inr (kind, slot)) ok =
      inr (kind, rw called (apply_symbol-Answers result c text s t3 v small (rw called at ok)))
    where
      t3 : Trace
      t3 = marpa (v_result p) ∷ marpa (v_symbol p) ∷ marpa (v_step p) ∷ t

      nulled : ℤ
      nulled = env.value (marpa (v_step p) ∷ t) (marpa (v_symbol p))

      c : Call
      c = value_nulling_callback nulling_user (at_id w.symbols.slots nulled)

      text : String
      text = "valueNullingCallbackp() failure"

      called : value_step env w o e p s t ≡ apply_symbol env w o e (pos result) (some c) text s t3
      called = ground (arith, kind, slot, set2)
