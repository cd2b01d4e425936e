-- ===== src/Wrapper/Recognizer.antt =====
-- The recognizer of a wrapper: `marpaWrapper_g_precomputeb` and the `marpaWrapper_r_…` functions of
-- src/marpaWrapper.c that start a recognizer, feed it and question it.
pub mod Phase
use Prim.Native.Nat.{ℕ}
use marpa_wrapper.Prelude.{
  zero, suc, ◌+◌, Bool, true, false, not, ◌||◌, Option, none, some, List, [], ◌∷◌, ◌++◌, ltb, ◌==◌,
  if◌then◌else◌, get_or, drop,
}
use marpa_wrapper.Prelude.Int.{
  ℤ, pos, pos_part, ◌+ℤ◌, eqb_ℤ, ltb_ℤ, is_negative, is_minus_two, mul_size, sizeof_pointer,
}
use marpa_wrapper.World.{
  Ptr, null, malloc, free, marpa, MarpaCall, g_precompute, g_highest_symbol_id, r_new,
  r_start_input, r_unref, r_alternative, r_earleme_complete, r_terminals_expected,
  r_terminal_is_expected, r_completion_symbol_activate, r_nulled_symbol_activate,
  r_prediction_symbol_activate, Trace, Env, M, pure, ◌>>=◌, ◌>>◌, get_state, put_state, emit, when,
  ask_int, ask_pointer,
}
use marpa_wrapper.Wrapper.{
  at_id, Wrapper, completed, nulled, predicted, subscribes, log_g_error, log_sys_error, log_error,
  to_size,
}
use marpa_wrapper.Wrapper.Events.{Sorter, event}

-- sizeof(Marpa_Symbol_ID)
abbrev pub sizeof_id : ℕ
sizeof_id = 4

abbrev pub not_started : Wrapper → Bool
not_started w = w.recognizer == null

module _ (env : Env) where
  -- `marpaWrapper_r_alternativeb`
  unfoldable pub alternative : Ptr → (value length : ℤ) → M Wrapper Bool
  alternative symbol value length = if symbol == null then pure false else (do
    w ← get_state
    if not_started w then log_error "Read phase not started" >> pure false else (do
      code ← ask_int env (marpa (r_alternative w.recognizer (w.symbol_at symbol).id value length))
      if eqb_ℤ code (pos 0) then pure true else log_g_error env w.grammar >> pure false))

  -- `marpaWrapper_r_terminal_is_expectedb`; `none` is FALSE, else `*isExpectedbp`
  unfoldable pub terminal_is_expected : Ptr → M Wrapper (Option Bool)
  terminal_is_expected symbol = if symbol == null then pure none else (do
    w ← get_state
    if not_started w then log_error "Read phase not started" >> pure none else (do
      answer ← ask_int env (marpa (r_terminal_is_expected w.recognizer (w.symbol_at symbol).id))
      if is_minus_two answer
          then log_g_error env w.grammar >> pure none
          else pure (some (ltb_ℤ (pos 0) answer))))

  -- One of the three activations of `marpaWrapper_r_event_activateb`.
  abbrev pub activate : Bool → MarpaCall → ℤ → M Wrapper Bool → M Wrapper Bool
  activate wanted c on rest = do
    w ← get_state
    if wanted
        then (do
          answer ← ask_int env (marpa c)
          if eqb_ℤ answer on then rest else log_g_error env w.grammar >> pure false)
        else rest

  -- `marpaWrapper_r_event_activateb`
  unfoldable pub event_activate : Ptr → ℕ → Bool → M Wrapper Bool
  event_activate symbol event_set on = if symbol == null then pure false else (do
    w ← get_state
    let flag = if on then pos 1 else pos 0
    let id = (w.symbol_at symbol).id
    if not_started w
        then log_error "Read phase not started" >> pure false
        else activate (subscribes event_set completed)
            (r_completion_symbol_activate w.recognizer id flag) flag
            (activate (subscribes event_set nulled) (r_nulled_symbol_activate w.recognizer id flag)
              flag
              (activate (subscribes event_set predicted)
                (r_prediction_symbol_activate w.recognizer id flag) flag (pure true))))

  -- The two blocks of `marpaWrapper_r_terminals_expectedb`, allocated once for a recognizer.
  unfoldable pub expected_blocks : M Wrapper Bool
  expected_blocks = do
    w ← get_state
    if not (w.expected_ids == null) then pure true else (do
      highest ← ask_int env (marpa (g_highest_symbol_id w.grammar))
      if is_minus_two highest then log_g_error env w.grammar >> pure false else (do
        let count = to_size (highest +ℤ pos 1)
        ids ← ask_pointer env (malloc (mul_size count sizeof_id))
        put_state (record w { expected_ids = ids })
        if ids == null then log_sys_error env "malloc()" >> pure false else (do
          symbols ← ask_pointer env (malloc (mul_size count sizeof_pointer))
          if symbols == null
              then (do
                put_state (record w { expected_ids = ids; expected_symbols = null })
                log_sys_error env "malloc()"
                emit (free ids)
                put_state (record w { expected_ids = null; expected_symbols = null })
                pure false)
              else put_state (record w { expected_ids = ids; expected_symbols = symbols })
                >> pure true)))

  -- The symbols of the identifiers that the call `c` left in the array, from the `i`-th on.
  abbrev pub looked_up : Wrapper → (ℕ → ℤ) → ℕ → ℕ → List Ptr
  looked_up w ids zero i = []
  looked_up w ids (suc n) i = at_id w.symbols.slots (ids i) ∷ looked_up w ids n (i + 1)

  -- `marpaWrapper_r_terminals_expectedb`: `none` is FALSE, else the number of expected terminals, the
  -- first so many of `expected`.
  unfoldable pub terminals_expected : M Wrapper (Option ℤ)
  terminals_expected = do
    w ← get_state
    if not_started w then log_error "Read phase not started" >> pure none else (do
      ready ← expected_blocks
      if not ready then pure none else (λ w t.
          let c = marpa (r_terminals_expected w.recognizer w.expected_ids) in
          let n = env.value t c in
          if is_minus_two n then (log_g_error env w.grammar >> pure none) w (c ∷ t) else (
            some n,
            record w {
              expected =
                  looked_up w (env.output t c) (pos_part n) 0 ++ drop (pos_part n) w.expected;
            },
            c ∷ t,
          )))

module _ (env : Env) (qsort : Sorter) where
  -- `marpaWrapper_r_completeb`
  unfoldable pub complete : M Wrapper Bool
  complete = do
    w ← get_state
    if not_started w then log_error "Read phase not started" >> pure false else (do
      code ← ask_int env (marpa (r_earleme_complete w.recognizer))
      if is_minus_two code then log_g_error env w.grammar >> pure false else event env qsort)

  -- `marpaWrapper_r_readb`
  unfoldable pub read : Ptr → (value length : ℤ) → M Wrapper Bool
  read symbol value length = do
    accepted ← alternative env symbol value length
    if accepted then complete else pure false

  -- `marpaWrapper_g_precomputeb`
  unfoldable pub precompute : M Wrapper Bool
  precompute = do
    w ← get_state
    code ← ask_int env (marpa (g_precompute w.grammar))
    if is_negative code then log_g_error env w.grammar >> pure false else event env qsort

  -- What `marpaWrapper_r_startb` does with a recognizer that is there.
  unfoldable pub drop_recognizer : M Wrapper (Unit {0})
  drop_recognizer = do
    w ← get_state
    if not_started w then pure tt else (do
      emit (marpa (r_unref w.recognizer))
      when (not (w.expected_ids == null)) (emit (free w.expected_ids))
      when (not (w.expected_symbols == null)) (emit (free w.expected_symbols))
      put_state (record w { expected_ids = null; expected_symbols = null }))

  -- `marpaWrapper_r_startb`
  unfoldable pub start : M Wrapper Bool
  start = do
    drop_recognizer
    w ← get_state
    recognizer ← ask_pointer env (marpa (r_new w.grammar))
    put_state (record w { recognizer = recognizer })
    if recognizer == null then log_g_error env w.grammar >> pure false else (do
      code ← ask_int env (marpa (r_start_input recognizer))
      if is_negative code then log_g_error env w.grammar >> pure false else event env qsort)
