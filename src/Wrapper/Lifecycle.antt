-- ===== src/Wrapper/Lifecycle.antt =====
-- Making and destroying a wrapper: `marpaWrapper_newp` and `marpaWrapper_destroyv` of
-- src/marpaWrapper.c.
pub mod Balance
pub mod Creation
use marpa_wrapper.Prelude.{
  ℕ, Bool, true, false, not, Option, none, some, List, [], ◌∷◌, ◌==◌, if◌then◌else◌,
}
use marpa_wrapper.Prelude.Int.{ℤ, pos, eqb_ℤ, is_negative}
use marpa_wrapper.World.{
  Ptr, null, error, libmarpa, malloc, free, log, marpa, MarpaCall, version, check_version, c_init,
  g_new, g_force_valued, g_unref, r_unref, Trace, Env, M, pure, ◌>>=◌, ◌>>◌, get_state, put_state,
  emit, when, ask_int, ask_pointer,
}
use marpa_wrapper.Buf.{Buf, empty, free_all}
use marpa_wrapper.Wrapper.{
  Wrapper, WrapperOption, Symbol, Rule, Progress, option_default, log_c_error, log_g_error,
  in_symbols, in_rules, in_progress,
}

-- sizeof(marpaWrapper_t) on the platforms with 8-byte pointers
abbrev pub sizeof_wrapper : ℕ
sizeof_wrapper = 176

-- What lies in memory before the library writes to it.
pub record Memory : Type 0 where
  pub symbol_at : Ptr → Symbol
  pub rule_at : Ptr → Rule
  pub progress_at : Ptr → Progress

abbrev pub chosen_option : Option WrapperOption → WrapperOption
chosen_option none = option_default
chosen_option (some o) = o

-- The fields that `marpaWrapper_newp` fills.
abbrev pub initial : WrapperOption → Memory → Wrapper
initial o m = record {
  grammar = null;
  recognizer = null;
  logger = o.logger;
  symbols = empty;
  rules = empty;
  expected_ids = null;
  expected_symbols = null;
  expected = [];
  progress = empty;
  option = o;
  symbol_at = m.symbol_at;
  rule_at = m.rule_at;
  progress_at = m.progress_at;
}

-- `marpaWrapper_destroyv` on a wrapper at the address `self`.
unfoldable pub destroy : Ptr → M Wrapper (Unit {0})
destroy self = do
  w ← get_state
  when (not (w.recognizer == null)) (emit (marpa (r_unref w.recognizer)))
  when (not (w.grammar == null)) (emit (marpa (g_unref w.grammar)))
  in_symbols free_all
  in_rules free_all
  in_progress free_all
  when (not (w.expected_ids == null)) (emit (free w.expected_ids))
  when (not (w.expected_symbols == null)) (emit (free w.expected_symbols))
  emit (free self)

module _ (env : Env) where
  -- The end of a failed `marpaWrapper_newp`.
  abbrev pub give_up : Ptr → M Wrapper Bool
  give_up self = destroy self >> pure false

  -- `marpa_c_init` and what follows it.
  unfoldable pub make_grammar : Ptr → M Wrapper Bool
  make_grammar self = do
    emit (marpa c_init)
    grammar ← ask_pointer env (marpa g_new)
    w ← get_state
    put_state (record w { grammar = grammar })
    if grammar == null then log_c_error env >> give_up self else (do
      code ← ask_int env (marpa (g_force_valued grammar))
      if is_negative code then log_g_error env grammar >> give_up self else pure true)

  -- The check of the version that the option asks for.
  unfoldable pub check_wanted : Option (ℤ × ℤ × ℤ) → Ptr → M Wrapper Bool
  check_wanted none self = make_grammar self
  check_wanted (some (major, minor, micro)) self = do
    code ← ask_int env (marpa (check_version major minor micro))
    if eqb_ℤ code (pos 0)
        then make_grammar self
        else emit (log error libmarpa code "Marpa") >> give_up self

  -- `marpaWrapper_newp` from the call of `marpa_version` on.
  unfoldable pub set_up : Ptr → M Wrapper Bool
  set_up self = do
    w ← get_state
    code ← ask_int env (marpa version)
    if is_negative code
        then emit (log error libmarpa code "Marpa") >> give_up self
        else check_wanted w.option.version self

  -- `marpaWrapper_newp`: the address of the wrapper and the wrapper. There is no logger for the
  -- message of the first return.
  unfoldable pub new : Option WrapperOption → Memory → Trace → Option (Ptr × Wrapper) × Trace
  new option memory t =
      let self = env.address t (malloc sizeof_wrapper) in
      let (ok, w, t') =
        set_up self (initial (chosen_option option) memory) (malloc sizeof_wrapper ∷ t) in
      if self == null
      then (none, malloc sizeof_wrapper ∷ t)
      else (if ok then (some (self, w), t') else (none, t'))
