-- ===== src/World.antt =====
-- The world around the library: the C runtime, libmarpa and the callbacks of the application.
-- What they return may depend on everything that was called before, so an environment is a function
-- of the trace of calls (newest first); a program over a state `S` threads the state and the trace.
pub mod Frees
pub mod Tally
pub mod Blocks
use Prim.Native.String.{String}
use marpa_wrapper.Prelude.{ℕ, ◌≤◌, ◌<◌, ◌≡◌, ◌≢◌, Bool, List, ◌∷◌, if◌then◌else◌}
use marpa_wrapper.Prelude.Int.{ℤ, ptrdiff_max}

-- `genericStack_error_t`
pub data StackError : Type 0 where
  system parameter runtime callback : StackError

-- An address; 0 is NULL.
abbrev pub Ptr : Type 0
Ptr = ℕ

abbrev pub null : Ptr
null = 0

-- `genericLoggerLevel_t`
pub data Level : Type 0 where
  trace debug info notice warning error critical alert emergency : Level

-- `marpaWrapperErrorOrigin_t`
pub data Origin : Type 0 where
  os libmarpa na : Origin

-- The calls of libmarpa, without their `marpa_`: grammars and recognizers are addresses, identifiers
-- and flags are `int`s.
pub data MarpaCall : Type 0 where
  version : MarpaCall
  check_version : ℤ → ℤ → ℤ → MarpaCall
  c_init : MarpaCall
  c_error : MarpaCall
  g_new : MarpaCall
  g_force_valued : Ptr → MarpaCall
  g_unref : Ptr → MarpaCall
  g_error : Ptr → MarpaCall
  g_symbol_new : Ptr → MarpaCall
  g_symbol_is_terminal_set : Ptr → ℤ → ℤ → MarpaCall
  g_start_symbol_set : Ptr → ℤ → MarpaCall
  g_symbol_is_completion_event_set : Ptr → ℤ → ℤ → MarpaCall
  g_symbol_is_nulled_event_set : Ptr → ℤ → ℤ → MarpaCall
  g_symbol_is_prediction_event_set : Ptr → ℤ → ℤ → MarpaCall
  g_highest_symbol_id : Ptr → MarpaCall
  g_sequence_new : Ptr → (lhs rhs separator minimum flags : ℤ) → MarpaCall
  g_rule_new : Ptr → ℤ → List ℤ → MarpaCall
  g_rule_rank_set : Ptr → ℤ → ℤ → MarpaCall
  g_rule_null_high_set : Ptr → ℤ → ℤ → MarpaCall
  g_precompute : Ptr → MarpaCall
  g_event_count : Ptr → MarpaCall
  g_event : Ptr → ℕ → MarpaCall
  g_event_value : ℕ → MarpaCall
  r_new : Ptr → MarpaCall
  r_start_input : Ptr → MarpaCall
  r_unref : Ptr → MarpaCall
  r_alternative : Ptr → (id value length : ℤ) → MarpaCall
  r_earleme_complete : Ptr → MarpaCall
  r_terminals_expected : Ptr → Ptr → MarpaCall
  r_terminal_is_expected : Ptr → ℤ → MarpaCall
  r_completion_symbol_activate : Ptr → ℤ → ℤ → MarpaCall
  r_nulled_symbol_activate : Ptr → ℤ → ℤ → MarpaCall
  r_prediction_symbol_activate : Ptr → ℤ → ℤ → MarpaCall
  r_latest_earley_set : Ptr → MarpaCall
  r_earleme : Ptr → ℤ → MarpaCall
  r_progress_report_start : Ptr → ℤ → MarpaCall
  r_progress_item : Ptr → MarpaCall
  r_progress_report_finish : Ptr → MarpaCall
  b_new : Ptr → ℤ → MarpaCall
  b_unref : Ptr → MarpaCall
  o_new : Ptr → MarpaCall
  o_high_rank_only_set : Ptr → ℤ → MarpaCall
  o_rank : Ptr → MarpaCall
  o_ambiguity_metric : Ptr → MarpaCall
  o_is_null : Ptr → MarpaCall
  o_unref : Ptr → MarpaCall
  t_new : Ptr → MarpaCall
  t_next : Ptr → MarpaCall
  t_unref : Ptr → MarpaCall
  v_new : Ptr → MarpaCall
  v_valued_force : Ptr → MarpaCall
  v_step : Ptr → MarpaCall
  v_rule : Ptr → MarpaCall
  v_arg_0 : Ptr → MarpaCall
  v_arg_n : Ptr → MarpaCall
  v_result : Ptr → MarpaCall
  v_token : Ptr → MarpaCall
  v_token_value : Ptr → MarpaCall
  v_symbol : Ptr → MarpaCall
  v_unref : Ptr → MarpaCall

-- A text that is logged: a built one, or one of the two static ones.
pub data Message : Type 0 where
  text : Ptr → Message
  internal_error : Message
  empty_message : Message

pub data Call : Type 0 where
  -- the C runtime
  malloc : ℕ → Call
  realloc : Ptr → ℕ → Call
  free : Ptr → Call
  memcpy : Ptr → Ptr → ℕ → Call
  errno : Call
  -- into a block of so many bytes, for the format and the arguments at hand
  vsnprintf : Ptr → ℕ → Call
  -- the length of a text; the clock, and the local time that it shows; a date into a block of so many
  -- bytes; so many bytes from an address to the error output
  strlen : Ptr → Call
  time : Call
  localtime : Call
  strftime : Ptr → ℕ → Call
  write : Ptr → ℕ → Call
  -- the callback of a logger, NULL for the default one, with its user data
  log_callback : Ptr → Ptr → Level → Message → Call
  -- the callbacks of a stack: their user data first
  failure_callback : Ptr → StackError → ℤ → Call
  free_callback : Ptr → Ptr → Call
  copy_callback : Ptr → Ptr → Ptr → Call
  -- libmarpa
  marpa : MarpaCall → Call
  -- a message of the wrapper: its level, the origin and the number of the error, the text
  log : Level → Origin → ℤ → String → Call
  -- the callbacks of an application: of events, with the symbols in order, and of a recognizer
  event_callback : Ptr → List (ℕ × Ptr) → Call
  reader_callback : Ptr → Call
  is_lexeme_callback : Ptr → Call
  lexeme_value_callback : Ptr → Call
  -- of a valuation: of a rule with its inputs, of a symbol with its token value, of a nulled symbol,
  -- of a result
  value_rule_callback : Ptr → Ptr → List Ptr → Call
  value_symbol_callback : Ptr → Ptr → ℤ → Call
  value_nulling_callback : Ptr → Ptr → Call
  value_result_callback : Ptr → Ptr → Call

abbrev pub Trace : Type 0
Trace = List Call

-- What a call returns: as a pointer or as the pointer that it leaves through an argument, as an
-- `int`, and through its i-th output argument.
pub record Env : Type 0 where
  pub address : Trace → Call → Ptr
  pub value : Trace → Call → ℤ
  pub output : Trace → Call → ℕ → ℤ

abbrev pub M : Type 0 → Type 0 → Type 0
M S A = S → Trace → A × S × Trace

module _ {S : Type 0} where
  abbrev pub pure : {A : Type 0} → A → M S A
  pure a s t = (a, s, t)

  infixl 5 ◌>>=◌ ◌>>◌
  abbrev pub ◌>>=◌ : {A B : Type 0} → M S A → (A → M S B) → M S B
  ◌>>=◌ m f s t = let r = m s t in f r.0 r.1 r.2

  abbrev pub ◌>>◌ : {B : Type 0} → M S (Unit {0}) → M S B → M S B
  m >> k = m >>= λ _. k

  abbrev pub get_state : M S S
  get_state s t = (s, s, t)

  abbrev pub put_state : S → M S (Unit {0})
  put_state s' s t = (tt, s', t)

  -- A call of which nothing is returned.
  abbrev pub emit : Call → M S (Unit {0})
  emit c s t = (tt, s, c ∷ t)

  abbrev pub when : Bool → M S (Unit {0}) → M S (Unit {0})
  when b m = if b then m else pure tt

module _ {S : Type 0} (env : Env) where
  abbrev pub ask_pointer : Call → M S Ptr
  ask_pointer c s t = (env.address t c, s, c ∷ t)

  abbrev pub ask_int : Call → M S ℤ
  ask_int c s t = (env.value t c, s, c ∷ t)

-- The documented behaviour of `malloc` and `realloc` that the code relies on: there is no object of
-- more than PTRDIFF_MAX bytes, so a request for one returns NULL.
pub record IsBounded (env : Env) : Type 0 where
  pub malloc_bounded : (t : Trace) (n : ℕ) → ptrdiff_max < n → env.address t (malloc n) ≡ null
  pub realloc_bounded :
      (t : Trace) (p : Ptr) (n : ℕ) → ptrdiff_max < n → env.address t (realloc p n) ≡ null

-- The circumstances under which memory never runs out: a `realloc` within the bound answers.
pub record IsGenerous (env : Env) : Type 0 where
  pub realloc_answers :
      (t : Trace) (p : Ptr) (n : ℕ) → n ≤ ptrdiff_max → env.address t (realloc p n) ≢ null

-- The circumstances under which there is none left: every `realloc` returns NULL.
abbrev pub IsExhausted : Env → Type 0
IsExhausted env = (t : Trace) (p : Ptr) (n : ℕ) → env.address t (realloc p n) ≡ null
