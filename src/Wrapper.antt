-- ===== src/Wrapper.antt =====
-- src/marpaWrapper.c and include/marpaWrapper.h: the structures of the wrapper, the default options,
-- the logging macros. The functions over them are in the children.
--
-- A structure that the library allocates is reached through an address; `symbol_at`, `rule_at` and
-- `progress_at` are what lies there. The library is taken as it is built with MARPAWRAPPER_NTRACE,
-- where the trace messages expand to nothing.
pub mod Tables
pub mod Symbols
pub mod Events
pub mod Recognizer
pub mod Lifecycle
pub mod Rules
pub mod Recognize
pub mod ProgressReport
pub mod Valuation
pub mod Life
pub mod Messages
pub mod Logging
pub mod Getters
use Prim.Native.Nat.{bit_and}
use Prim.Native.String.{String}
use marpa_wrapper.Prelude.{
  ℕ, ◌+◌, ◌*◌, ◌^◌, ◌%◌, ◌-◌, Bool, true, false, Option, none, some, List, [], ◌∷◌, ◌==◌,
  if◌then◌else◌, get_or,
}
pub use marpa_wrapper.Prelude.Int.{to_size}
use marpa_wrapper.Prelude.Int.{ℤ, pos, negsuc, size_mod, sizeof_pointer}
use marpa_wrapper.World.{
  Ptr, null, Level, error, warning, info, notice, Origin, os, libmarpa, na, MarpaCall, g_error,
  c_error, Call, marpa, log, errno, Trace, Env, M, pure, ◌>>=◌, ◌>>◌, get_state, put_state, emit,
  ask_int,
}
use marpa_wrapper.Buf.{Buf, create}

-- `marpaWrapperSymbolOption_t`
pub record SymbolOption : Type 0 where
  pub user : Ptr
  pub terminal : Bool
  pub start : Bool
  pub event_set : ℕ
  pub size : ℕ
  pub first_char : ℤ

-- `struct marpaWrapperSymbol`
pub record Symbol : Type 0 where
  pub id : ℤ
  pub option : SymbolOption
  pub is_lexeme : Bool
  pub length : ℕ

-- `marpaWrapperRuleOption_t`. The symbols are addresses; `rhs` has `nRhsSymboli` of them.
pub record RuleOption : Type 0 where
  pub user : Ptr
  pub lhs : Ptr
  pub rhs : List Ptr
  pub rank : ℤ
  pub null_ranks_high : Bool
  pub sequence : Bool
  pub separator : Ptr
  pub proper : Bool
  pub minimum : ℤ

-- `struct marpaWrapperRule`
pub record Rule : Type 0 where
  pub id : ℤ
  pub option : RuleOption

-- `marpaWrapperProgress_t`
pub record Progress : Type 0 where
  pub earley_set : ℤ
  pub origin : ℤ
  pub rule : Ptr
  pub position : ℤ

-- `marpaWrapperOption_t`. The event callback is `some` of its user data.
pub record WrapperOption : Type 0 where
  pub version : Option (ℤ × ℤ × ℤ)
  pub logger : Ptr
  pub event : Option Ptr
  pub warning_is_error : Bool
  pub warning_is_ignored : Bool
  pub unsorted_events : Bool

-- `struct marpaWrapper`, with what its pointers lead to. `expected` is what the block at
-- `expected_symbols` holds.
pub record Wrapper : Type 0 where
  pub grammar : Ptr
  pub recognizer : Ptr
  pub logger : Ptr
  pub symbols : Buf
  pub rules : Buf
  pub expected_ids : Ptr
  pub expected_symbols : Ptr
  pub expected : List Ptr
  pub progress : Buf
  pub option : WrapperOption
  pub symbol_at : Ptr → Symbol
  pub rule_at : Ptr → Rule
  pub progress_at : Ptr → Progress

-- What the table of symbols or of rules has for an identifier: NULL outside of it, below too.
abbrev pub at_id : List Ptr → ℤ → Ptr
at_id slots (pos n) = get_or slots n null
at_id slots (negsuc _) = null

-- `marpaWrapper_optionDefaultb`, on an argument that is not NULL
abbrev pub option_default : WrapperOption
option_default = record {
  version = none;
  logger = null;
  event = none;
  warning_is_error = false;
  warning_is_ignored = false;
  unsorted_events = false;
}

-- `marpaWrapper_symbolOptionDefaultb`: `firstChari` keeps what it was
abbrev pub symbol_option_default : SymbolOption → SymbolOption
symbol_option_default o = record o {
  user = null;
  terminal = false;
  start = false;
  event_set = 0;
  size = 0;
}

-- `marpaWrapper_ruleOptionDefaultb`
abbrev pub rule_option_default : RuleOption
rule_option_default = record {
  user = null;
  lhs = null;
  rhs = [];
  rank = pos 0;
  null_ranks_high = false;
  sequence = false;
  separator = null;
  proper = false;
  minimum = pos 0;
}

-- the flags of `marpaWrapperEventType_t`
abbrev pub completed : ℕ
completed = 0x01

abbrev pub nulled : ℕ
nulled = 0x02

abbrev pub predicted : ℕ
predicted = 0x04

-- `(eventSeti & flag) == flag`
abbrev pub subscribes : ℕ → ℕ → Bool
subscribes event_set flag = bit_and event_set flag == flag

-- a store through an address
abbrev pub update : {A : Type 0} → (Ptr → A) → Ptr → A → Ptr → A
update f p a q = if q == p then a else f q

module _ {S : Type 0} where
  -- MARPAWRAPPER_LOG_ERROR0 and the macros for the other levels
  abbrev pub log_error : String → M S (Unit {0})
  log_error text = emit (log error na (pos 0) text)

  abbrev pub log_warning : String → M S (Unit {0})
  log_warning text = emit (log warning na (pos 0) text)

  abbrev pub log_info : String → M S (Unit {0})
  log_info text = emit (log info na (pos 0) text)

  abbrev pub log_notice : String → M S (Unit {0})
  log_notice text = emit (log notice na (pos 0) text)

module _ {S : Type 0} (env : Env) where
  -- MARPAWRAPPER_LOG_MARPA_G_ERROR
  abbrev pub log_g_error : Ptr → M S (Unit {0})
  log_g_error grammar = do
    code ← ask_int env (marpa (g_error grammar))
    emit (log error libmarpa code "Marpa")

  -- MARPAWRAPPER_LOG_MARPA_C_ERROR
  abbrev pub log_c_error : M S (Unit {0})
  log_c_error = do code ← ask_int env (marpa c_error); emit (log error libmarpa code "Marpa")

  -- MARPAWRAPPER_LOG_SYS_ERROR(errno, …)
  abbrev pub log_sys_error : String → M S (Unit {0})
  log_sys_error text = do code ← ask_int env errno; emit (log error os code text)

-- An operation on one of the arrays of a wrapper.
abbrev pub in_symbols : {A : Type 0} → M Buf A → M Wrapper A
in_symbols m w t = let r = m w.symbols t in (r.0, record w { symbols = r.1 }, r.2)

abbrev pub in_rules : {A : Type 0} → M Buf A → M Wrapper A
in_rules m w t = let r = m w.rules t in (r.0, record w { rules = r.1 }, r.2)

abbrev pub in_progress : {A : Type 0} → M Buf A → M Wrapper A
in_progress m w t = let r = m w.progress t in (r.0, record w { progress = r.1 }, r.2)

-- `if (marpaWrapperp == NULL) return …`, with which every function that takes a wrapper begins.
pub unless_null :
    {A : Type 0} → A → M Wrapper A → Option Wrapper → Trace → A × Option Wrapper × Trace
unless_null fallback m none t = (fallback, none, t)
unless_null fallback m (some w) t = let r = m w t in (r.0, some r.1, r.2)

-- `manageBuf_createp` on an array of pointers. It always returns (`Buf.Valid.create-Creates`), so the
-- case of a running loop does not arise.
abbrev pub create_pointers : Env → ℕ → M Buf Ptr
create_pointers env wanted b t =
    let r = create env wanted sizeof_pointer b t in
    (elim r.0 [ none ↦ null | some p ↦ p ], r.1, r.2)
