-- ===== src/Tests.antt =====
-- The world that the tests run in: memory never runs out below the bound, libmarpa and the callbacks
-- answer as is written here.
mod Stacks
mod Bufs
mod Tables
mod Runs
mod Matches
mod Reports
mod Values
mod Lives
mod Messages
mod Logs
mod Offers
mod Memories
use marpa_wrapper.Prelude.{
  ℕ, zero, suc, ◌+◌, ◌≡◌, refl, List, [], ◌∷◌, false, none, arith, ltb, if◌then◌else◌, length,
}
use marpa_wrapper.Prelude.Int.{ℤ, pos, ptrdiff_max}
use marpa_wrapper.World.{
  Ptr, null, Trace, Call, malloc, realloc, marpa, g_new, r_new, g_event_count, g_event,
  g_event_value, r_terminals_expected, is_lexeme_callback, g_highest_symbol_id, Env, IsBounded,
  IsGenerous, IsExhausted,
}
use marpa_wrapper.Buf.{empty}
use marpa_wrapper.Wrapper.{
  Wrapper, Symbol, SymbolOption, Rule, Progress, WrapperOption, rule_option_default,
}

-- two events: the completion of symbol 0 and the nulling of symbol 1
abbrev pub event_types : ℕ → ℤ
event_types zero = pos 6
event_types (suc _) = pos 8

abbrev pub event_values : ℕ → ℤ
event_values zero = pos 0
event_values (suc _) = pos 1

-- the user data of a symbol is the length that the lexer finds for it
abbrev pub match_of : Ptr → ℕ
match_of u = u

abbrev pub found : Ptr → ℤ
found zero = pos 0
found (suc _) = pos 1

abbrev pub addresses : Trace → Call → Ptr
addresses t (malloc n) = if ltb ptrdiff_max n then null else 100 + length t
addresses t (realloc p n) = if ltb ptrdiff_max n then null else 100 + length t
addresses t (marpa g_new) = 7
addresses t (marpa (r_new g)) = 9
addresses t c = null

abbrev pub values : Trace → Call → ℤ
values t (marpa (g_event_count g)) = pos 2
values t (marpa (g_event g i)) = event_types i
values t (marpa (g_event_value i)) = event_values i
values t (marpa (g_highest_symbol_id g)) = pos 1
values t (marpa (r_terminals_expected r ids)) = pos 2
values t (is_lexeme_callback u) = found u
values t c = pos 0

abbrev pub outputs : Trace → Call → ℕ → ℤ
outputs t (is_lexeme_callback u) i = pos u
outputs t c i = pos i

abbrev pub world : Env
world = record { address = addresses; value = values; output = outputs }

-- The same, with no memory left.
abbrev pub no_addresses : Trace → Call → Ptr
no_addresses t c = null

abbrev pub full_world : Env
full_world = record { address = no_addresses; value = values; output = outputs }

pub world-IsBounded : IsBounded world
world-IsBounded = record {
  malloc_bounded = λ t n large. ground arith;
  realloc_bounded = λ t p n large. ground arith;
}

pub world-IsGenerous : IsGenerous world
world-IsGenerous = record { realloc_answers = λ t p n small. ground arith }

pub full_world-IsExhausted : IsExhausted full_world
full_world-IsExhausted t p n = refl

-- A symbol at the address `p` with user data `p`.
abbrev pub symbol_of : Ptr → Symbol
symbol_of p = record {
  id = pos p;
  option = record {
    user = p;
    terminal = false;
    start = false;
    event_set = 0;
    size = 0;
    first_char = pos 0;
  };
  is_lexeme = false;
  length = 0;
}

-- An empty wrapper with a grammar.
abbrev pub small : Wrapper
small = record {
  grammar = 7;
  recognizer = null;
  logger = null;
  symbols = empty;
  rules = empty;
  expected_ids = null;
  expected_symbols = null;
  expected = [];
  progress = empty;
  option = record {
    version = none;
    logger = null;
    event = none;
    warning_is_error = false;
    warning_is_ignored = false;
    unsorted_events = false;
  };
  symbol_at = symbol_of;
  rule_at = λ p. record { id = pos p; option = rule_option_default };
  progress_at = λ p. record { earley_set = pos 0; origin = pos 0; rule = null; position = pos 0 };
}
