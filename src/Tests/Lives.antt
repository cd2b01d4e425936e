-- ===== src/Tests/Lives.antt =====
-- The life of a wrapper, at a new one with a symbol, that is started.
use marpa_wrapper.Prelude.{ℕ, ◌%◌, ◌≡◌, ◌≢◌, refl, inr, none, some, false, [], arith, get_or}
use marpa_wrapper.Prelude.Int.{pos, ◌+ℤ◌, uint_mod}
use marpa_wrapper.World.{null, marpa, g_symbol_new, Trace}
use marpa_wrapper.Wrapper.{Wrapper, SymbolOption, option_default}
use marpa_wrapper.Wrapper.Events.{Sorter}
use marpa_wrapper.Wrapper.Recognize.{PtrSorter}
use marpa_wrapper.Buf.{create, resize, finish}
use marpa_wrapper.Wrapper.Symbols.{
  attach_symbol, fill_symbol, store_symbol, apply_symbol_option, add_symbol,
}
use marpa_wrapper.Wrapper.Getters.{symbols_size, symbol_id, symbol_user}
use marpa_wrapper.Wrapper.Getters.Added.{IsBelow, added_symbol_getters}
use marpa_wrapper.Tests.Bufs.{empty-IsValid}
use marpa_wrapper.Wrapper.Recognizer.{start}
use marpa_wrapper.Wrapper.Lifecycle.{initial}
use marpa_wrapper.Wrapper.Life.Sound.{IsSound}
use marpa_wrapper.Wrapper.Life.Numbered.{IsNumbered}
use marpa_wrapper.Wrapper.Life.Runs.{after, here, next, adds_symbol, starts, life_of_wrapper}
use marpa_wrapper.Tests.{world, small}
use marpa_wrapper.Tests.Tables.{memory, wrapper_made}

world-IsNumbered : IsNumbered world
world-IsNumbered = record {
  symbol = λ t g. inr (0, omega arith, refl);
  rule = λ t g lhs rhs. inr (0, omega arith, refl);
  sequence = λ t g lhs rhs separator minimum flags. inr (0, omega arith, refl);
}

abbrev same_order : Sorter
same_order cmp events = events

abbrev same_pointers : PtrSorter
same_pointers cmp ps = ps

abbrev made : Wrapper × Trace
made = (record (initial option_default memory) { grammar = 7 }, [])

life_of_wrapper_example :
    IsSound (after (start world same_order) (after (add_symbol world none) made)).0
life_of_wrapper_example =
    life_of_wrapper world world-IsNumbered same_order same_pointers none memory [] [] 100 made.0
      (after (start world same_order) (after (add_symbol world none) made)) wrapper_made
      (next (next here (adds_symbol none made)) (starts (after (add_symbol world none) made)))

abbrev data_option : SymbolOption
data_option = record {
  user = 44;
  terminal = false;
  start = false;
  event_set = 0;
  size = 0;
  first_char = pos 0;
}

added : (add_symbol world (some data_option) small []).0 ≢ null
unfolding add_symbol attach_symbol fill_symbol store_symbol apply_symbol_option create resize finish
    ◌+ℤ◌
added = omega arith

added_symbol_getters_example :
    let (p, w', _) = add_symbol world (some data_option) small [] in
    (n : ℕ) × (world.value [] (marpa (g_symbol_new 7)) ≡ pos n)
    × IsBelow n (symbols_size (some w'))
    × (get_or w'.symbols.slots n null ≡ p)
    × (symbol_id (some (w'.symbol_at p)) ≡ some (n % uint_mod))
    × (symbol_user (some (w'.symbol_at p)) ≡ some 44)
added_symbol_getters_example =
    added_symbol_getters world world-IsNumbered data_option small [] empty-IsValid added
