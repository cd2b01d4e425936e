-- ===== src/Tests/Tables.antt =====
-- The theorems on the tables and on the life of a wrapper.
use marpa_wrapper.Prelude.{
  ◌+◌, ◌≡◌, ◌≢◌, ◌⊎◌, refl, [], ◌∷◌, true, none, some, arith, ◌==◌, if◌then◌else◌,
}
use marpa_wrapper.Prelude.Int.{pos, ◌+ℤ◌}
use Prim.Native.String.{String}
use marpa_wrapper.World.{null, malloc, log, error, na}
use marpa_wrapper.World.Frees.{frees}
use marpa_wrapper.Buf.{empty, create, resize, finish}
use marpa_wrapper.Wrapper.{RuleOption, rule_option_default, option_default}
use marpa_wrapper.Wrapper.Tables.{Puts}
use marpa_wrapper.Wrapper.Symbols
use marpa_wrapper.Wrapper.Symbols.{
  attach_symbol, fill_symbol, store_symbol, apply_symbol_option, attach_symbol-Puts,
}
use marpa_wrapper.Wrapper.Rules.{
  attach_rule, fill_rule, store_rule, apply_rule_option, create_rule, add_rule,
}
use marpa_wrapper.Wrapper.Rules.Table.{attach_rule-Puts, IsWellFormed, add_rule_checks}
use marpa_wrapper.Wrapper.Lifecycle.{
  Memory, initial, sizeof_wrapper, destroy, make_grammar, check_wanted, set_up, new,
}
use marpa_wrapper.Wrapper.Lifecycle.Balance.{holds, frees-destroy_wrapper}
use marpa_wrapper.Wrapper.Lifecycle.Creation.{frees-new}
use marpa_wrapper.Tests.{world, full_world, small}
use marpa_wrapper.Tests.Bufs.{empty-IsValid}

symbol_attached : (attach_symbol world (pos 0) none small []).0 ≢ null
unfolding attach_symbol fill_symbol store_symbol apply_symbol_option create resize finish ◌+ℤ◌
symbol_attached = omega arith

attach_symbol-Puts_example :
    let (p, w', _) = attach_symbol world (pos 0) none small [] in
    Puts 0 p empty w'.symbols
    × ((w'.symbol_at p).id ≡ pos 0)
    × ((w'.symbol_at p).option ≡ Symbols.chosen_option none (small.symbol_at p).option)
attach_symbol-Puts_example =
    attach_symbol-Puts world 0 none small [] (omega arith) empty-IsValid symbol_attached

rule_attached : (attach_rule world (pos 0) rule_option_default small []).0 ≢ null
unfolding attach_rule fill_rule store_rule apply_rule_option create resize finish ◌+ℤ◌
rule_attached = omega arith

attach_rule-Puts_example :
    let (p, w', _) = attach_rule world (pos 0) rule_option_default small [] in
    Puts 0 p empty w'.rules
    × ((w'.rule_at p).id ≡ pos 0)
    × ((w'.rule_at p).option ≡ rule_option_default)
attach_rule-Puts_example =
    attach_rule-Puts world 0 rule_option_default small [] (omega arith) empty-IsValid rule_attached

-- a sequence of symbol 3 with the minimum 2, which is refused
abbrev bad_sequence : RuleOption
bad_sequence = record rule_option_default {
  lhs = 4;
  rhs = 3 ∷ [];
  sequence = true;
  minimum = pos 2;
}

add_rule_checks_example :
    (IsWellFormed bad_sequence
      × (add_rule world (some bad_sequence) small [] ≡ create_rule world bad_sequence small []))
    ⊎ ((¬ IsWellFormed bad_sequence)
        × ((text : String) × (add_rule world (some bad_sequence) small []
              ≡ (null, small, log error na (pos 0) text ∷ []))))
add_rule_checks_example = add_rule_checks world bad_sequence small []

abbrev pub memory : Memory
memory = record {
  symbol_at = small.symbol_at;
  rule_at = small.rule_at;
  progress_at = small.progress_at;
}

pub wrapper_made :
    (new world none memory []).0
    ≡ some (100, record (initial option_default memory) { grammar = 7 })
unfolding new set_up check_wanted make_grammar
wrapper_made = refl

none_made : (new full_world none memory []).0 ≡ none
unfolding new
none_made = refl

frees-new_example :
    frees 100 (new full_world none memory []).1
    ≡ (if full_world.address [] (malloc sizeof_wrapper) == 100 then 1 else 0) + frees 100 []
frees-new_example = frees-new full_world none memory [] 100 (omega arith) none_made

frees-destroy_wrapper_example :
    frees 100 (destroy 100 small []).2
    ≡ (if 100 == 100 then 1 else 0)
      + (if small.expected_symbols == 100 then 1 else 0)
      + (if small.expected_ids == 100 then 1 else 0)
      + holds 100 small.progress
      + holds 100 small.rules
      + holds 100 small.symbols
      + frees 100 []
frees-destroy_wrapper_example = frees-destroy_wrapper 100 100 small [] (omega arith)
