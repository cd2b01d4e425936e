-- ===== src/Tests/Memories.antt =====
-- The theorems on the memory of adding symbols and rules, where libmarpa has no symbol or rule yet.
use marpa_wrapper.Prelude.{◌≡◌, ◌⊎◌, refl, true, inr, some, none, [], ◌∷◌, arith}
use marpa_wrapper.Prelude.Int.{pos, is_minus_two}
use marpa_wrapper.World.{Trace}
use marpa_wrapper.Buf.Balance.{Holds}
use marpa_wrapper.Wrapper.{RuleOption, rule_option_default}
use marpa_wrapper.Wrapper.Tables.Memory.{held}
use marpa_wrapper.Wrapper.Symbols.{add_symbol}
use marpa_wrapper.Wrapper.Symbols.Memory.{add_symbol-Holds}
use marpa_wrapper.Wrapper.Rules.{add_rule, new_rule}
use marpa_wrapper.Wrapper.Rules.Memory.{add_rule-Holds}
use marpa_wrapper.Tests.{world, small}
use marpa_wrapper.Tests.Bufs.{empty-IsValid}

add_symbol-Holds_example :
    let (_, w', t') = add_symbol world none small [] in
    Holds world 102 (held 102 small.symbols) (held 102 w'.symbols) [] t'
add_symbol-Holds_example =
    add_symbol-Holds world 102 none small [] (omega arith) empty-IsValid (λ none_yet. refl)
      (omega arith) (inr refl)

-- the rule of symbol 4 with the symbols 3 and 5
abbrev a_rule : RuleOption
a_rule = record rule_option_default { lhs = 4; rhs = 3 ∷ 5 ∷ [] }

rule_numbered :
    (t : Trace)
    → let id = (new_rule world a_rule small t).0 in
      (is_minus_two id ≡ true) ⊎ (id ≡ pos small.rules.used)
unfolding new_rule
rule_numbered t = inr refl

add_rule-Holds_example :
    let (_, w', t') = add_rule world (some a_rule) small [] in
    Holds world 102 (held 102 small.rules) (held 102 w'.rules) [] t'
add_rule-Holds_example =
    add_rule-Holds world 102 a_rule small [] (omega arith) empty-IsValid (λ none_yet. refl)
      (omega arith) rule_numbered
