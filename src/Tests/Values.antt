-- ===== src/Tests/Values.antt =====
-- The theorems on the valuation, at a parse of one tree: a token, then a rule.
use marpa_wrapper.Prelude.{
  ℕ, zero, suc, ◌+◌, ◌≤◌, ◌≡◌, ◌≢◌, ◌⊎◌, inl, refl, true, none, some, [], ◌∷◌, arith, ltb, drop,
  length, if◌then◌else◌,
}
use marpa_wrapper.Prelude.Int.{ℤ, pos, negsuc, ◌+ℤ◌, ◌-ℤ◌, is_negative, ptrdiff_max}
use marpa_wrapper.World.{
  Ptr, null, Trace, Call, malloc, realloc, free, free_callback, marpa, b_new, o_new, t_new, t_next,
  v_new, v_step, v_arg_0, v_arg_n, v_result, v_rule, o_high_rank_only_set, copy_callback, v_token,
  v_token_value, v_symbol, value_symbol_callback, value_nulling_callback, value_rule_callback, Env,
  IsBounded, IsGenerous,
}
use marpa_wrapper.Stack.{get, get_grown, set_at, set_grown, set_element, release, copy}
use marpa_wrapper.Stack.Access.{Sets}
use marpa_wrapper.Wrapper.{Wrapper}
use marpa_wrapper.Wrapper.Valuation.{ValueOption, value_option_default, ElementOption, stack_env}
use marpa_wrapper.Wrapper.Valuation.Steps.{
  goes_on, evaluating, read_inputs, give_back, store_result, apply_rule, rule_step, evaluate,
  apply_symbol, token_step, value_step,
}
use marpa_wrapper.Wrapper.Valuation.Trees.{valuate}
use marpa_wrapper.Wrapper.Valuation.Roles.{tree}
use marpa_wrapper.Wrapper.Valuation.Balance.{given, dropped}
use marpa_wrapper.Wrapper.Valuation.Returns.{given-valuate}
use marpa_wrapper.Wrapper.Valuation.Ends.{RunsOut, trees_asked, steps_asked}
use marpa_wrapper.Wrapper.Valuation.Answers.{IsPlaced}
use marpa_wrapper.Wrapper.Valuation.Termination.{valuate_returns}
use marpa_wrapper.Wrapper.Valuation.Inputs.{rule_step-Sets}
use marpa_wrapper.Wrapper.Valuation.Leaves.{Answers, value_step-leaves}
use marpa_wrapper.Wrapper.Valuation.Endless.{evaluate-endless, repeated}
use marpa_wrapper.Tests.{small, outputs}
use marpa_wrapper.Tests.Stacks.{two_items, two_items-IsValid}

-- a token, then a rule, then no more
abbrev step_type : ℕ → ℤ
step_type zero = pos 2
step_type (suc zero) = pos 1
step_type (suc (suc _)) = pos 5

-- one tree
abbrev tree_number : ℕ → ℤ
tree_number zero = pos 1
tree_number (suc _) = negsuc 0

abbrev addresses : Trace → Call → Ptr
addresses t (malloc n) = if ltb ptrdiff_max n then null else 100 + length t
addresses t (realloc p n) = if ltb ptrdiff_max n then null else 100 + length t
addresses t (marpa (b_new r i)) = 11
addresses t (marpa (o_new b)) = 12
addresses t (marpa (t_new o)) = 13
addresses t (marpa (v_new tr)) = 14
addresses t (value_rule_callback u r ps) = 70
addresses t (value_symbol_callback u p v) = 71
addresses t c = null

abbrev values : Trace → Call → ℤ
values t (marpa (t_next p)) = tree_number (trees_asked t)
values t (marpa (v_step p)) = step_type (steps_asked t)
values t (marpa (v_arg_n p)) = pos 1
values t (marpa (o_high_rank_only_set p i)) = pos 1
values t (free_callback u p) = pos 1
values t (copy_callback u p q) = pos 1
values t (value_symbol_callback u p v) = pos 1
values t (value_rule_callback u r ps) = pos 1
values t c = pos 0

abbrev world : Env
world = record { address = addresses; value = values; output = outputs }

world-IsBounded : IsBounded world
world-IsBounded = record {
  malloc_bounded = λ t n large. ground arith;
  realloc_bounded = λ t p n large. ground arith;
}

world-IsGenerous : IsGenerous world
world-IsGenerous = record { realloc_answers = λ t p n few. ground arith }

no_more_trees : (n : ℕ) → 1 ≤ n → is_negative (tree_number n) ≡ true
no_more_trees zero some_asked = absurd (omega arith)
no_more_trees (suc n) some_asked = refl

no_more_steps : (n : ℕ) → 2 ≤ n → step_type n ≡ pos 5
no_more_steps zero some_asked = absurd (omega arith)
no_more_steps (suc zero) some_asked = absurd (omega arith)
no_more_steps (suc (suc n)) some_asked = refl

world-RunsOut : RunsOut world 1 2
world-RunsOut = record {
  no_tree = λ t p asked. no_more_trees (trees_asked t) asked;
  no_step = λ t p asked. no_more_steps (steps_asked t) asked;
}

world-IsPlaced : IsPlaced world
world-IsPlaced = record {
  rule = λ t p kind. ((refl, omega arith), (refl, omega arith), omega arith, (refl, omega arith));
  token = λ t p kind. (refl, omega arith);
  nulled = λ t p kind. (refl, omega arith);
}

abbrev with_rules : ValueOption
with_rules = record value_option_default { rule_callback = some 5 }

abbrev pointers : ElementOption
pointers = record { element_size = 8; free_user = 1; copy_user = 2 }

abbrev started : Wrapper
started = record small { recognizer = 9 }

returned : (valuate world (some with_rules) (some pointers) null 2 3 started []).0 ≢ none
returned =
    valuate_returns world world-IsBounded world-IsGenerous 1 2 world-RunsOut world-IsPlaced
      (some with_rules) pointers null 2 3 started [] (omega arith) (omega arith) (omega arith)
      (omega arith) (omega arith) (omega arith)

valuate_returns_example : (valuate world none (some pointers) null 2 3 started []).0 ≢ none
valuate_returns_example =
    valuate_returns world world-IsBounded world-IsGenerous 1 2 world-RunsOut world-IsPlaced none
      pointers null 2 3 started [] (omega arith) (omega arith) (omega arith) (omega arith)
      (omega arith) (omega arith)

given-valuate_example :
    let t' = (valuate world (some with_rules) (some pointers) null 2 3 started []).2 in
    dropped tree 13 t' + given world tree 13 [] ≡ given world tree 13 t' + dropped tree 13 []
given-valuate_example =
    given-valuate world tree 13 (omega arith) (some with_rules) (some pointers) null 2 3 started []
      returned

rule_applied : (rule_step world started with_rules pointers 14 two_items []).0 ≡ goes_on
unfolding rule_step read_inputs apply_rule store_result give_back get get_grown set_at set_grown
    set_element release copy ◌+ℤ◌ ◌-ℤ◌
rule_applied = refl

rule_step-Sets_example :
    let t4 =
      malloc 16
      ∷ marpa (v_result 14)
      ∷ marpa (v_arg_n 14)
      ∷ marpa (v_arg_0 14)
      ∷ marpa (v_rule 14)
      ∷ [] in
    let c = value_rule_callback 5 null (61 ∷ 62 ∷ []) in
    let answer = world.address t4 c in
    let (stepped, s', t') = rule_step world started with_rules pointers 14 two_items [] in
    ((stepped, s', t')
      ≡ store_result world started with_rules pointers
          (pos 0)
          answer
          two_items
          (free (world.address (drop 1 t4) (malloc 16)) ∷ c ∷ t4))
    × Sets (stack_env world) 0 answer two_items s' t'
rule_step-Sets_example =
    rule_step-Sets world world-IsBounded started with_rules pointers 5 0 1 0 14 two_items []
      two_items-IsValid refl (omega arith) (omega arith) (omega arith) (omega arith) refl refl refl
      rule_applied

-- callbacks for rules, tokens and nulled symbols
abbrev with_symbols : ValueOption
with_symbols = record with_rules { symbol_callback = some 8; nulling_callback = some 9 }

token_applied : (value_step world started with_symbols pointers 14 two_items []).0 ≡ goes_on
unfolding value_step token_step apply_symbol store_result give_back set_at set_grown set_element
    release copy ◌+ℤ◌
token_applied = refl

value_step-leaves_example :
    let t0 = marpa (v_step 14) ∷ [] in
    let t2 = marpa (v_result 14) ∷ marpa (v_token_value 14) ∷ marpa (v_token 14) ∷ t0 in
    let t3 = marpa (v_result 14) ∷ marpa (v_symbol 14) ∷ t0 in
    let after = value_step world started with_symbols pointers 14 two_items [] in
    ((pos 2 ≡ pos 2)
      × Answers world started with_symbols pointers 0
          (value_symbol_callback 8 null (pos 0))
          two_items
          t2
          after)
    ⊎ ((pos 2 ≡ pos 3)
        × Answers world started with_symbols pointers 0
            (value_nulling_callback 9 null)
            two_items
            t3
            after)
value_step-leaves_example =
    value_step-leaves world world-IsBounded started with_symbols pointers 8 9 0 14 two_items []
      two_items-IsValid refl refl (omega arith) (inl (refl, refl)) token_applied

abbrev failing_values : Trace → Call → ℤ
failing_values t (marpa (v_step p)) = negsuc 1
failing_values t c = pos 0

abbrev failing_world : Env
failing_world = record { address = addresses; value = failing_values; output = outputs }

evaluate-endless_example :
    evaluate failing_world started with_rules pointers 1000 14 two_items []
    ≡ (evaluating, two_items, repeated 1000 (marpa (v_step 14)) [])
evaluate-endless_example =
    evaluate-endless failing_world started with_rules pointers 14 (λ t. refl) 1000 two_items []
