-- ===== src/Wrapper/Valuation/Ends.antt =====
-- That a valuation returns: when libmarpa has no more trees and no more steps, and memory does not run
-- out. And that it does not when a step is an error.
use marpa_wrapper.Prelude.{
  ℕ, zero, suc, ◌+◌, ◌≤◌, ◌<◌, ◌≡◌, ◌≢◌, ◌⊎◌, refl, inl, inr, true, Option, none, some, arith, ◌∷◌,
}
use marpa_wrapper.Prelude.Int.{pos, is_negative}
use marpa_wrapper.World.{
  Ptr, MarpaCall, marpa, t_next, v_new, v_step, v_valued_force, Trace, Env, IsBounded, IsGenerous,
}
use marpa_wrapper.World.Tally.{tally}
use marpa_wrapper.Stack.{Stack, new}
use marpa_wrapper.Stack.Valid.{IsValid}
use marpa_wrapper.Stack.Tally.{tally-new, tally-destroy}
use marpa_wrapper.Wrapper.{Wrapper}
use marpa_wrapper.Wrapper.Valuation.{ValueOption, ElementOption, stack_env, stack_option}
use marpa_wrapper.Wrapper.Valuation.Steps.{
  Stepped, goes_on, inactive, step_failed, stuck, Evaluated, evaluating, value_failed,
  value_stopped, value_done, value_step, evaluate,
}
use marpa_wrapper.Wrapper.Valuation.Trees.{Held, after_value, value_on, one_tree}
use marpa_wrapper.Wrapper.Valuation.Roles.{Role, advances, steps, by_role}
use marpa_wrapper.Wrapper.Valuation.Tallies.{tally-value_step, tally-hand_result}
use marpa_wrapper.Wrapper.Valuation.Valid.{value_step-IsValid}
use marpa_wrapper.Wrapper.Valuation.Answers.{IsPlaced, value_step_returns, hand_result_returns}

abbrev pub counts_trees : Trace → MarpaCall → Role → ℕ
counts_trees t c advances = 1
counts_trees t c _ = 0

abbrev pub counts_steps : Trace → MarpaCall → Role → ℕ
counts_steps t c steps = 1
counts_steps t c _ = 0

-- how often libmarpa was asked for a tree, and for a step
abbrev pub trees_asked : Trace → ℕ
trees_asked = tally (by_role counts_trees)

abbrev pub steps_asked : Trace → ℕ
steps_asked = tally (by_role counts_steps)

-- Once it was asked for `n` trees libmarpa has no more, and once it was asked for `m` steps every
-- value is inactive.
pub record RunsOut (env : Env) (n m : ℕ) : Type 0 where
  pub no_tree :
      (t : Trace) (p : Ptr)
      → n ≤ trees_asked t
      → is_negative (env.value t (marpa (t_next p))) ≡ true
  pub no_step : (t : Trace) (p : Ptr) → m ≤ steps_asked t → env.value t (marpa (v_step p)) ≡ pos 5

Stepped-cases :
    (r : Stepped)
    → (r ≡ goes_on) ⊎ (r ≡ inactive) ⊎ ((a : Ptr) × (b : Ptr) × (r ≡ step_failed a b)) ⊎ (r ≡ stuck)
Stepped-cases goes_on = inl refl
Stepped-cases inactive = inr (inl refl)
Stepped-cases (step_failed a b) = inr (inr (inl (a, b, refl)))
Stepped-cases stuck = inr (inr (inr refl))

module _ (env : Env) (bounded : IsBounded env) (generous : IsGenerous env) (n m : ℕ)
    (runs_out : RunsOut env n m) (placed : IsPlaced env) (w : Wrapper) (o : ValueOption)
    (e : ElementOption) where
  -- The steps of a value end in one round more than libmarpa can still be asked.
  pub evaluate_returns :
      (rounds : ℕ) (p : Ptr) (s : Stack) (t : Trace)
      → IsValid s
      → 0 < rounds
      → m < rounds + steps_asked t
      → (evaluate env w o e rounds p s t).0 ≢ evaluating
  unfolding evaluate
  evaluate_returns zero p s t v some_rounds enough = absurd (omega arith)
  evaluate_returns (suc rounds) p s t v some_rounds enough = elim (Stepped-cases r.0) [
    | inl e0 ↦ ground (
      arith,
      runs_out.no_step t p,
      returns,
      tally-value_step env w o e counts_steps p s t,
      evaluate_returns rounds p r.1 r.2 valid,
    )
    | inr (inl e0) ↦ ground (arith, hand_result_returns env bounded generous w o e r.1 r.2 valid)
    | inr (inr (inl (a, b, e0))) ↦ ground arith
    | inr (inr (inr e0)) ↦ absurd (returns.0 e0)
  ]
    where
      r : Stepped × Stack × Trace
      r = value_step env w o e p s t

      valid : IsValid r.1
      valid = value_step-IsValid env bounded w o e p s t v

      returns : (r.0 ≢ stuck) × (env.value t (marpa (v_step p)) ≡ pos 5 → r.0 ≡ inactive)
      returns = value_step_returns env bounded generous w o e p s t v placed

-- What a part of a valuation asks of libmarpa besides trees: none of them, and steps.
abbrev pub Proceeds : (t t' : Trace) → Type 0
Proceeds t t' = (trees_asked t' ≡ trees_asked t) × (steps_asked t ≤ steps_asked t')

module _ (env : Env) (o : ValueOption) (e : ElementOption) where
  evaluate-Proceeds :
      (rounds : ℕ) (p : Ptr) (w : Wrapper) (s : Stack) (t : Trace)
      → Proceeds t (evaluate env w o e rounds p s t).2
  unfolding evaluate
  evaluate-Proceeds zero p w s t = (refl, omega arith)
  evaluate-Proceeds (suc rounds) p w s t = ground (
    arith,
    tally-value_step env w o e counts_trees p s t,
    tally-value_step env w o e counts_steps p s t,
    tally-hand_result env w o e counts_trees stepped.1 stepped.2,
    tally-hand_result env w o e counts_steps stepped.1 stepped.2,
    evaluate-Proceeds rounds p w stepped.1 stepped.2,
  )
    where
      stepped : Stepped × Stack × Trace
      stepped = value_step env w o e p s t

  after_value-Proceeds :
      (h : Held) (v header : Ptr) (outcome : Evaluated) (s : Stack) (t : Trace)
      → Proceeds t (after_value env o e h v header outcome s t).2
  unfolding after_value
  after_value-Proceeds h v header evaluating s t = (refl, omega arith)
  after_value-Proceeds h v header (value_failed a b) s t = (refl, omega arith)
  after_value-Proceeds h v header value_stopped s t = (refl, omega arith)
  after_value-Proceeds h v header value_done s t = ground (
    arith,
    tally-destroy (stack_env env) (by_role counts_trees) header s t,
    tally-destroy (stack_env env) (by_role counts_steps) header s t,
  )

  value_on-Proceeds :
      (rounds : ℕ) (h : Held) (v : Ptr) (made : Option (Ptr × Stack)) (w : Wrapper) (t : Trace)
      → Proceeds t (value_on env o e rounds h v made w t).2
  unfolding value_on
  value_on-Proceeds rounds h v none w t = (refl, omega arith)
  value_on-Proceeds rounds h v (some (header, s)) w t =
      ground (arith, evaluate-Proceeds rounds v w s t, after_value-Proceeds h v header r.0 r.1 r.2)
    where
      r : Evaluated × Stack × Trace
      r = evaluate env w o e rounds v s t

  pub one_tree-Proceeds :
      (rounds : ℕ) (h : Held) (w : Wrapper) (t : Trace)
      → Proceeds t (one_tree env o e rounds h w t).2
  unfolding one_tree
  one_tree-Proceeds rounds h w t = ground (
    arith,
    tally-new (stack_env env) (by_role counts_trees) e.element_size (some (stack_option e)) w asked,
    tally-new (stack_env env) (by_role counts_steps) e.element_size (some (stack_option e)) w asked,
    value_on-Proceeds rounds h v made.0 made.1 made.2,
  )
    where
      v : Ptr
      v = env.address t (marpa (v_new h.tree))

      asked : Trace
      asked = marpa (v_valued_force v) ∷ marpa (v_new h.tree) ∷ t

      made : Option (Ptr × Stack) × Wrapper × Trace
      made = new (stack_env env) e.element_size (some (stack_option e)) w asked
