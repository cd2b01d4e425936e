-- ===== src/Wrapper/Valuation/Balance.antt =====
-- What libmarpa gives to a valuation is given back.
use marpa_wrapper.Prelude.{
  ℕ, zero, suc, ◌+◌, ◌≡◌, ◌≢◌, refl, inl, inr, ◌&&◌, arith, ◌==◌, if◌then◌else◌, Option-cases,
}
use marpa_wrapper.World.{Ptr, null, MarpaCall, free, marpa, Trace, Env}
use marpa_wrapper.World.Tally.{tally}
use marpa_wrapper.Stack.{Stack}
use marpa_wrapper.Stack.Tally.{tally-destroy}
use marpa_wrapper.Wrapper.{Wrapper}
use marpa_wrapper.Wrapper.Valuation.{ValueOption, ElementOption, stack_env}
use marpa_wrapper.Wrapper.Valuation.Steps.{Stepped, value_step, evaluate}
use marpa_wrapper.Wrapper.Valuation.Trees.{
  Held, unless_zero, destroy_stack, release_blocks, release_held,
}
use marpa_wrapper.Wrapper.Valuation.Roles.{
  Kind, bocage, order, tree, value, same, Role, creates, drops, by_role,
}
use marpa_wrapper.Wrapper.Valuation.Tallies.{tally-value_step, tally-hand_result}

-- one for each object of a kind that libmarpa made at the address `p`
abbrev pub given_by_role : Env → Kind → Ptr → Trace → MarpaCall → Role → ℕ
given_by_role env k p t c (creates k') = if same k k' && env.address t (marpa c) == p then 1 else 0
given_by_role env k p t c _ = 0

-- one for each release of it
abbrev pub dropped_by_role : Kind → Ptr → Trace → MarpaCall → Role → ℕ
dropped_by_role k p t c (drops k' q) = if same k k' && q == p then 1 else 0
dropped_by_role k p t c _ = 0

-- how often libmarpa made an object of a kind at the address `p`, and how often it got it back
abbrev pub given : Env → Kind → Ptr → Trace → ℕ
given env k p = tally (by_role (given_by_role env k p))

abbrev pub dropped : Kind → Ptr → Trace → ℕ
dropped k p = tally (by_role (dropped_by_role k p))

-- whether an object is among those that are held
abbrev pub owned : Kind → Ptr → Held → ℕ
owned bocage p h = if h.bocage == p then 1 else 0
owned order p h = if h.order == p then 1 else 0
owned tree p h = if h.tree == p then 1 else 0
owned value p h = if h.value == p then 1 else 0

module _ (env : Env) (k : Kind) (p : Ptr) where
  module _ (w : Wrapper) (o : ValueOption) (e : ElementOption) where
    pub given-evaluate :
        (rounds : ℕ) (v : Ptr) (s : Stack) (t : Trace)
        → (given env k p (evaluate env w o e rounds v s t).2 ≡ given env k p t)
          × (dropped k p (evaluate env w o e rounds v s t).2 ≡ dropped k p t)
    unfolding evaluate
    given-evaluate zero v s t = (refl, refl)
    given-evaluate (suc rounds) v s t = ground (
      arith,
      tally-value_step env w o e (given_by_role env k p) v s t,
      tally-value_step env w o e (dropped_by_role k p) v s t,
      tally-hand_result env w o e (given_by_role env k p) stepped.1 stepped.2,
      tally-hand_result env w o e (dropped_by_role k p) stepped.1 stepped.2,
      given-evaluate rounds v stepped.1 stepped.2,
    )
      where
        stepped : Stepped × Stack × Trace
        stepped = value_step env w o e v s t

  given-release_blocks :
      (h : Held) (t : Trace)
      → (given env k p (release_blocks env h t) ≡ given env k p t)
        × (dropped k p (release_blocks env h t) ≡ dropped k p t)
  unfolding release_blocks destroy_stack unless_zero
  given-release_blocks h t = elim (Option-cases h.stack) [
    | inl none_made ↦ ground arith
    | inr ((header, s), made) ↦ ground (
      arith,
      tally-destroy (stack_env env) (by_role (given_by_role env k p)) header s before,
      tally-destroy (stack_env env) (by_role (dropped_by_role k p)) header s before,
    )
  ]
    where
      before : Trace
      before = unless_zero h.inputs (free h.inputs) (unless_zero h.output (free h.output) t)

-- The end label gives back each object that is held, once.
pub given-release_held :
    (env : Env) (k : Kind) (p : Ptr) (h : Held) (t : Trace)
    → p ≢ null
    → (given env k p (release_held env h t) ≡ given env k p t)
      × (dropped k p (release_held env h t) ≡ owned k p h + dropped k p t)
unfolding release_held unless_zero
given-release_held env bocage p h t ne = ground (arith, given-release_blocks env bocage p h t)
given-release_held env order p h t ne = ground (arith, given-release_blocks env order p h t)
given-release_held env tree p h t ne = ground (arith, given-release_blocks env tree p h t)
given-release_held env value p h t ne = ground (arith, given-release_blocks env value p h t)
