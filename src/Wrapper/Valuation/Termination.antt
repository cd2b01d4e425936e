-- ===== src/Wrapper/Valuation/Termination.antt =====
-- That `marpaWrapper_vb` of src/marpaWrapper.c returns, with the loop over the trees around the loop
-- over the steps.
use marpa_wrapper.Prelude.{
  ℕ, zero, suc, ◌+◌, ◌*◌, ◌≤◌, ◌<◌, ◌≡◌, ◌≢◌, refl, inl, inr, Bool, Option, none, some, arith, ◌∷◌,
  ◌==◌, Bool-cases, Option-cases,
}
use marpa_wrapper.Prelude.Int.{ℤ, is_negative, sizeof_pointer, ptrdiff_max}
use marpa_wrapper.World.{
  Ptr, null, marpa, t_next, v_new, v_valued_force, r_latest_earley_set, b_new, o_new, t_new, Trace,
  Env, IsBounded, IsGenerous,
}
use marpa_wrapper.Stack.{Stack, new, stack_init_size}
use marpa_wrapper.Stack.Creation.{new-IsValid_iff}
use marpa_wrapper.Stack.Tally.{tally-new}
use marpa_wrapper.Wrapper.{Wrapper}
use marpa_wrapper.Wrapper.Valuation.{
  ValueOption, chosen_value_option, ElementOption, stack_env, stack_option,
}
use marpa_wrapper.Wrapper.Valuation.Steps.{
  Evaluated, evaluating, value_failed, value_stopped, value_done,
}
use marpa_wrapper.Wrapper.Valuation.Trees.{
  Held, holding, Grown, growing, after_value, value_on, one_tree, all_trees, check_order, parse,
  valuate,
}
use marpa_wrapper.Wrapper.Valuation.Roles.{by_role}
use marpa_wrapper.Wrapper.Valuation.Books.{Grown-cases}
use marpa_wrapper.Wrapper.Valuation.Valid.{stack_env-IsBounded}
use marpa_wrapper.Wrapper.Valuation.Answers.{IsPlaced}
use marpa_wrapper.Wrapper.Valuation.Ends.{
  counts_steps, trees_asked, steps_asked, RunsOut, evaluate_returns, one_tree-Proceeds,
}

module _ (env : Env) (o : ValueOption) (e : ElementOption) where
  after_value_returns :
      (h : Held) (v header : Ptr) (outcome : Evaluated) (s : Stack) (t : Trace)
      → outcome ≢ evaluating
      → (after_value env o e h v header outcome s t).0 ≢ growing
  unfolding after_value
  after_value_returns h v header evaluating s t done = absurd (done refl)
  after_value_returns h v header (value_failed a b) s t done = ground arith
  after_value_returns h v header value_stopped s t done = ground arith
  after_value_returns h v header value_done s t done = ground arith

  check_order-steps :
      (q : Ptr) (w : Wrapper) (t : Trace)
      → (trees_asked (check_order env o e q w t).2 ≡ trees_asked t)
        × (steps_asked (check_order env o e q w t).2 ≡ steps_asked t)
  unfolding check_order
  check_order-steps q w t = ground arith

module _ (env : Env) (bounded : IsBounded env) (generous : IsGenerous env) (n m : ℕ)
    (runs_out : RunsOut env n m) (placed : IsPlaced env) (o : ValueOption) (e : ElementOption)
    (pointers : sizeof_pointer ≤ e.element_size)
    (fits : e.element_size * stack_init_size ≤ ptrdiff_max) where
  value_on_returns :
      (rounds : ℕ) (h : Held) (v : Ptr) (w : Wrapper) (t : Trace)
      → 0 < rounds
      → m < rounds + steps_asked t
      → let made = new (stack_env env) e.element_size (some (stack_option e)) w t in
        (value_on env o e rounds h v made.0 made.1 made.2).0 ≢ growing
  unfolding value_on
  value_on_returns rounds h v w t some_rounds enough = elim (Option-cases made.0) [
    | inl refused ↦ rw refused (ground arith)
    | inr ((header, s), fresh) ↦ rw fresh (
        after_value_returns env o e h v header _ _ _ (
          evaluate_returns env bounded generous n m runs_out placed made.1 o e rounds v s made.2
            ((new-IsValid_iff (stack_env env) (stack_env-IsBounded env bounded) e.element_size
                (some (stack_option e)) w t header s fits fresh).2.1
              pointers)
            some_rounds
            (omega (
              arith,
              enough,
              tally-new (stack_env env) (by_role counts_steps) e.element_size
                  (some (stack_option e)) w t,
            ))))
  ]
    where
      made : Option (Ptr × Stack) × Wrapper × Trace
      made = new (stack_env env) e.element_size (some (stack_option e)) w t

  one_tree_returns :
      (rounds : ℕ) (h : Held) (w : Wrapper) (t : Trace)
      → 0 < rounds
      → m < rounds + steps_asked t
      → (one_tree env o e rounds h w t).0 ≢ growing
  unfolding one_tree
  one_tree_returns rounds h w t some_rounds enough = elim (Bool-cases (v == null)) [
    | inl refused ↦ rw refused (ground arith)
    | inr got ↦ elim (Bool-cases (is_negative (env.value t1 (marpa (v_valued_force v))))) [
      | inl refused ↦ rw (got, refused) (ground arith)
      | inr forced ↦
          rw (got, forced)
            (value_on_returns rounds h v w (marpa (v_valued_force v) ∷ t1) some_rounds
              (omega (arith, enough)))
    ]
  ]
    where
      v : Ptr
      v = env.address t (marpa (v_new h.tree))

      t1 : Trace
      t1 = marpa (v_new h.tree) ∷ t

  all_trees_returns :
      (trees rounds : ℕ) (h : Held) (w : Wrapper) (t : Trace)
      → n < trees + trees_asked t
      → 0 < trees
      → 0 < rounds
      → m < rounds + steps_asked t
      → (all_trees env o e trees rounds h w t).0 ≢ none
  unfolding all_trees
  all_trees_returns zero rounds h w t _ some_trees _ _ = absurd (omega arith)
  all_trees_returns (suc trees) rounds h w t few some_trees some_rounds enough =
      elim (Grown-cases first.0) [
        | inl e0 ↦ absurd (one_tree_returns rounds h w asked some_rounds (omega (arith, enough)) e0)
        | inr (inl e0) ↦ ground (
          arith,
          runs_out.no_tree t h.tree,
          one_tree-Proceeds env o e rounds h w asked,
          all_trees_returns trees rounds (record h { output = null }) first.1 first.2,
        )
        | inr (inr (ok, held, e0)) ↦ ground arith
      ]
    where
      asked : Trace
      asked = marpa (t_next h.tree) ∷ t

      first : Grown × Wrapper × Trace
      first = one_tree env o e rounds h w asked

  parse_returns :
      (output : Ptr) (trees rounds : ℕ) (w : Wrapper) (t : Trace)
      → n < trees + trees_asked t
      → 0 < trees
      → 0 < rounds
      → m < rounds + steps_asked t
      → (parse env o e output trees rounds w t).0 ≢ none
  unfolding parse
  parse_returns output trees rounds w t few some_trees some_rounds enough = ground (
    arith,
    check_order-steps env o e q w ordered,
    all_trees_returns trees rounds (holding output r q b) checked.1 (marpa (t_new q) ∷ checked.2),
  )
    where
      latest : ℤ
      latest = env.value t (marpa (r_latest_earley_set w.recognizer))

      begun : Trace
      begun = marpa (r_latest_earley_set w.recognizer) ∷ t

      b : Ptr
      b = env.address begun (marpa (b_new w.recognizer latest))

      q : Ptr
      q = env.address (marpa (b_new w.recognizer latest) ∷ begun) (marpa (o_new b))

      ordered : Trace
      ordered = marpa (o_new b) ∷ marpa (b_new w.recognizer latest) ∷ begun

      checked : Bool × Wrapper × Trace
      checked = check_order env o e q w ordered

      r : Ptr
      r = env.address checked.2 (marpa (t_new q))

-- `marpaWrapper_vb` returns, with a result or an error, when the elements of the stack are at least as
-- large as a pointer and four of them fit into PTRDIFF_MAX bytes, memory gives what it is asked for up
-- to that bound, libmarpa names for each step slots from 0 on and below 2^31, a rule's first input not
-- after its last, and has no more trees once it was asked for `n` and no more steps once it was asked
-- for `m`, and the loops may go one round further than that.
pub valuate_returns :
    (env : Env) (bounded : IsBounded env) (generous : IsGenerous env) (n m : ℕ)
    (runs_out : RunsOut env n m) (placed : IsPlaced env) (option : Option ValueOption)
    (e : ElementOption) (output : Ptr) (trees rounds : ℕ) (w : Wrapper) (t : Trace)
    → sizeof_pointer ≤ e.element_size
    → e.element_size * stack_init_size ≤ ptrdiff_max
    → n < trees + trees_asked t
    → 0 < trees
    → m < rounds + steps_asked t
    → 0 < rounds
    → (valuate env option (some e) output trees rounds w t).0 ≢ none
unfolding valuate
valuate_returns env bounded generous n m runs_out placed option e output trees rounds w t pointers
      fits few some_trees enough some_rounds =
    ground (
      arith,
      parse_returns env bounded generous n m runs_out placed (chosen_value_option option) e pointers
          fits output trees rounds w t few some_trees some_rounds enough,
    )
