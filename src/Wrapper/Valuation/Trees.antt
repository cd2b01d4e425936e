-- ===== src/Wrapper/Valuation/Trees.antt =====
-- The trees of a parse: the outer loop of `marpaWrapper_vb` of src/marpaWrapper.c, what comes before it,
-- and its end label.
use marpa_wrapper.Prelude.{
  ℕ, zero, suc, Bool, true, false, not, Option, none, some, ◌∷◌, ◌==◌, if◌then◌else◌,
}
use marpa_wrapper.Prelude.Int.{ℤ, pos, eqb_ℤ, ltb_ℤ, is_negative, is_minus_two}
use marpa_wrapper.World.{
  Ptr, null, free, marpa, MarpaCall, r_latest_earley_set, b_new, b_unref, o_new,
  o_high_rank_only_set, o_rank, o_ambiguity_metric, o_is_null, o_unref, t_new, t_next, t_unref,
  v_new, v_valued_force, v_unref, Call, Trace, Env, M, pure, ◌>>=◌, ◌>>◌, get_state, emit, ask_int,
  ask_pointer,
}
use marpa_wrapper.Stack.{Stack, new, destroy}
use marpa_wrapper.Wrapper.{Wrapper, log_error, log_g_error}
use marpa_wrapper.Wrapper.Recognizer.{not_started}
use marpa_wrapper.Wrapper.Valuation.{
  ValueOption, chosen_value_option, ElementOption, stack_option, stack_env,
}
use marpa_wrapper.Wrapper.Valuation.Steps.{
  Evaluated, evaluate, evaluating, value_failed, value_stopped, value_done,
}

-- The local variables that `marpaWrapper_v_end_label` looks at; NULL or `none` is what is not held.
-- `output` is set by the first step only: before it the variable has no defined content.
pub record Held : Type 0 where
  pub output : Ptr
  pub inputs : Ptr
  pub stack : Option (Ptr × Stack)
  pub value : Ptr
  pub tree : Ptr
  pub order : Ptr
  pub bocage : Ptr

abbrev pub holding : (output tree order bocage : Ptr) → Held
holding output tree order bocage = record {
  output = output;
  inputs = null;
  stack = none;
  value = null;
  tree = tree;
  order = order;
  bocage = bocage;
}

-- What the valuation of one tree comes to.
pub data Grown : Type 0 where
  growing : Grown
  grown : Grown
  ended : Bool → Held → Grown

-- `if (p != NULL) { … }` around one call
unfoldable pub unless_zero : Ptr → Call → Trace → Trace
unless_zero p c t = if p == null then t else c ∷ t

module _ (env : Env) where
  unfoldable pub destroy_stack : Option (Ptr × Stack) → Trace → Trace
  destroy_stack none t = t
  destroy_stack (some (header, s)) t = (destroy (stack_env env) header s t).2

  -- The blocks and the stack of `marpaWrapper_v_end_label`.
  unfoldable pub release_blocks : Held → Trace → Trace
  release_blocks h t =
      destroy_stack h.stack
        (unless_zero h.inputs (free h.inputs) (unless_zero h.output (free h.output) t))

  -- `marpaWrapper_v_end_label`
  unfoldable pub release_held : Held → Trace → Trace
  release_held h t = unless_zero h.bocage (marpa (b_unref h.bocage)) (
      unless_zero h.order (marpa (o_unref h.order)) (
        unless_zero h.tree (marpa (t_unref h.tree))
          (unless_zero h.value (marpa (v_unref h.value)) (release_blocks h t))))

  -- The label, and the return.
  abbrev pub end_label : {S : Type 0} → Bool → Held → M S (Option Bool)
  end_label ok h s t = (some ok, s, release_held h t)

module _ (env : Env) (o : ValueOption) (e : ElementOption) where
  -- What follows the loop over the steps of a value.
  unfoldable pub after_value : Held → Ptr → Ptr → Evaluated → M Stack Grown
  after_value h v header evaluating = pure growing
  after_value h v header (value_failed output inputs) = do
    s ← get_state
    pure (
        ended false
          (record h { output = output; inputs = inputs; stack = some (header, s); value = v }))
  after_value h v header value_stopped = do
    s ← get_state
    pure (ended true (record h { output = null; stack = some (header, s); value = v }))
  after_value h v header value_done =
      destroy (stack_env env) header >> (emit (marpa (v_unref v)) >> pure grown)

  -- What follows the creation of the stack.
  unfoldable pub value_on : ℕ → Held → Ptr → Option (Ptr × Stack) → M Wrapper Grown
  value_on steps h v none w t = (ended false (record h { value = v }), w, t)
  value_on steps h v (some (header, s)) w t =
      let r = (evaluate env w o e steps v >>= after_value h v header) s t in (r.0, w, r.2)

  -- The body of the loop over the trees, with at most so many steps for its value.
  unfoldable pub one_tree : ℕ → Held → M Wrapper Grown
  one_tree steps h = do
    w ← get_state
    v ← ask_pointer env (marpa (v_new h.tree))
    if v == null then log_g_error env w.grammar >> pure (ended false h) else (do
      forced ← ask_int env (marpa (v_valued_force v))
      if is_negative forced
          then log_g_error env w.grammar >> pure (ended false (record h { value = v }))
          else (do
            made ← new (stack_env env) e.element_size (some (stack_option e))
            value_on steps h v made))

  -- `while (1)` over the trees, at most so many; `none` is a loop that is still running.
  unfoldable pub all_trees : (trees steps : ℕ) → Held → M Wrapper (Option (Bool × Held))
  all_trees zero steps h = pure none
  all_trees (suc trees) steps h = do
    next ← ask_int env (marpa (t_next h.tree))
    if is_negative next then pure (some (true, h)) else (do
      done ← one_tree steps h
      elim done [
        | growing ↦ pure none
        | grown ↦ all_trees trees steps (record h { output = null })
        | ended ok held ↦ pure (some (ok, held))
      ])

  -- `if (wanted) { if (the answer is refused) { log; goto marpaWrapper_v_end_label; } }`
  abbrev pub check_answer :
      Bool → MarpaCall → (ℤ → Bool) → M Wrapper (Unit {0}) → M Wrapper Bool → M Wrapper Bool
  check_answer wanted c refused message rest =
      if wanted
      then (do
        answer ← ask_int env (marpa c)
        if refused answer then message >> pure false else rest)
      else rest

  abbrev pub high_rank_flag : ℤ
  high_rank_flag = if o.high_rank_only then pos 1 else pos 0

  -- The options of the order, and the checks for ambiguous and null parses.
  unfoldable pub check_order : Ptr → M Wrapper Bool
  check_order order = do
    w ← get_state
    let g_error = log_g_error env w.grammar
    check_answer true (o_high_rank_only_set order high_rank_flag)
        (λ i. not (eqb_ℤ i high_rank_flag)) g_error
        (check_answer o.order_by_rank (o_rank order) is_minus_two g_error (
          check_answer (not o.ambiguity) (o_ambiguity_metric order) (λ i. ltb_ℤ (pos 1) i)
            (log_error "Ambiguous parse detected after bocage")
            (check_answer (not o.null_parse) (o_is_null order) (λ i. ltb_ℤ (pos 0) i)
              (log_error "Null parse detected after bocage") (pure true))))

  -- From the creation of the bocage to the end of the loop over the trees: what is returned, and what
  -- is held then.
  unfoldable pub parse : (output : Ptr) → (trees steps : ℕ) → M Wrapper (Option (Bool × Held))
  parse output trees steps = do
    w ← get_state
    latest ← ask_int env (marpa (r_latest_earley_set w.recognizer))
    bocage ← ask_pointer env (marpa (b_new w.recognizer latest))
    if bocage == null
        then log_g_error env w.grammar >> pure (some (false, holding output null null null))
        else (do
          order ← ask_pointer env (marpa (o_new bocage))
          if order == null
              then log_g_error env w.grammar >> pure (some (false, holding output null null bocage))
              else (do
                fine ← check_order order
                if not fine then pure (some (false, holding output null order bocage)) else (do
                  tree ← ask_pointer env (marpa (t_new order))
                  if tree == null
                      then log_g_error env w.grammar
                        >> pure (some (false, holding output null order bocage))
                      else all_trees trees steps (holding output tree order bocage))))

-- `marpaWrapper_vb` on a wrapper, with at most so many trees, and steps for each; `none` is a loop
-- that is still running. `output` is what the variable `valueOutputp` holds before it is set.
unfoldable pub valuate :
    Env
    → Option ValueOption
    → Option ElementOption
    → (output : Ptr) → (trees steps : ℕ) → M Wrapper (Option Bool)
valuate env option none output trees steps = do
  log_error "marpaWrapperStackOptionp is NULL"
  end_label env false (holding output null null null)
valuate env option (some e) output trees steps = do
  w ← get_state
  if not_started w
      then (do
        log_error "Read phase not started"
        end_label env false (holding output null null null))
      else (do
        outcome ← parse env (chosen_value_option option) e output trees steps
        elim outcome [ none ↦ pure none | some (ok, held) ↦ end_label env ok held ])
