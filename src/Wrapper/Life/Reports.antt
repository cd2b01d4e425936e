-- ===== src/Wrapper/Life/Reports.antt =====
-- A progress report and a valuation of src/marpaWrapper.c leave the tables and the recognizer alone.
use marpa_wrapper.Prelude.{
  ℕ, zero, suc, ◌+◌, ◌-◌, ◌≡◌, ◌⊎◌, refl, inl, inr, Bool, Option, none, some, ◌∷◌, arith,
  Option-cases,
}
use marpa_wrapper.Prelude.Int.{ℤ, pos, pos_part}
use marpa_wrapper.World.{
  Ptr, null, marpa, r_latest_earley_set, r_earleme, r_progress_report_start, b_new, o_new, t_new,
  t_next, v_new, v_valued_force, Trace, Env,
}
use marpa_wrapper.Buf.{free_all}
use marpa_wrapper.Stack.{Stack, StackOption, new}
use marpa_wrapper.Wrapper.{Wrapper, in_progress}
use marpa_wrapper.Wrapper.Recognize.{PtrSorter}
use marpa_wrapper.Wrapper.ProgressReport.{
  Outcome, completed_loop, broken, returned, report_item, store_item, report_items, report_set,
  report_sets, sort_items, finish_report, report, progress, from_end,
}
use marpa_wrapper.Wrapper.Valuation.{
  ValueOption, chosen_value_option, ElementOption, stack_env, stack_option,
}
use marpa_wrapper.Wrapper.Valuation.Trees.{
  Held, holding, Grown, value_on, one_tree, all_trees, check_order, parse, valuate,
}
use marpa_wrapper.Wrapper.Valuation.Books.{Grown-cases}
use marpa_wrapper.Wrapper.Life.Frames.{Keeps, Keeps-refl, Keeps-trans}

Outcome-cases : (x : Outcome) → (x ≡ completed_loop) ⊎ (x ≡ broken) ⊎ (x ≡ returned)
Outcome-cases completed_loop = inl refl
Outcome-cases broken = inr (inl refl)
Outcome-cases returned = inr (inr refl)

module _ (env : Env) where
  report_item-Keeps :
      (earley_set : ℤ) (w : Wrapper) (t : Trace) → Keeps w (report_item env earley_set w t).1
  unfolding report_item store_item
  report_item-Keeps earley_set w t = ground arith

  report_items-Keeps :
      (n : ℕ) (earley_set : ℤ) (w : Wrapper) (t : Trace)
      → Keeps w (report_items env n earley_set w t).1
  unfolding report_items
  report_items-Keeps zero earley_set w t = Keeps-refl w w refl
  report_items-Keeps (suc n) earley_set w t = elim (Outcome-cases first.0) [
    | inl e ↦
        ground
          (arith, report_item-Keeps earley_set w t, report_items-Keeps n earley_set first.1 first.2)
    | inr (inl e) ↦ ground (arith, report_item-Keeps earley_set w t)
    | inr (inr e) ↦ ground (arith, report_item-Keeps earley_set w t)
  ]
    where
      first : Outcome × Wrapper × Trace
      first = report_item env earley_set w t

  report_set-Keeps :
      (earley_set : ℤ) (w : Wrapper) (t : Trace) → Keeps w (report_set env earley_set w t).1
  unfolding report_set
  report_set-Keeps earley_set w t = ground (
    arith,
    report_items-Keeps (pos_part items) earley_set w
        (marpa (r_progress_report_start w.recognizer earley_set) ∷ asked),
  )
    where
      asked : Trace
      asked = marpa (r_earleme w.recognizer earley_set) ∷ t

      items : ℤ
      items = env.value asked (marpa (r_progress_report_start w.recognizer earley_set))

  report_sets-Keeps :
      (n first : ℕ) (w : Wrapper) (t : Trace) → Keeps w (report_sets env n first w t).1
  unfolding report_sets
  report_sets-Keeps zero first w t = Keeps-refl w w refl
  report_sets-Keeps (suc n) first w t = elim (Outcome-cases done.0) [
    | inl e ↦
        ground
          (arith, report_set-Keeps (pos first) w t, report_sets-Keeps n (first + 1) done.1 done.2)
    | inr (inl e) ↦ ground (arith, report_set-Keeps (pos first) w t)
    | inr (inr e) ↦ ground (arith, report_set-Keeps (pos first) w t)
  ]
    where
      done : Outcome × Wrapper × Trace
      done = report_set env (pos first) w t

  finish_report-Keeps :
      (qsort : PtrSorter) (outcome : Outcome) (w : Wrapper) (t : Trace)
      → Keeps w (finish_report env qsort outcome w t).1
  unfolding finish_report sort_items
  finish_report-Keeps qsort completed_loop w t = ground arith
  finish_report-Keeps qsort broken w t = ground arith
  finish_report-Keeps qsort returned w t = Keeps-refl w w refl

  report-Keeps :
      (qsort : PtrSorter) (first last : ℕ) (w : Wrapper) (t : Trace)
      → Keeps w (report env qsort first last w t).1
  unfolding report
  report-Keeps qsort first last w t =
      Keeps-trans w done.1 _ (report_sets-Keeps (last + 1 - first) first w t)
        (finish_report-Keeps qsort done.0 done.1 done.2)
    where
      done : Outcome × Wrapper × Trace
      done = report_sets env (last + 1 - first) first w t

  pub progress-Keeps :
      (qsort : PtrSorter) (first last : ℤ) (w : Wrapper) (t : Trace)
      → Keeps w (progress env qsort first last w t).1
  unfolding progress
  progress-Keeps qsort first last w t = ground (
    arith,
    report-Keeps qsort (pos_part (from_end latest first)) (pos_part (from_end latest last))
        cleared.1 (marpa (r_latest_earley_set w.recognizer) ∷ cleared.2),
  )
    where
      cleared : Unit {0} × Wrapper × Trace
      cleared = in_progress free_all w t

      latest : ℤ
      latest = env.value cleared.2 (marpa (r_latest_earley_set w.recognizer))

module _ (env : Env) (o : ValueOption) (e : ElementOption) where
  new-state :
      (n : ℕ) (option : Option StackOption) (w : Wrapper) (t : Trace)
      → (new (stack_env env) n option w t).1 ≡ w
  unfolding new
  new-state n option w t = ground arith

  value_on-state :
      (rounds : ℕ) (h : Held) (v : Ptr) (made : Option (Ptr × Stack)) (w : Wrapper) (t : Trace)
      → (value_on env o e rounds h v made w t).1 ≡ w
  unfolding value_on
  value_on-state rounds h v none w t = refl
  value_on-state rounds h v (some (header, s)) w t = refl

  one_tree-state :
      (rounds : ℕ) (h : Held) (w : Wrapper) (t : Trace) → (one_tree env o e rounds h w t).1 ≡ w
  unfolding one_tree
  one_tree-state rounds h w t = ground (
    arith,
    new-state e.element_size (some (stack_option e)) w asked,
    value_on-state rounds h v made.0 made.1 made.2,
  )
    where
      v : Ptr
      v = env.address t (marpa (v_new h.tree))

      asked : Trace
      asked = marpa (v_valued_force v) ∷ marpa (v_new h.tree) ∷ t

      made : Option (Ptr × Stack) × Wrapper × Trace
      made = new (stack_env env) e.element_size (some (stack_option e)) w asked

  all_trees-state :
      (trees rounds : ℕ) (h : Held) (w : Wrapper) (t : Trace)
      → (all_trees env o e trees rounds h w t).1 ≡ w
  unfolding all_trees
  all_trees-state zero rounds h w t = refl
  all_trees-state (suc trees) rounds h w t = elim (Grown-cases first.0) [
    | inl e0 ↦ ground (arith, one_tree-state rounds h w asked)
    | inr (inl e0) ↦ ground (
      arith,
      one_tree-state rounds h w asked,
      all_trees-state trees rounds (record h { output = null }) first.1 first.2,
    )
    | inr (inr (ok, held, e0)) ↦ ground (arith, one_tree-state rounds h w asked)
  ]
    where
      asked : Trace
      asked = marpa (t_next h.tree) ∷ t

      first : Grown × Wrapper × Trace
      first = one_tree env o e rounds h w asked

  check_order-state : (q : Ptr) (w : Wrapper) (t : Trace) → (check_order env o e q w t).1 ≡ w
  unfolding check_order
  check_order-state q w t = ground arith

  parse-state :
      (output : Ptr) (trees rounds : ℕ) (w : Wrapper) (t : Trace)
      → (parse env o e output trees rounds w t).1 ≡ w
  unfolding parse
  parse-state output trees rounds w t = ground (
    arith,
    check_order-state q w ordered,
    all_trees-state trees rounds (holding output r q b) checked.1 (marpa (t_new q) ∷ checked.2),
  )
    where
      latest : ℤ
      latest = env.value t (marpa (r_latest_earley_set w.recognizer))

      begun : Trace
      begun = marpa (r_latest_earley_set w.recognizer) ∷ t

      b : Ptr
      b = env.address begun (marpa (b_new w.recognizer latest))

      q : Ptr
      q = env.address (marpa (b_new w.recognizer latest) ∷ begun) (marpa (o_new b))

      ordered : Trace
      ordered = marpa (o_new b) ∷ marpa (b_new w.recognizer latest) ∷ begun

      checked : Bool × Wrapper × Trace
      checked = check_order env o e q w ordered

      r : Ptr
      r = env.address checked.2 (marpa (t_new q))

-- A valuation changes nothing of the wrapper.
pub valuate-state :
    (env : Env) (option : Option ValueOption) (element : Option ElementOption) (output : Ptr)
    (trees rounds : ℕ) (w : Wrapper) (t : Trace)
    → (valuate env option element output trees rounds w t).1 ≡ w
unfolding valuate
valuate-state env option none output trees rounds w t = refl
valuate-state env option (some e) output trees rounds w t = elim (Option-cases outcome.0) [
  | inl e0 ↦ ground (arith, parse-state env (chosen_value_option option) e output trees rounds w t)
  | inr ((ok, held), e0) ↦
      ground (arith, parse-state env (chosen_value_option option) e output trees rounds w t)
]
  where
    outcome : Option (Bool × Held) × Wrapper × Trace
    outcome = parse env (chosen_value_option option) e output trees rounds w t
