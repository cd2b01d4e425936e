-- ===== src/Wrapper/Valuation/Returns.antt =====
-- That a valuation gives back what libmarpa gave to it, on every path.
use marpa_wrapper.Prelude.{
  ℕ, zero, suc, ◌+◌, ◌≡◌, ◌≢◌, refl, inl, inr, Bool, false, Option, none, some, ◌∷◌, arith, ◌==◌,
  Bool-cases, Option-cases,
}
use marpa_wrapper.Prelude.Int.{is_negative}
use marpa_wrapper.World.{
  Ptr, null, MarpaCall, r_latest_earley_set, b_new, o_new, t_new, t_next, marpa, Trace, Env,
}
use marpa_wrapper.Wrapper.{Wrapper}
use marpa_wrapper.Wrapper.Valuation.{ValueOption, chosen_value_option, ElementOption}
use marpa_wrapper.Wrapper.Valuation.Trees.{
  Held, holding, Grown, release_held, one_tree, all_trees, check_order, parse, valuate, growing,
  grown, ended,
}
use marpa_wrapper.Wrapper.Recognizer.{not_started}
use marpa_wrapper.Wrapper.Valuation.Roles.{Kind, bocage, order, tree, value}
use marpa_wrapper.Wrapper.Valuation.Balance.{given, dropped, owned, given-release_held}
use marpa_wrapper.Wrapper.Valuation.Books.{
  Books, Settles, one_tree-Settles, Grown-cases, owned_output,
}

-- The books of a loop that ended.
abbrev pub Concludes : Env → Kind → Ptr → Held → Option (Bool × Held) → (t t' : Trace) → Type 0
Concludes env k p h none t t' = Unit
Concludes env k p h (some (ok, h')) t t' = Books env k p h h' t t'

Concludes-after :
    (env : Env) (k : Kind) (p : Ptr) (h h1 : Held) (result : Option (Bool × Held)) (t t1 t2 : Trace)
    → Books env k p h h1 t t1
    → Concludes env k p h1 result t1 t2
    → Concludes env k p h result t t2
Concludes-after env k p h h1 none t t1 t2 books rest = tt
Concludes-after env k p h h1 (some (ok, h')) t t1 t2 books rest = omega (arith, books, rest)

module _ (env : Env) (p : Ptr) (o : ValueOption) (e : ElementOption) where
  all_trees-Concludes :
      (k : Kind) (trees rounds : ℕ) (h : Held) (w : Wrapper) (t : Trace)
      → p ≢ null
      → h.value ≡ null
      → Concludes env k p h
          (all_trees env o e trees rounds h w t).0
          t
          (all_trees env o e trees rounds h w t).2
  unfolding all_trees
  all_trees-Concludes k zero rounds h w t ne none_held = tt
  all_trees-Concludes k (suc trees) rounds h w t ne none_held =
      elim (Bool-cases (is_negative (env.value t (marpa (t_next h.tree))))) [
        | inl over ↦ rw over (omega arith)
        | inr more ↦ elim (Grown-cases first.0) [
          | inl e0 ↦ rw (still more e0) tt
          | inr (inl e0) ↦ rw (next more e0) (
              Concludes-after env k p h (record h { output = null }) _ t first.2 _
                (omega (arith, books h (rw e0 at settled), owned_output k p h))
                (all_trees-Concludes k trees rounds (record h { output = null }) first.1 first.2 ne
                  none_held))
          | inr (inr (ok, h', e0)) ↦ rw (over_with more ok h' e0) (books h' (rw e0 at settled))
        ]
      ]
    where
      asked : Trace
      asked = marpa (t_next h.tree) ∷ t

      first : Grown × Wrapper × Trace
      first = one_tree env o e rounds h w asked

      settled : Settles env k p h first.0 asked first.2
      settled = one_tree-Settles env p o e k rounds h w asked ne none_held

      books : (h' : Held) → Books env k p h h' asked first.2 → Books env k p h h' t first.2
      books h' b = omega (arith, b)

      still :
          is_negative (env.value t (marpa (t_next h.tree))) ≡ false
          → first.0 ≡ growing
          → all_trees env o e (suc trees) rounds h w t ≡ (none, first.1, first.2)
      still more e0 = ground arith

      next :
          is_negative (env.value t (marpa (t_next h.tree))) ≡ false
          → first.0 ≡ grown
          → all_trees env o e (suc trees) rounds h w t
            ≡ all_trees env o e trees rounds (record h { output = null }) first.1 first.2
      next more e0 = ground arith

      over_with :
          is_negative (env.value t (marpa (t_next h.tree))) ≡ false
          → (ok : Bool) (h' : Held) → first.0 ≡ ended ok h'
          → all_trees env o e (suc trees) rounds h w t ≡ (some (ok, h'), first.1, first.2)
      over_with more ok h' e0 = ground arith

  check_order-alike :
      (k : Kind) (q : Ptr) (w : Wrapper) (t : Trace)
      → (given env k p (check_order env o e q w t).2 ≡ given env k p t)
        × (dropped k p (check_order env o e q w t).2 ≡ dropped k p t)
  unfolding check_order
  check_order-alike k q w t = ground arith

  parse-Concludes :
      (k : Kind) (output : Ptr) (trees rounds : ℕ) (w : Wrapper) (t : Trace)
      → p ≢ null
      → Concludes env k p
          (holding output null null null)
          (parse env o e output trees rounds w t).0
          t
          (parse env o e output trees rounds w t).2
  unfolding parse
  parse-Concludes k output trees rounds w t ne = elim (Bool-cases (b == null)) [
    | inl no_bocage ↦ rw no_bocage (ground arith)
    | inr bocage_made ↦ elim (Bool-cases (q == null)) [
      | inl no_order ↦ rw (bocage_made, no_order) (ground (arith, begun k))
      | inr order_made ↦ elim (Bool-cases checked.0) [
        | inr unfit ↦
            rw (bocage_made, order_made, unfit)
              (ground (arith, ordered k, check_order-alike k q w t2))
        | inl fit ↦ elim (Bool-cases (r == null)) [
          | inl no_tree ↦
              rw (bocage_made, order_made, fit, no_tree)
                (ground (arith, ordered k, check_order-alike k q w t2))
          | inr tree_made ↦
              rw (bocage_made, order_made, fit, tree_made)
                (Concludes-after env k p (holding output null null null) (holding output r q b) _ t
                  t3 _ (planted k)
                  (all_trees-Concludes k trees rounds (holding output r q b) checked.1 t3 ne refl))
        ]
      ]
    ]
  ]
    where
      t0 : Trace
      t0 = marpa (r_latest_earley_set w.recognizer) ∷ t

      c : MarpaCall
      c = b_new w.recognizer (env.value t (marpa (r_latest_earley_set w.recognizer)))

      b : Ptr
      b = env.address t0 (marpa c)

      t1 : Trace
      t1 = marpa c ∷ t0

      q : Ptr
      q = env.address t1 (marpa (o_new b))

      t2 : Trace
      t2 = marpa (o_new b) ∷ t1

      checked : Bool × Wrapper × Trace
      checked = check_order env o e q w t2

      r : Ptr
      r = env.address checked.2 (marpa (t_new q))

      t3 : Trace
      t3 = marpa (t_new q) ∷ checked.2

      begun :
          (k : Kind)
          → Books env k p (holding output null null null) (holding output null null b) t t1
      begun bocage = ground arith
      begun order = ground arith
      begun tree = ground arith
      begun value = ground arith

      ordered :
          (k : Kind) → Books env k p (holding output null null null) (holding output null q b) t t2
      ordered bocage = ground (arith, begun bocage)
      ordered order = ground (arith, begun order)
      ordered tree = ground (arith, begun tree)
      ordered value = ground (arith, begun value)

      planted :
          (k : Kind) → Books env k p (holding output null null null) (holding output r q b) t t3
      planted bocage = ground (arith, ordered bocage, check_order-alike bocage q w t2)
      planted order = ground (arith, ordered order, check_order-alike order q w t2)
      planted tree = ground (arith, ordered tree, check_order-alike tree q w t2)
      planted value = ground (arith, ordered value, check_order-alike value q w t2)

nothing_owned :
    (k : Kind) (p output : Ptr) → p ≢ null → owned k p (holding output null null null) ≡ 0
nothing_owned bocage p output ne = ground arith
nothing_owned order p output ne = ground arith
nothing_owned tree p output ne = ground arith
nothing_owned value p output ne = ground arith

module _ (env : Env) (k : Kind) (p : Ptr) (ne : p ≢ null) where
  end_label-Books :
      (output : Ptr) (h : Held) (t t1 : Trace)
      → Books env k p (holding output null null null) h t t1
      → dropped k p (release_held env h t1) + given env k p t
        ≡ given env k p (release_held env h t1) + dropped k p t
  end_label-Books output h t t1 books =
      omega (arith, books, given-release_held env k p h t1 ne, nothing_owned k p output ne)

  -- When `marpaWrapper_vb` returns, with a result or an error from wherever in it, libmarpa got back
  -- during the call, of each kind of object (bocage, order, tree, value) and for each address that is
  -- not NULL, exactly as many as it gave.
  pub given-valuate :
      (option : Option ValueOption) (element : Option ElementOption) (output : Ptr)
      (trees rounds : ℕ) (w : Wrapper) (t : Trace)
      → (valuate env option element output trees rounds w t).0 ≢ none
      → let t' = (valuate env option element output trees rounds w t).2 in
        dropped k p t' + given env k p t ≡ given env k p t' + dropped k p t
  unfolding valuate
  given-valuate option none output trees rounds w t returns =
      end_label-Books output (holding output null null null) t _ (omega arith)
  given-valuate option (some e) output trees rounds w t returns =
      elim (Bool-cases (not_started w)) [
        | inl idle ↦
            rw idle (end_label-Books output (holding output null null null) t _ (omega arith))
        | inr started ↦ elim (Option-cases outcome.0) [
          | inl unfinished ↦ absurd (returns (ground arith))
          | inr ((ok, h), done) ↦ rw (ended_with started ok h done) (
              end_label-Books output h t outcome.2 (
                rw done at (
                  parse-Concludes env p (chosen_value_option option) e k output trees rounds w t
                    ne)))
        ]
      ]
    where
      outcome : Option (Bool × Held) × Wrapper × Trace
      outcome = parse env (chosen_value_option option) e output trees rounds w t

      ended_with :
          not_started w ≡ false
          → (ok : Bool) (h : Held) → outcome.0 ≡ some (ok, h)
          → valuate env option (some e) output trees rounds w t
            ≡ (some ok, outcome.1, release_held env h outcome.2)
      ended_with started ok h done = ground arith
