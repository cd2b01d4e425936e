-- ===== src/Wrapper/Valuation/Books.antt =====
-- What libmarpa gave to a valuation, what it got back and what is held, over one tree.
use marpa_wrapper.Prelude.{
  ℕ, ◌+◌, ◌≡◌, ◌≢◌, ◌⊎◌, refl, inl, inr, Bool, ◌&&◌, Option, none, some, ◌∷◌, arith, ◌==◌,
  if◌then◌else◌, Bool-cases,
}
use marpa_wrapper.Prelude.Int.{is_negative}
use marpa_wrapper.World.{Ptr, null, v_new, v_valued_force, marpa, Trace, Env}
use marpa_wrapper.Stack.{Stack, new}
use marpa_wrapper.Stack.Tally.{tally-new, tally-destroy}
use marpa_wrapper.Wrapper.{Wrapper}
use marpa_wrapper.Wrapper.Valuation.{ValueOption, ElementOption, stack_option, stack_env}
use marpa_wrapper.Wrapper.Valuation.Steps.{
  Evaluated, evaluate, evaluating, value_failed, value_stopped, value_done,
}
use marpa_wrapper.Wrapper.Valuation.Trees.{
  Held, Grown, after_value, value_on, one_tree, growing, grown, ended,
}
use marpa_wrapper.Wrapper.Valuation.Roles.{Kind, bocage, order, tree, value, same, by_role}
use marpa_wrapper.Wrapper.Valuation.Balance.{
  given_by_role, dropped_by_role, given, dropped, owned, given-evaluate,
}

-- Between two traces, what libmarpa gave is what it got back and what is held in the end, less what
-- was held in the beginning.
abbrev pub Books : Env → Kind → Ptr → (h h' : Held) → (t t' : Trace) → Type 0
Books env k p h h' t t' =
    dropped k p t' + owned k p h' + given env k p t ≡ given env k p t' + dropped k p t + owned k p h

-- The same of what one tree comes to.
abbrev pub Settles : Env → Kind → Ptr → Held → Grown → (t t' : Trace) → Type 0
Settles env k p h growing t t' = Unit
Settles env k p h grown t t' = Books env k p h h t t'
Settles env k p h (ended ok h') t t' = Books env k p h h' t t'

module _ (env : Env) (p : Ptr) (o : ValueOption) (e : ElementOption) where
  after_value-Settles :
      (k : Kind) (h : Held) (v header : Ptr) (outcome : Evaluated) (s : Stack) (t0 t : Trace)
      → p ≢ null
      → h.value ≡ null
      → Books env k p h (record h { value = v }) t0 t
      → Settles env k p h
          (after_value env o e h v header outcome s t).0
          t0
          (after_value env o e h v header outcome s t).2
  unfolding after_value
  after_value-Settles k h v header evaluating s t0 t ne none_held books = tt
  after_value-Settles bocage h v header (value_failed a b) s t0 t ne none_held books = books
  after_value-Settles order h v header (value_failed a b) s t0 t ne none_held books = books
  after_value-Settles tree h v header (value_failed a b) s t0 t ne none_held books = books
  after_value-Settles value h v header (value_failed a b) s t0 t ne none_held books = books
  after_value-Settles bocage h v header value_stopped s t0 t ne none_held books = books
  after_value-Settles order h v header value_stopped s t0 t ne none_held books = books
  after_value-Settles tree h v header value_stopped s t0 t ne none_held books = books
  after_value-Settles value h v header value_stopped s t0 t ne none_held books = books
  after_value-Settles k h v header value_done s t0 t ne none_held books = ground (
    arith,
    tally-destroy (stack_env env) (by_role (given_by_role env k p)) header s t,
    tally-destroy (stack_env env) (by_role (dropped_by_role k p)) header s t,
    owned_value k,
  )
    where
      owned_value :
          (k : Kind)
          → owned k p (record h { value = v })
            ≡ (if same k value && v == p then 1 else 0) + owned k p h
      owned_value bocage = omega arith
      owned_value order = omega arith
      owned_value tree = omega arith
      owned_value value = ground arith

  value_on-Settles :
      (k : Kind) (rounds : ℕ) (h : Held) (v : Ptr) (made : Option (Ptr × Stack)) (w : Wrapper)
      (t0 t : Trace)
      → p ≢ null
      → h.value ≡ null
      → Books env k p h (record h { value = v }) t0 t
      → Settles env k p h
          (value_on env o e rounds h v made w t).0
          t0
          (value_on env o e rounds h v made w t).2
  unfolding value_on
  value_on-Settles k rounds h v none w t0 t ne none_held books = books
  value_on-Settles k rounds h v (some (header, s)) w t0 t ne none_held books =
      after_value-Settles k h v header r.0 r.1 t0 r.2 ne none_held
        (ground (arith, given-evaluate env k p w o e rounds v s t))
    where
      r : Evaluated × Stack × Trace
      r = evaluate env w o e rounds v s t

  pub one_tree-Settles :
      (k : Kind) (rounds : ℕ) (h : Held) (w : Wrapper) (t : Trace)
      → p ≢ null
      → h.value ≡ null
      → Settles env k p h (one_tree env o e rounds h w t).0 t (one_tree env o e rounds h w t).2
  unfolding one_tree
  one_tree-Settles k rounds h w t ne none_held = elim (Bool-cases (v == null)) [
    | inl refused ↦ rw refused (ground (arith, valued k))
    | inr got ↦ elim (Bool-cases (is_negative (env.value t1 (marpa (v_valued_force v))))) [
      | inl refused ↦ rw (got, refused) (ground (arith, valued k))
      | inr forced ↦
          rw (got, forced)
            (value_on-Settles k rounds h v made.0 made.1 t made.2 ne none_held
              (ground (arith, valued k, made_alike)))
    ]
  ]
    where
      v : Ptr
      v = env.address t (marpa (v_new h.tree))

      t1 : Trace
      t1 = marpa (v_new h.tree) ∷ t

      made : Option (Ptr × Stack) × Wrapper × Trace
      made =
          new (stack_env env) e.element_size (some (stack_option e)) w
            (marpa (v_valued_force v) ∷ t1)

      made_alike : (given env k p made.2 ≡ given env k p t1) × (dropped k p made.2 ≡ dropped k p t1)
      made_alike = ground (
        arith,
        tally-new (stack_env env) (by_role (given_by_role env k p)) e.element_size
            (some (stack_option e)) w (marpa (v_valued_force v) ∷ t1),
        tally-new (stack_env env) (by_role (dropped_by_role k p)) e.element_size
            (some (stack_option e)) w (marpa (v_valued_force v) ∷ t1),
      )

      valued :
          (k : Kind)
          → owned k p (record h { value = v }) + given env k p t ≡ given env k p t1 + owned k p h
      valued bocage = omega arith
      valued order = omega arith
      valued tree = omega arith
      valued value = ground arith

pub Grown-cases :
    (g : Grown) → (g ≡ growing) ⊎ (g ≡ grown) ⊎ ((ok : Bool) × (h : Held) × (g ≡ ended ok h))
Grown-cases growing = inl refl
Grown-cases grown = inr (inl refl)
Grown-cases (ended ok h) = inr (inr (ok, h, refl))

pub owned_output :
    (k : Kind) (p : Ptr) (h : Held) → owned k p (record h { output = null }) ≡ owned k p h
owned_output bocage p h = refl
owned_output order p h = refl
owned_output tree p h = refl
owned_output value p h = refl
