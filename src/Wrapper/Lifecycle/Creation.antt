-- ===== src/Wrapper/Lifecycle/Creation.antt =====
-- What `marpaWrapper_newp` returns, and what it gives back when it fails.
use marpa_wrapper.Prelude.{
  ◌+◌, ◌≡◌, ◌≢◌, refl, true, false, Option, none, some, ◌∷◌, arith, ◌==◌, if◌then◌else◌,
}
use marpa_wrapper.Prelude.Int.{ℤ}
use marpa_wrapper.World.{
  Ptr, null, error, libmarpa, marpa, log, malloc, version, check_version, c_init, c_error, g_new,
  g_force_valued, g_error, Trace, Env,
}
use marpa_wrapper.World.Frees.{frees}
use marpa_wrapper.Buf.{empty}
use marpa_wrapper.Wrapper.{Wrapper, WrapperOption}
use marpa_wrapper.Wrapper.Lifecycle.{
  Memory, chosen_option, initial, destroy, make_grammar, check_wanted, set_up, new, sizeof_wrapper,
}
use marpa_wrapper.Wrapper.Lifecycle.Balance.{frees-destroy_wrapper}

-- A wrapper that has nothing but perhaps a grammar.
pub record IsBlank (w : Wrapper) : Type 0 where
  pub symbols : w.symbols ≡ empty
  pub rules : w.rules ≡ empty
  pub progress : w.progress ≡ empty
  pub expected_ids : w.expected_ids ≡ null
  pub expected_symbols : w.expected_symbols ≡ null

module _ (env : Env) (p self : Ptr) (ne : p ≢ null) where
  frees-blank :
      (w : Wrapper) (t : Trace)
      → IsBlank w
      → frees p (destroy self w t).2 ≡ (if self == p then 1 else 0) + frees p t
  frees-blank w t b = ground (arith, frees-destroy_wrapper p self w t ne)

  frees-make_grammar :
      (w : Wrapper) (t : Trace)
      → IsBlank w
      → (make_grammar env self w t).0 ≡ false
      → frees p (make_grammar env self w t).2 ≡ (if self == p then 1 else 0) + frees p t
  unfolding make_grammar
  frees-make_grammar w t b failed = ground (
    arith,
    frees-blank given
        (log error libmarpa (env.value t1 (marpa c_error)) "Marpa" ∷ marpa c_error ∷ t1) valid,
    frees-blank given
        (log error libmarpa (env.value t2 (marpa (g_error grammar))) "Marpa"
          ∷ marpa (g_error grammar)
          ∷ t2)
        valid,
  )
    where
      grammar : Ptr
      grammar = env.address (marpa c_init ∷ t) (marpa g_new)

      t1 : Trace
      t1 = marpa g_new ∷ marpa c_init ∷ t

      t2 : Trace
      t2 = marpa (g_force_valued grammar) ∷ t1

      given : Wrapper
      given = record w { grammar = grammar }

      valid : IsBlank given
      valid = record {
        symbols = b.symbols;
        rules = b.rules;
        progress = b.progress;
        expected_ids = b.expected_ids;
        expected_symbols = b.expected_symbols;
      }

  frees-check_wanted :
      (o : Option (ℤ × ℤ × ℤ)) (w : Wrapper) (t : Trace)
      → IsBlank w
      → (check_wanted env o self w t).0 ≡ false
      → frees p (check_wanted env o self w t).2 ≡ (if self == p then 1 else 0) + frees p t
  unfolding check_wanted
  frees-check_wanted none w t b failed = frees-make_grammar w t b failed
  frees-check_wanted (some (major, minor, micro)) w t b failed = ground (
    arith,
    frees-make_grammar w (marpa (check_version major minor micro) ∷ t) b,
    frees-blank w
        (log error libmarpa (env.value t (marpa (check_version major minor micro))) "Marpa"
          ∷ marpa (check_version major minor micro)
          ∷ t)
        b,
  )

  frees-set_up :
      (w : Wrapper) (t : Trace)
      → IsBlank w
      → (set_up env self w t).0 ≡ false
      → frees p (set_up env self w t).2 ≡ (if self == p then 1 else 0) + frees p t
  unfolding set_up
  frees-set_up w t b failed = ground (
    arith,
    frees-check_wanted w.option.version w (marpa version ∷ t) b,
    frees-blank w (log error libmarpa (env.value t (marpa version)) "Marpa" ∷ marpa version ∷ t) b,
  )

module _ (env : Env) where
  make_grammar_lem :
      (self : Ptr) (w : Wrapper) (t : Trace)
      → (make_grammar env self w t).0 ≡ true
      → ((make_grammar env self w t).1
          ≡ record w { grammar = (make_grammar env self w t).1.grammar })
        × ((make_grammar env self w t).1.grammar ≢ null)
  unfolding make_grammar
  make_grammar_lem self w t ok = ground arith

  check_wanted_lem :
      (o : Option (ℤ × ℤ × ℤ)) (self : Ptr) (w : Wrapper) (t : Trace)
      → (check_wanted env o self w t).0 ≡ true
      → ((check_wanted env o self w t).1
          ≡ record w { grammar = (check_wanted env o self w t).1.grammar })
        × ((check_wanted env o self w t).1.grammar ≢ null)
  unfolding check_wanted
  check_wanted_lem none self w t ok = make_grammar_lem self w t ok
  check_wanted_lem (some (major, minor, micro)) self w t ok =
      ground (arith, make_grammar_lem self w (marpa (check_version major minor micro) ∷ t))

  set_up_lem :
      (self : Ptr) (w : Wrapper) (t : Trace)
      → (set_up env self w t).0 ≡ true
      → ((set_up env self w t).1 ≡ record w { grammar = (set_up env self w t).1.grammar })
        × ((set_up env self w t).1.grammar ≢ null)
  unfolding set_up
  set_up_lem self w t ok =
      ground (arith, check_wanted_lem w.option.version self w (marpa version ∷ t))

  -- A wrapper that `marpaWrapper_newp` returns has an address, a grammar, the options of the
  -- application or the defaults, no recognizer, and empty tables.
  pub new_lem :
      (option : Option WrapperOption) (m : Memory) (t : Trace) (self : Ptr) (w : Wrapper)
      → (new env option m t).0 ≡ some (self, w)
      → (self ≢ null)
        × (w.grammar ≢ null)
        × (w ≡ record (initial (chosen_option option) m) { grammar = w.grammar })
  unfolding new
  new_lem option m t self w made = ground (
    arith,
    set_up_lem (env.address t (malloc sizeof_wrapper)) (initial (chosen_option option) m)
        (malloc sizeof_wrapper ∷ t),
  )

  -- A `marpaWrapper_newp` that fails, on any of its paths, frees the memory of the wrapper exactly
  -- once if it was given any, and nothing else.
  pub frees-new :
      (option : Option WrapperOption) (m : Memory) (t : Trace) (p : Ptr)
      → p ≢ null
      → (new env option m t).0 ≡ none
      → frees p (new env option m t).1
        ≡ (if env.address t (malloc sizeof_wrapper) == p then 1 else 0) + frees p t
  unfolding new
  frees-new option m t p ne failed = ground (
    arith,
    frees-set_up env p (env.address t (malloc sizeof_wrapper)) ne (initial (chosen_option option) m)
        (malloc sizeof_wrapper ∷ t)
        (record {
          symbols = refl;
          rules = refl;
          progress = refl;
          expected_ids = refl;
          expected_symbols = refl;
        }),
  )
