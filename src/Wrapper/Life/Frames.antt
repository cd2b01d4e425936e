-- ===== src/Wrapper/Life/Frames.antt =====
-- The fields of the wrapper that the operations of src/marpaWrapper.c leave alone.
use marpa_wrapper.Prelude.{
  ℕ, ◌≡◌, refl, ◌∙◌, inl, inr, Bool, Option, List, [], ◌∷◌, arith, Option-cases,
}
use marpa_wrapper.Prelude.Int.{ℤ, pos}
use marpa_wrapper.World.{Ptr, Call, marpa, lexeme_value_callback, r_earleme_complete, Trace, Env}
use marpa_wrapper.Wrapper.{Wrapper}
use marpa_wrapper.Wrapper.Events.{Sorter}
use marpa_wrapper.Wrapper.Events.Frame.{event-state}
use marpa_wrapper.Wrapper.Recognizer.{alternative, terminal_is_expected, event_activate, complete}
use marpa_wrapper.Wrapper.Recognize.{
  RecognizerOption, PtrSorter, check_one, check, push_one, push, sort_expected, push_matches, feed,
}

-- `w'` has the tables, the recognizer and the blocks of `w`.
pub record Keeps (w w' : Wrapper) : Type 0 where
  pub symbols : w'.symbols ≡ w.symbols
  pub rules : w'.rules ≡ w.rules
  pub recognizer : w'.recognizer ≡ w.recognizer
  pub expected_ids : w'.expected_ids ≡ w.expected_ids
  pub expected_symbols : w'.expected_symbols ≡ w.expected_symbols

pub Keeps-refl : (w w' : Wrapper) → w' ≡ w → Keeps w w'
Keeps-refl w w' e = record {
  symbols = rw e;
  rules = rw e;
  recognizer = rw e;
  expected_ids = rw e;
  expected_symbols = rw e;
}

pub Keeps-trans : (u v w : Wrapper) → Keeps u v → Keeps v w → Keeps u w
Keeps-trans u v w f g = record {
  symbols = g.symbols ∙ f.symbols;
  rules = g.rules ∙ f.rules;
  recognizer = g.recognizer ∙ f.recognizer;
  expected_ids = g.expected_ids ∙ f.expected_ids;
  expected_symbols = g.expected_symbols ∙ f.expected_symbols;
}

module _ (env : Env) where
  pub alternative-state :
      (p : Ptr) (value length : ℤ) (w : Wrapper) (t : Trace)
      → (alternative env p value length w t).1 ≡ w
  unfolding alternative
  alternative-state p value length w t = ground arith

  pub terminal_is_expected-state :
      (p : Ptr) (w : Wrapper) (t : Trace) → (terminal_is_expected env p w t).1 ≡ w
  unfolding terminal_is_expected
  terminal_is_expected-state p w t = ground arith

  pub event_activate-state :
      (p : Ptr) (set : ℕ) (on : Bool) (w : Wrapper) (t : Trace)
      → (event_activate env p set on w t).1 ≡ w
  unfolding event_activate
  event_activate-state p set on w t = ground arith

  pub complete-state : (qsort : Sorter) (w : Wrapper) (t : Trace) → (complete env qsort w t).1 ≡ w
  unfolding complete
  complete-state qsort w t =
      ground (arith, event-state env qsort w (marpa (r_earleme_complete w.recognizer) ∷ t))

  check-Keeps :
      (latm : Bool) (ps : List Ptr) (n : ℕ) (w : Wrapper) (t : Trace)
      → Keeps w (check env latm ps n w t).1
  unfolding check check_one
  check-Keeps latm [] n w t = Keeps-refl w w refl
  check-Keeps latm (p ∷ ps) n w t =
      Keeps-trans w first.1 _ once (check-Keeps latm ps first.0 first.1 first.2)
    where
      first : ℕ × Wrapper × Trace
      first = check_one env latm p n w t

      once : Keeps w first.1
      once = ground arith

  push_one-state :
      (o : RecognizerOption) (n : ℕ) (p : Ptr) (lexeme : ℤ × ℤ) (w : Wrapper) (t : Trace)
      → (push_one env o n p lexeme w t).1 ≡ w
  unfolding push_one
  push_one-state o n p (value, length) w t = ground (
    arith,
    alternative-state p value length w t,
    alternative-state p (env.output t c 0) (env.output t c 1) w (c ∷ t),
  )
    where
      c : Call
      c = lexeme_value_callback (w.symbol_at p).option.user

  push-state :
      (o : RecognizerOption) (n : ℕ) (ps : List Ptr) (lexeme : ℤ × ℤ) (w : Wrapper) (t : Trace)
      → (push env o n ps lexeme w t).1 ≡ w
  unfolding push
  push-state o n [] lexeme w t = refl
  push-state o n (p ∷ ps) lexeme w t = elim (Option-cases first.0) [
    | inl e ↦ ground (arith, push_one-state o n p lexeme w t)
    | inr (next, e) ↦
        ground (arith, push_one-state o n p lexeme w t, push-state o n ps next first.1 first.2)
  ]
    where
      first : Option (ℤ × ℤ) × Wrapper × Trace
      first = push_one env o n p lexeme w t

  pub sort_expected-Keeps :
      (qsort : Sorter) (qsort_ptr : PtrSorter) (o : RecognizerOption) (n : ℕ) (w : Wrapper)
      (t : Trace)
      → Keeps w (sort_expected env qsort qsort_ptr o n w t).1
  unfolding sort_expected
  sort_expected-Keeps qsort qsort_ptr o n w t = ground arith

  push_matches-Keeps :
      (qsort : Sorter) (qsort_ptr : PtrSorter) (o : RecognizerOption) (length : ℤ) (ps : List Ptr)
      (w : Wrapper) (t : Trace)
      → Keeps w (push_matches env qsort qsort_ptr o length ps w t).1
  unfolding push_matches
  push_matches-Keeps qsort qsort_ptr o length ps w t = ground (
    arith,
    check-Keeps o.longest ps 0 w t,
    push-state o checked.0 ps (pos 0, length) checked.1 checked.2,
  )
    where
      checked : ℕ × Wrapper × Trace
      checked = check env o.longest ps 0 w t

  pub feed-Keeps :
      (qsort : Sorter) (qsort_ptr : PtrSorter) (o : RecognizerOption) (length : ℤ) (ps : List Ptr)
      (w : Wrapper) (t : Trace)
      → Keeps w (feed env qsort qsort_ptr o length ps w t).1
  unfolding feed
  feed-Keeps qsort qsort_ptr o length ps w t = elim (Option-cases pushed.0) [
    | inl e ↦ ground (arith, push_matches-Keeps qsort qsort_ptr o length ps w t)
    | inr (next, e) ↦ ground (
      arith,
      push_matches-Keeps qsort qsort_ptr o length ps w t,
      complete-state qsort pushed.1 pushed.2,
    )
  ]
    where
      pushed : Option (ℤ × ℤ) × Wrapper × Trace
      pushed = push_matches env qsort qsort_ptr o length ps w t
