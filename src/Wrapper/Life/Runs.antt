-- ===== src/Wrapper/Life/Runs.antt =====
-- The life of a wrapper of src/marpaWrapper.c: any sequence of its operations.
use marpa_wrapper.Prelude.{ℕ, ◌≡◌, refl, inl, Bool, Option, some, arith}
use marpa_wrapper.Prelude.Int.{ℤ}
use marpa_wrapper.World.{Ptr, Trace, Env}
use marpa_wrapper.Buf.{empty}
use marpa_wrapper.Buf.Valid
use marpa_wrapper.Wrapper.{Wrapper, WrapperOption, SymbolOption, RuleOption}
use marpa_wrapper.Wrapper.Events.{Sorter}
use marpa_wrapper.Wrapper.Symbols.{add_symbol}
use marpa_wrapper.Wrapper.Rules.{add_rule}
use marpa_wrapper.Wrapper.Recognizer.{
  alternative, terminal_is_expected, event_activate, terminals_expected, complete, read, precompute,
  start,
}
use marpa_wrapper.Wrapper.Recognize.{RecognizerOption, PtrSorter, recognize}
use marpa_wrapper.Wrapper.ProgressReport.{progress}
use marpa_wrapper.Wrapper.Valuation.{ValueOption, ElementOption}
use marpa_wrapper.Wrapper.Valuation.Trees.{valuate}
use marpa_wrapper.Wrapper.Lifecycle.{Memory, initial, chosen_option, new}
use marpa_wrapper.Wrapper.Lifecycle.Creation.{new_lem}
use marpa_wrapper.Wrapper.Life.Frames.{
  alternative-state, terminal_is_expected-state, event_activate-state, complete-state,
}
use marpa_wrapper.Wrapper.Life.Reports.{progress-Keeps, valuate-state}
use marpa_wrapper.Wrapper.Life.Sound.{IsSound, Keeps-IsSound}
use marpa_wrapper.Wrapper.Life.Numbered.{IsNumbered, add_symbol-IsSound, add_rule-IsSound}
use marpa_wrapper.Wrapper.Life.Reading.{
  same-IsSound, terminals_expected-IsSound, start-IsSound, recognize-IsSound, read-state,
  precompute-state,
}

-- An operation of the application on a wrapper; `next m` is what the operation `m` makes of a wrapper
-- and of the calls so far.
abbrev pub after :
    {A : Type 0} → (Wrapper → Trace → A × Wrapper × Trace) → Wrapper × Trace → Wrapper × Trace
after m u = let r = m u.0 u.1 in (r.1, r.2)

-- One operation, with the sorts of the C library as parameters.
pub data Step (env : Env) (qsort : Sorter) (qsort_ptr : PtrSorter)
    : Wrapper × Trace → Wrapper × Trace → Type 0 where
  adds_symbol :
      (option : Option SymbolOption) (u : Wrapper × Trace)
      → Step env qsort qsort_ptr u (after (add_symbol env option) u)
  adds_rule :
      (option : Option RuleOption) (u : Wrapper × Trace)
      → Step env qsort qsort_ptr u (after (add_rule env option) u)
  precomputes : (u : Wrapper × Trace) → Step env qsort qsort_ptr u (after (precompute env qsort) u)
  starts : (u : Wrapper × Trace) → Step env qsort qsort_ptr u (after (start env qsort) u)
  alternates :
      (p : Ptr) (value length : ℤ) (u : Wrapper × Trace)
      → Step env qsort qsort_ptr u (after (alternative env p value length) u)
  completes : (u : Wrapper × Trace) → Step env qsort qsort_ptr u (after (complete env qsort) u)
  reads :
      (p : Ptr) (value length : ℤ) (u : Wrapper × Trace)
      → Step env qsort qsort_ptr u (after (read env qsort p value length) u)
  asks_terminal :
      (p : Ptr) (u : Wrapper × Trace)
      → Step env qsort qsort_ptr u (after (terminal_is_expected env p) u)
  asks_terminals :
      (u : Wrapper × Trace) → Step env qsort qsort_ptr u (after (terminals_expected env) u)
  activates :
      (p : Ptr) (event_set : ℕ) (on : Bool) (u : Wrapper × Trace)
      → Step env qsort qsort_ptr u (after (event_activate env p event_set on) u)
  recognizes :
      (rounds : ℕ) (o : RecognizerOption) (length : ℤ) (u : Wrapper × Trace)
      → Step env qsort qsort_ptr u (after (recognize env qsort qsort_ptr rounds o length) u)
  reports :
      (first last : ℤ) (u : Wrapper × Trace)
      → Step env qsort qsort_ptr u (after (progress env qsort_ptr first last) u)
  values :
      (option : Option ValueOption) (element : Option ElementOption) (output : Ptr)
      (trees rounds : ℕ) (u : Wrapper × Trace)
      → Step env qsort qsort_ptr u (after (valuate env option element output trees rounds) u)

-- The wrappers that a new one becomes.
pub data Reach (env : Env) (qsort : Sorter) (qsort_ptr : PtrSorter) (start : Wrapper × Trace)
    : Wrapper × Trace → Type 0 where
  here : Reach env qsort qsort_ptr start start
  next :
      {u v : Wrapper × Trace}
      → Reach env qsort qsort_ptr start u
      → Step env qsort qsort_ptr u v
      → Reach env qsort qsort_ptr start v

initial-IsSound :
    (o : WrapperOption) (m : Memory) (grammar : Ptr)
    → IsSound (record (initial o m) { grammar = grammar })
initial-IsSound o m grammar = record {
  symbols = empty-IsValid;
  rules = empty-IsValid;
  paired = record { together = (λ _. refl, λ _. refl); owned = λ _. refl };
}
  where
    empty-IsValid : Valid.IsValid empty
    empty-IsValid = record {
      held = refl;
      room = omega arith;
      within = omega arith;
      allocated = inl refl;
    }

module _ (env : Env) (numbered : IsNumbered env) (qsort : Sorter) (qsort_ptr : PtrSorter) where
  Step-IsSound : {u v : Wrapper × Trace} → Step env qsort qsort_ptr u v → IsSound u.0 → IsSound v.0
  Step-IsSound (adds_symbol option u) s = add_symbol-IsSound env numbered option u.0 u.1 s
  Step-IsSound (adds_rule option u) s = add_rule-IsSound env numbered option u.0 u.1 s
  Step-IsSound (precomputes u) s = same-IsSound u.0 _ (precompute-state env qsort u.0 u.1) s
  Step-IsSound (starts u) s = start-IsSound env qsort u.0 u.1 s
  Step-IsSound (alternates p value length u) s =
      same-IsSound u.0 _ (alternative-state env p value length u.0 u.1) s
  Step-IsSound (completes u) s = same-IsSound u.0 _ (complete-state env qsort u.0 u.1) s
  Step-IsSound (reads p value length u) s =
      same-IsSound u.0 _ (read-state env qsort p value length u.0 u.1) s
  Step-IsSound (asks_terminal p u) s =
      same-IsSound u.0 _ (terminal_is_expected-state env p u.0 u.1) s
  Step-IsSound (asks_terminals u) s = terminals_expected-IsSound env u.0 u.1 s
  Step-IsSound (activates p event_set on u) s =
      same-IsSound u.0 _ (event_activate-state env p event_set on u.0 u.1) s
  Step-IsSound (recognizes rounds o length u) s =
      recognize-IsSound env qsort qsort_ptr o rounds length u.0 u.1 s
  Step-IsSound (reports first last u) s =
      Keeps-IsSound u.0 _ (progress-Keeps env qsort_ptr first last u.0 u.1) s
  Step-IsSound (values option element output trees rounds u) s =
      same-IsSound u.0 _ (valuate-state env option element output trees rounds u.0 u.1) s

  Reach-IsSound :
      {u v : Wrapper × Trace} → IsSound u.0 → Reach env qsort qsort_ptr u v → IsSound v.0
  Reach-IsSound s here = s
  Reach-IsSound s (next r st) = Step-IsSound st (Reach-IsSound s r)

  -- After any sequence of the operations of a wrapper that `marpaWrapper_newp` returned, failed ones
  -- too, when libmarpa numbers symbols and rules below 2^59 - 1: each of the tables of symbols and of
  -- rules has as many slots as its size says, a size in bytes with room for them, no more of them in use
  -- than there are, and a block that is not NULL if it has any; whether that block is still allocated
  -- is not said. The wrapper has both blocks of expected symbols or none, and none without a recognizer.
  pub life_of_wrapper :
      (option : Option WrapperOption) (m : Memory) (t0 t : Trace) (self : Ptr) (w : Wrapper)
      (v : Wrapper × Trace)
      → (new env option m t0).0 ≡ some (self, w)
      → Reach env qsort qsort_ptr (w, t) v
      → IsSound v.0
  life_of_wrapper option m t0 t self w v made r =
      Reach-IsSound
        (same-IsSound _ w (new_lem env option m t0 self w made).2
          (initial-IsSound (chosen_option option) m w.grammar))
        r
