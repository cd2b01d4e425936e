-- ===== src/Wrapper/Life/Reading.antt =====
-- The read phase of src/marpaWrapper.c keeps the invariant of the wrapper.
use marpa_wrapper.Prelude.{ℕ, zero, suc, ◌≡◌, ap, inl, inr, Option, List, ◌∷◌, arith, Option-cases}
use marpa_wrapper.Prelude.Int.{ℤ}
use marpa_wrapper.World.{Ptr, null, marpa, g_precompute, reader_callback, Trace, Env}
use marpa_wrapper.Wrapper.{Wrapper, to_size}
use marpa_wrapper.Wrapper.Events.{Sorter}
use marpa_wrapper.Wrapper.Events.Frame.{event-state}
use marpa_wrapper.Wrapper.Recognizer.{
  alternative, expected_blocks, terminals_expected, read, precompute, start,
}
use marpa_wrapper.Wrapper.Recognizer.Phase.{start_lem, terminals_expected-IsPaired}
use marpa_wrapper.Wrapper.Recognize.{
  RecognizerOption, PtrSorter, sort_expected, round, read_all, recognize,
}
use marpa_wrapper.Wrapper.Life.Frames.{
  alternative-state, complete-state, sort_expected-Keeps, feed-Keeps,
}
use marpa_wrapper.Wrapper.Life.Sound.{IsSound, Keeps-IsSound}

pub same-IsSound : (w w' : Wrapper) → w' ≡ w → IsSound w → IsSound w'
same-IsSound w w' e s = rw e s

module _ (env : Env) where
  expected_blocks-tables :
      (w : Wrapper) (t : Trace)
      → ((expected_blocks env w t).1.symbols ≡ w.symbols)
        × ((expected_blocks env w t).1.rules ≡ w.rules)
  unfolding expected_blocks
  expected_blocks-tables w t = ground arith

  terminals_expected-tables :
      (w : Wrapper) (t : Trace)
      → ((terminals_expected env w t).1.symbols ≡ w.symbols)
        × ((terminals_expected env w t).1.rules ≡ w.rules)
  unfolding terminals_expected
  terminals_expected-tables w t = ground (arith, expected_blocks-tables w t)

  pub terminals_expected-IsSound :
      (w : Wrapper) (t : Trace) → IsSound w → IsSound (terminals_expected env w t).1
  terminals_expected-IsSound w t s = record {
    symbols = rw (terminals_expected-tables w t).0 s.symbols;
    rules = rw (terminals_expected-tables w t).1 s.rules;
    paired = terminals_expected-IsPaired env w t s.paired;
  }

  pub start-IsSound :
      (qsort : Sorter) (w : Wrapper) (t : Trace) → IsSound w → IsSound (start env qsort w t).1
  start-IsSound qsort w t s = go (start env qsort w t).1 (start_lem env qsort w t s.paired).0
    where
      go :
          (w' : Wrapper)
          → w'
            ≡ record w { recognizer = w'.recognizer; expected_ids = null; expected_symbols = null }
          → IsSound w'
      go w' e = record {
        symbols = rw (ap (λ (u : Wrapper). u.symbols) e) s.symbols;
        rules = rw (ap (λ (u : Wrapper). u.rules) e) s.rules;
        paired = record {
          together = (
            λ _. ap (λ (u : Wrapper). u.expected_symbols) e,
            λ _. ap (λ (u : Wrapper). u.expected_ids) e,
          );
          owned = λ _. ap (λ (u : Wrapper). u.expected_ids) e;
        };
      }

  module _ (qsort : Sorter) (qsort_ptr : PtrSorter) (o : RecognizerOption) where
    round-IsSound :
        (length : ℤ) (w : Wrapper) (t : Trace)
        → IsSound w
        → IsSound (round env qsort qsort_ptr o length w t).1
    unfolding round
    round-IsSound length w t s = elim (Option-cases count.0) [
      | inl e ↦ same-IsSound count.1 _ (ground arith) sound
      | inr (n, e) ↦
          Keeps-IsSound (sorted n).1 _
            (ground (
              arith,
              feed-Keeps env qsort qsort_ptr o length (sorted n).0 (sorted n).1 (sorted n).2,
            ))
            (Keeps-IsSound count.1 (sorted n).1
              (sort_expected-Keeps env qsort qsort_ptr o (to_size n) count.1 count.2) sound)
    ]
      where
        count : Option ℤ × Wrapper × Trace
        count = terminals_expected env w t

        sound : IsSound count.1
        sound = terminals_expected-IsSound w t s

        sorted : ℤ → List Ptr × Wrapper × Trace
        sorted n = sort_expected env qsort qsort_ptr o (to_size n) count.1 count.2

    read_all-IsSound :
        (rounds : ℕ) (length : ℤ) (w : Wrapper) (t : Trace)
        → IsSound w
        → IsSound (read_all env qsort qsort_ptr rounds o length w t).1
    unfolding read_all
    read_all-IsSound zero length w t s = s
    read_all-IsSound (suc rounds) length w t s = elim (Option-cases first.0) [
      | inl e ↦ ground (arith, sound)
      | inr (next, e) ↦ ground (arith, read_all-IsSound rounds next first.1 first.2 sound)
    ]
      where
        first : Option ℤ × Wrapper × Trace
        first = round env qsort qsort_ptr o length w (reader_callback o.reader ∷ t)

        sound : IsSound first.1
        sound = round-IsSound length w (reader_callback o.reader ∷ t) s

    pub recognize-IsSound :
        (rounds : ℕ) (length : ℤ) (w : Wrapper) (t : Trace)
        → IsSound w
        → IsSound (recognize env qsort qsort_ptr rounds o length w t).1
    unfolding recognize
    recognize-IsSound rounds length w t s = ground (
      arith,
      start-IsSound qsort w t s,
      read_all-IsSound rounds length (start env qsort w t).1 (start env qsort w t).2,
    )

  pub read-state :
      (qsort : Sorter) (p : Ptr) (value length : ℤ) (w : Wrapper) (t : Trace)
      → (read env qsort p value length w t).1 ≡ w
  unfolding read
  read-state qsort p value length w t = ground (
    arith,
    alternative-state env p value length w t,
    complete-state env qsort (alternative env p value length w t).1
        (alternative env p value length w t).2,
  )

  pub precompute-state :
      (qsort : Sorter) (w : Wrapper) (t : Trace) → (precompute env qsort w t).1 ≡ w
  unfolding precompute
  precompute-state qsort w t =
      ground (arith, event-state env qsort w (marpa (g_precompute w.grammar) ∷ t))
