-- ===== src/Wrapper/Recognize/Rounds.antt =====
-- The number of rounds that the loop over the reader is given.
use marpa_wrapper.Prelude.{
  ℕ, zero, suc, ◌+◌, ◌≡◌, ◌≢◌, refl, inl, inr, Bool, Option, none, arith, Bool-cases, Option-cases,
  ◌∷◌,
}
use marpa_wrapper.Prelude.Int.{ℤ, pos, eqb_ℤ}
use marpa_wrapper.World.{Trace, Env, reader_callback}
use marpa_wrapper.Wrapper.{Wrapper}
use marpa_wrapper.Wrapper.Events.{Sorter}
use marpa_wrapper.Wrapper.Recognizer.{start}
use marpa_wrapper.Wrapper.Recognize.{
  RecognizerOption, PtrSorter, running, round, read_all, verdict, recognize,
}

module _ (env : Env) (qsort : Sorter) (qsort_ptr : PtrSorter) (o : RecognizerOption) where
  read_all_more :
      (rounds extra : ℕ) (length : ℤ) (w : Wrapper) (t : Trace)
      → (read_all env qsort qsort_ptr rounds o length w t).0 ≢ running
      → read_all env qsort qsort_ptr (rounds + extra) o length w t
        ≡ read_all env qsort qsort_ptr rounds o length w t
  unfolding read_all
  read_all_more zero extra length w t done = absurd (done refl)
  read_all_more (suc rounds) extra length w t done =
      let e : suc rounds + extra ≡ suc (rounds + extra) = omega arith in
      rw e (elim (Bool-cases (eqb_ℤ (env.value t (reader_callback o.reader)) (pos 1))) [
        | inr over ↦ ground arith
        | inl more ↦ elim (Option-cases first.0) [
          | inl e ↦ ground arith
          | inr (next, e) ↦ ground (arith, read_all_more rounds extra next first.1 first.2)
        ]
      ])
    where
      first : Option ℤ × Wrapper × Trace
      first = round env qsort qsort_ptr o length w (reader_callback o.reader ∷ t)

  -- Once `marpaWrapper_r_recognizeb` has returned within a number of rounds, more rounds change
  -- nothing: neither what it returns, nor the wrapper, nor the calls.
  pub recognize_more :
      (rounds extra : ℕ) (length : ℤ) (w : Wrapper) (t : Trace)
      → (recognize env qsort qsort_ptr rounds o length w t).0 ≢ none
      → recognize env qsort qsort_ptr (rounds + extra) o length w t
        ≡ recognize env qsort qsort_ptr rounds o length w t
  unfolding recognize verdict
  recognize_more rounds extra length w t done = elim (Bool-cases started.0) [
    | inr refused ↦ ground arith
    | inl ok ↦ ground (arith, read_all_more rounds extra length started.1 started.2)
  ]
    where
      started : Bool × Wrapper × Trace
      started = start env qsort w t
