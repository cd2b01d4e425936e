-- ===== src/Wrapper/Recognize/Ends.antt =====
-- That the generic recognizer loop returns when the reader has no more input.
use marpa_wrapper.Prelude.{
  ℕ, zero, suc, ◌+◌, ◌≤◌, ◌<◌, ◌≡◌, ◌≢◌, refl, inl, inr, Bool, true, false, Option, none, arith,
  Bool-cases, Option-cases, List, ◌∷◌,
}
use marpa_wrapper.Prelude.Int.{ℤ, pos, eqb_ℤ}
use marpa_wrapper.World.{Ptr, Trace, Env, reader_callback}
use marpa_wrapper.Wrapper.{Wrapper, to_size}
use marpa_wrapper.Wrapper.Events.{Sorter}
use marpa_wrapper.Wrapper.Recognizer.{terminals_expected, start}
use marpa_wrapper.Wrapper.Recognize.{
  RecognizerOption, PtrSorter, running, check, sort_expected, push_matches, feed, round, read_all,
  verdict, recognize,
}
use marpa_wrapper.Wrapper.Recognize.Reads.{
  reads, counted, counted-terminals_expected, counted-check, counted-push, counted-complete,
  counted-start,
}

-- A reader that has been asked `n` times has no more input.
pub record EndsAfter (env : Env) (reader : Ptr) (n : ℕ) : Type 0 where
  pub no_more :
      (t : Trace) → n ≤ reads t → eqb_ℤ (env.value t (reader_callback reader)) (pos 1) ≡ false

module _ (env : Env) (qsort : Sorter) (qsort_ptr : PtrSorter) (o : RecognizerOption) where
  pub counted-push_matches :
      (which : Bool) (length : ℤ) (ps : List Ptr) (w : Wrapper) (t : Trace)
      → counted which (push_matches env qsort qsort_ptr o length ps w t).2 ≡ counted which t
  unfolding push_matches
  counted-push_matches which length ps w t = ground (
    arith,
    counted-check which env o.longest ps 0 w t,
    counted-push which env o checked.0 ps (pos 0, length) checked.1 checked.2,
  )
    where
      checked : ℕ × Wrapper × Trace
      checked = check env o.longest ps 0 w t

  reads-feed :
      (length : ℤ) (ps : List Ptr) (w : Wrapper) (t : Trace)
      → reads (feed env qsort qsort_ptr o length ps w t).2 ≡ reads t
  unfolding feed
  reads-feed length ps w t = elim (Option-cases pushed.0) [
    | inl e ↦ ground (arith, counted-push_matches true length ps w t)
    | inr (lexeme, e) ↦ ground (
      arith,
      counted-push_matches true length ps w t,
      counted-complete true env qsort pushed.1 pushed.2,
    )
  ]
    where
      pushed : Option (ℤ × ℤ) × Wrapper × Trace
      pushed = push_matches env qsort qsort_ptr o length ps w t

  reads-sort_expected :
      (n : ℕ) (w : Wrapper) (t : Trace)
      → reads (sort_expected env qsort qsort_ptr o n w t).2 ≡ reads t
  unfolding sort_expected
  reads-sort_expected n w t = refl

  pub reads-round :
      (length : ℤ) (w : Wrapper) (t : Trace)
      → reads (round env qsort qsort_ptr o length w t).2 ≡ reads t
  unfolding round
  reads-round length w t = elim (Option-cases counted.0) [
    | inl e ↦ ground (arith, counted-terminals_expected true env w t)
    | inr (n, e) ↦
        let sorted : List Ptr × Wrapper × Trace =
          sort_expected env qsort qsort_ptr o (to_size n) counted.1 counted.2 in
        ground (
          arith,
          counted-terminals_expected true env w t,
          reads-sort_expected (to_size n) counted.1 counted.2,
          reads-feed length sorted.0 sorted.1 sorted.2,
        )
  ]
    where
      counted : Option ℤ × Wrapper × Trace
      counted = terminals_expected env w t

  read_all-EndsAfter :
      (n rounds : ℕ) (length : ℤ) (w : Wrapper) (t : Trace)
      → EndsAfter env o.reader n
      → reads t ≤ n
      → n < rounds + reads t
      → (read_all env qsort qsort_ptr rounds o length w t).0 ≢ running
  unfolding read_all
  read_all-EndsAfter n zero length w t ends few enough = absurd (omega arith)
  read_all-EndsAfter n (suc rounds) length w t ends few enough =
      elim (Bool-cases (eqb_ℤ (env.value t (reader_callback o.reader)) (pos 1))) [
        | inr over ↦ ground arith
        | inl more ↦ elim (Option-cases first.0) [
          | inl e ↦ ground arith
          | inr (next, e) ↦ ground (
            arith,
            ends.no_more t,
            reads-round length w (reader_callback o.reader ∷ t),
            read_all-EndsAfter n rounds next first.1 first.2 ends,
          )
        ]
      ]
    where
      first : Option ℤ × Wrapper × Trace
      first = round env qsort qsort_ptr o length w (reader_callback o.reader ∷ t)

  -- Where the reader has no more input once it was asked `n` times, and was asked at most `n` times so
  -- far, `marpaWrapper_r_recognizeb` returns: one round more than the reader can still be asked is
  -- enough, whatever the terminals, the lexemes and the events are.
  pub recognize-EndsAfter :
      (n rounds : ℕ) (length : ℤ) (w : Wrapper) (t : Trace)
      → EndsAfter env o.reader n
      → reads t ≤ n
      → n < rounds + reads t
      → (recognize env qsort qsort_ptr rounds o length w t).0 ≢ none
  unfolding recognize verdict
  recognize-EndsAfter n rounds length w t ends few enough = elim (Bool-cases started.0) [
    | inr refused ↦ ground arith
    | inl ok ↦ ground (
      arith,
      counted-start true env qsort w t,
      read_all-EndsAfter n rounds length started.1 started.2 ends,
    )
  ]
    where
      started : Bool × Wrapper × Trace
      started = start env qsort w t
