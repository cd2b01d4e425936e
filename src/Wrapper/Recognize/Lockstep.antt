-- ===== src/Wrapper/Recognize/Lockstep.antt =====
-- That the generic recognizer of src/marpaWrapper.c completes one earleme of libmarpa for each input
-- that its reader gives.
use marpa_wrapper.Prelude.{
  ℕ, zero, suc, ◌+◌, ◌≤◌, ◌≡◌, refl, ◌∙◌, inl, inr, true, false, Option, none, some, arith,
  Bool-cases, Option-cases, List, ◌∷◌,
}
use marpa_wrapper.Prelude.Int.{ℤ, pos, eqb_ℤ}
use marpa_wrapper.World.{Ptr, Trace, Env, reader_callback}
use marpa_wrapper.Wrapper.{Wrapper, to_size}
use marpa_wrapper.Wrapper.Events.{Sorter}
use marpa_wrapper.Wrapper.Recognizer.{terminals_expected, complete}
use marpa_wrapper.Wrapper.Recognize.{
  RecognizerOption, PtrSorter, Reading, running, failed, ended, sort_expected, push_matches, feed,
  round, read_all,
}
use marpa_wrapper.Wrapper.Recognize.Reads.{
  reads, completions, counted-terminals_expected, counted-complete,
}
use marpa_wrapper.Wrapper.Recognize.Ends.{counted-push_matches, reads-round}

-- From trace `t` to trace `t'` as many earlemes were completed as inputs were read. The last question
-- to a reader that has ended gave none; the last input of a loop that failed may not be completed.
abbrev pub InStep : Reading → (t t' : Trace) → Type 0
InStep running t t' = completions t' + reads t ≡ completions t + reads t'
InStep (ended b) t t' = completions t' + 1 + reads t ≡ completions t + reads t'
InStep failed t t' =
    (completions t' + reads t ≤ completions t + reads t')
    × (completions t + reads t' ≤ completions t' + 1 + reads t)

-- One round completes an earleme, or fails.
abbrev Completes : Option ℤ → (t t' : Trace) → Type 0
Completes none t t' = (completions t ≤ completions t') × (completions t' ≤ completions t + 1)
Completes (some length) t t' = completions t' ≡ completions t + 1

shifted-Completes :
    (outcome : Option ℤ) (t t1 t' : Trace)
    → completions t1 ≡ completions t
    → Completes outcome t1 t'
    → Completes outcome t t'
shifted-Completes none t t1 t' same (least, most) = (omega arith, omega arith)
shifted-Completes (some length) t t1 t' same done = omega arith

-- one input more before
InStep-after :
    (outcome : Reading) (t t1 t' : Trace)
    → reads t1 ≡ reads t + 1
    → completions t1 ≡ completions t + 1
    → InStep outcome t1 t'
    → InStep outcome t t'
InStep-after running t t1 t' asked done rest = omega arith
InStep-after (ended b) t t1 t' asked done rest = omega arith
InStep-after failed t t1 t' asked done (most, least) = (omega arith, omega arith)

module _ (env : Env) (qsort : Sorter) (qsort_ptr : PtrSorter) (o : RecognizerOption) where
  completions-complete :
      (w : Wrapper) (t : Trace)
      → let (result, _, t') = complete env qsort w t in
        (completions t ≤ completions t')
        × (completions t' ≤ completions t + 1)
        × (result ≡ true → completions t' ≡ completions t + 1)
  unfolding complete
  completions-complete w t = ground (arith, counted-complete false env qsort w t)

  feed-Completes :
      (length : ℤ) (ps : List Ptr) (w : Wrapper) (t : Trace)
      → Completes
          (feed env qsort qsort_ptr o length ps w t).0
          t
          (feed env qsort qsort_ptr o length ps w t).2
  unfolding feed
  feed-Completes length ps w t = elim (Option-cases pushed.0) [
    | inl e ↦ ground (arith, none_yet)
    | inr (lexeme, e) ↦ elim (Bool-cases (complete env qsort pushed.1 pushed.2).0) [
      | inl done ↦ ground (arith, none_yet, completions-complete pushed.1 pushed.2)
      | inr refused ↦ ground (arith, none_yet, completions-complete pushed.1 pushed.2)
    ]
  ]
    where
      pushed : Option (ℤ × ℤ) × Wrapper × Trace
      pushed = push_matches env qsort qsort_ptr o length ps w t

      none_yet : completions pushed.2 ≡ completions t
      none_yet = counted-push_matches env qsort qsort_ptr o false length ps w t

  same_trace :
      (n : ℕ) (w : Wrapper) (t : Trace)
      → completions (sort_expected env qsort qsort_ptr o n w t).2 ≡ completions t
  unfolding sort_expected
  same_trace n w t = refl

  round-Completes :
      (length : ℤ) (w : Wrapper) (t : Trace)
      → Completes
          (round env qsort qsort_ptr o length w t).0
          t
          (round env qsort qsort_ptr o length w t).2
  unfolding round terminals_expected
  round-Completes length w t = elim (Option-cases expected.0) [
    | inl e ↦ ground (arith, none_yet)
    | inr (n, e) ↦
        let (ps, w1, t1) = sort_expected env qsort qsort_ptr o (to_size n) expected.1 expected.2 in
        rw e (
          shifted-Completes _ t t1 _ (same_trace (to_size n) expected.1 expected.2 ∙ none_yet)
            (feed-Completes length ps w1 t1))
  ]
    where
      expected : Option ℤ × Wrapper × Trace
      expected = terminals_expected env w t

      none_yet : completions expected.2 ≡ completions t
      none_yet = counted-terminals_expected false env w t

  -- The loop over the reader keeps in step with libmarpa: of every input that the reader gives one
  -- earleme is completed, no more and no less, whatever matches; only for the input at which the loop
  -- fails there may be none.
  pub read_all-InStep :
      (rounds : ℕ) (length : ℤ) (w : Wrapper) (t : Trace)
      → InStep
          (read_all env qsort qsort_ptr rounds o length w t).0
          t
          (read_all env qsort qsort_ptr rounds o length w t).2
  unfolding read_all
  read_all-InStep zero length w t = omega arith
  read_all-InStep (suc rounds) length w t =
      elim (Bool-cases (eqb_ℤ (env.value t (reader_callback o.reader)) (pos 1))) [
        | inr over ↦ ground arith
        | inl more ↦ elim (Option-cases first.0) [
          | inl e ↦ rw (more, e) (stopped e done)
          | inr (next, e) ↦
              rw (more, e)
                (InStep-after _ t first.2 _ asked (going_on next e done)
                  (read_all-InStep rounds next first.1 first.2))
        ]
      ]
    where
      first : Option ℤ × Wrapper × Trace
      first = round env qsort qsort_ptr o length w (reader_callback o.reader ∷ t)

      asked : reads first.2 ≡ reads t + 1
      asked =
          omega (arith, reads-round env qsort qsort_ptr o length w (reader_callback o.reader ∷ t))

      done : Completes first.0 (reader_callback o.reader ∷ t) first.2
      done = round-Completes length w (reader_callback o.reader ∷ t)

      stopped :
          first.0 ≡ none
          → Completes first.0 (reader_callback o.reader ∷ t) first.2
          → InStep failed t first.2
      stopped e = rw e (λ both. (omega (arith, asked, both.1), omega (arith, asked, both.0)))

      going_on :
          (next : ℤ)
          → first.0 ≡ some next
          → Completes first.0 (reader_callback o.reader ∷ t) first.2
          → completions first.2 ≡ completions t + 1
      going_on next e = rw e (λ one. omega (arith, one))
