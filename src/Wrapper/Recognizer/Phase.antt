-- ===== src/Wrapper/Recognizer/Phase.antt =====
-- The read phase: a start gives back what belonged to the recognizer before it, and the two blocks of
-- expected symbols come and go together.
use marpa_wrapper.Prelude.{
  ℕ, zero, suc, ◌+◌, ◌≡◌, ◌≢◌, ◌↔◌, ◌<◌, ◌⊎◌, refl, ap, inl, inr, false, some, List, ◌∷◌, ◌++◌,
  arith, ◌==◌, if◌then◌else◌, get_or, drop, Bool-cases,
}
use marpa_wrapper.Prelude.Int.{ℤ, pos}
use marpa_wrapper.World.{
  Ptr, null, Call, marpa, r_new, r_start_input, r_terminals_expected, Trace, Env,
}
use marpa_wrapper.World.Frees.{frees}
use marpa_wrapper.Wrapper.{at_id, Wrapper}
use marpa_wrapper.Wrapper.Events.{Sorter}
use marpa_wrapper.Wrapper.Events.Frame.{event-state}
use marpa_wrapper.Wrapper.Recognizer.{
  expected_blocks, looked_up, terminals_expected, drop_recognizer, start,
}

-- The blocks of expected symbols are there or not, both; and they belong to a recognizer.
pub record IsPaired (w : Wrapper) : Type 0 where
  pub together : (w.expected_ids ≡ null) ↔ (w.expected_symbols ≡ null)
  pub owned : w.recognizer ≡ null → w.expected_ids ≡ null

module _ (env : Env) where
  dropped :
      (qsort : Sorter) (w : Wrapper) (t : Trace)
      → IsPaired w
      → (drop_recognizer env qsort w t).1
        ≡ record w { expected_ids = null; expected_symbols = null }
  unfolding drop_recognizer
  dropped qsort w t paired = ground (arith, paired.owned, paired.together)

  -- `marpaWrapper_r_startb` on a wrapper with both blocks or none ends with neither, whether it
  -- succeeds or not; it returns TRUE only with a recognizer, the one that libmarpa gave last, and
  -- changes no other field.
  pub start_lem :
      (qsort : Sorter) (w : Wrapper) (t : Trace)
      → IsPaired w
      → let (ok, w', _) = start env qsort w t in
        (w' ≡ record w { recognizer = w'.recognizer; expected_ids = null; expected_symbols = null })
        × ((ok ≡ false) ⊎ (w'.recognizer ≢ null))
  unfolding start
  start_lem qsort w t paired = ground (
    arith,
    dropped qsort w t paired,
    event-state env qsort
        (record w { recognizer = given; expected_ids = null; expected_symbols = null })
        (marpa (r_start_input given) ∷ marpa (r_new w.grammar) ∷ after),
  )
    where
      after : Trace
      after = (drop_recognizer env qsort w t).2

      given : Ptr
      given = env.address after (marpa (r_new w.grammar))

  -- What a start gives back to `free` of the recognizer before: its two blocks.
  pub frees-drop_recognizer :
      (qsort : Sorter) (p : Ptr) (w : Wrapper) (t : Trace)
      → p ≢ null
      → w.recognizer ≢ null
      → (frees p (drop_recognizer env qsort w t).2
          ≡ (if w.expected_ids == p then 1 else 0)
            + (if w.expected_symbols == p then 1 else 0)
            + frees p t)
        × ((drop_recognizer env qsort w t).1
            ≡ record w { expected_ids = null; expected_symbols = null })
  unfolding drop_recognizer
  frees-drop_recognizer qsort p w t ne started = elim (Bool-cases (w.recognizer == null)) [
    | inl none_yet ↦ absurd (started (ground arith))
    | inr there ↦ elim (Bool-cases (w.expected_ids == null)) [
      | inl no_ids ↦ elim (Bool-cases (w.expected_symbols == null)) [
        | inl no_symbols ↦ rw (there, no_ids, no_symbols) (ground arith, refl)
        | inr symbols ↦ rw (there, no_ids, symbols) (ground arith, refl)
      ]
      | inr ids ↦ elim (Bool-cases (w.expected_symbols == null)) [
        | inl no_symbols ↦ rw (there, ids, no_symbols) (ground arith, refl)
        | inr symbols ↦ rw (there, ids, symbols) (omega arith, refl)
      ]
    ]
  ]

  expected_blocks-IsPaired :
      (w : Wrapper) (t : Trace)
      → w.recognizer ≢ null
      → IsPaired w
      → IsPaired (expected_blocks env w t).1
  unfolding expected_blocks
  expected_blocks-IsPaired w t started paired = ground arith

  -- `marpaWrapper_r_terminals_expectedb` keeps the blocks both or none, when memory runs out for the
  -- second too.
  pub terminals_expected-IsPaired :
      (w : Wrapper) (t : Trace) → IsPaired w → IsPaired (terminals_expected env w t).1
  unfolding terminals_expected
  terminals_expected-IsPaired w t paired = ground (arith, expected_blocks-IsPaired w t)

  looked_up-get :
      (w : Wrapper) (ids : ℕ → ℤ) (n i k : ℕ) (rest : List Ptr)
      → k < n
      → get_or (looked_up env w ids n i ++ rest) k null ≡ at_id w.symbols.slots (ids (i + k))
  looked_up-get w ids zero i k rest lt = absurd (omega arith)
  looked_up-get w ids (suc n) i zero rest lt = let e : i + 0 ≡ i = omega arith in rw e
  looked_up-get w ids (suc n) i (suc k) rest lt =
      let e : i + suc k ≡ i + 1 + k = omega arith in
      rw e (looked_up-get w ids n (i + 1) k rest (omega arith))

  -- Each identifier that libmarpa expects is answered by the symbol in its slot of the table: after a
  -- `marpaWrapper_r_terminals_expectedb` that returns TRUE with `n` terminals, the first `n` pointers
  -- are the symbols of the identifiers that `marpa_r_terminals_expected` wrote.
  pub terminals_expected_lem :
      (n k : ℕ) (w : Wrapper) (t : Trace)
      → (terminals_expected env w t).0 ≡ some (pos n)
      → k < n
      → let (_, w1, t1) = expected_blocks env w t in
        let c = marpa (r_terminals_expected w1.recognizer w1.expected_ids) in
        get_or (terminals_expected env w t).1.expected k null
        ≡ at_id w1.symbols.slots (env.output t1 c k)
  unfolding terminals_expected
  terminals_expected_lem n k w t found lt = ground (
    arith,
    looked_up-get w1 (env.output t1 c) n 0 k (drop n w1.expected),
    ap (λ (j : ℕ). at_id w1.symbols.slots (env.output t1 c j)) start_at,
  )
    where
      w1 : Wrapper
      w1 = (expected_blocks env w t).1

      t1 : Trace
      t1 = (expected_blocks env w t).2

      c : Call
      c = marpa (r_terminals_expected w1.recognizer w1.expected_ids)

      start_at : 0 + k ≡ k
      start_at = omega arith
