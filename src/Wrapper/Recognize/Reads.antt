-- ===== src/Wrapper/Recognize/Reads.antt =====
-- How often the operations of a round ask the reader, which is not at all, and how often they complete
-- an earleme of libmarpa, which only a completion does.
use marpa_wrapper.Prelude.{
  ℕ, zero, suc, ◌+◌, ◌≡◌, refl, inl, inr, Bool, true, false, ◌||◌, if◌then◌else◌, Option, arith,
  Bool-cases, Option-cases, List, [], ◌∷◌, ◌++◌, ◌==◌,
}
use marpa_wrapper.Prelude.Int.{ℤ, pos_part, mul_size}
use marpa_wrapper.World.{
  Ptr, null, Trace, Env, Call, reader_callback, marpa, malloc, g_event_count, g_event,
  r_earleme_complete, r_new, r_start_input, lexeme_value_callback,
}
use marpa_wrapper.Wrapper.{Wrapper}
use marpa_wrapper.Wrapper.Events.{
  Event, Sorter, Kind, kind_of, handle, event_step, collect, deliver, event, sizeof_event,
}
use marpa_wrapper.Wrapper.Recognizer.{
  alternative, expected_blocks, terminals_expected, complete, start, drop_recognizer, not_started,
}
use marpa_wrapper.Wrapper.Recognize.{RecognizerOption, check_one, check, push_one, push}

-- one for a call that asks a reader, or for one that completes an earleme
abbrev pub is_counted : Call → (which : Bool) → ℕ
is_counted (reader_callback _) true = 1
is_counted (reader_callback _) false = 0
is_counted (marpa (r_earleme_complete _)) true = 0
is_counted (marpa (r_earleme_complete _)) false = 1
is_counted _ which = 0

abbrev pub counted : (which : Bool) → Trace → ℕ
counted which [] = 0
counted which (c ∷ t) = is_counted c which + counted which t

-- how often a trace has asked a reader, and how often it has completed an earleme
abbrev pub reads : Trace → ℕ
reads = counted true

abbrev pub completions : Trace → ℕ
completions = counted false

module _ (which : Bool) (env : Env) where
  counted-alternative :
      (p : Ptr) (value length : ℤ) (w : Wrapper) (t : Trace)
      → counted which (alternative env p value length w t).2 ≡ counted which t
  unfolding alternative
  counted-alternative p value length w t = ground arith

  counted-expected_blocks :
      (w : Wrapper) (t : Trace) → counted which (expected_blocks env w t).2 ≡ counted which t
  unfolding expected_blocks
  counted-expected_blocks w t = ground arith

  pub counted-terminals_expected :
      (w : Wrapper) (t : Trace) → counted which (terminals_expected env w t).2 ≡ counted which t
  unfolding terminals_expected
  counted-terminals_expected w t = ground (arith, counted-expected_blocks w t)

  pub counted-check :
      (latm : Bool) (ps : List Ptr) (n : ℕ) (w : Wrapper) (t : Trace)
      → counted which (check env latm ps n w t).2 ≡ counted which t
  unfolding check check_one
  counted-check latm [] n w t = refl
  counted-check latm (p ∷ ps) n w t = ground (
    arith,
    counted-check latm ps (check_one env latm p n w t).0 (check_one env latm p n w t).1
        (check_one env latm p n w t).2,
  )

  counted-push_one :
      (o : RecognizerOption) (n : ℕ) (p : Ptr) (lexeme : ℤ × ℤ) (w : Wrapper) (t : Trace)
      → counted which (push_one env o n p lexeme w t).2 ≡ counted which t
  unfolding push_one
  counted-push_one o n p (value, length) w t = ground (
    arith,
    counted-alternative p value length w t,
    counted-alternative p (env.output t c 0) (env.output t c 1) w (c ∷ t),
  )
    where
      c : Call
      c = lexeme_value_callback (w.symbol_at p).option.user

  pub counted-push :
      (o : RecognizerOption) (n : ℕ) (ps : List Ptr) (lexeme : ℤ × ℤ) (w : Wrapper) (t : Trace)
      → counted which (push env o n ps lexeme w t).2 ≡ counted which t
  unfolding push
  counted-push o n [] lexeme w t = refl
  counted-push o n (p ∷ ps) lexeme w t = elim (Option-cases first.0) [
    | inl e ↦ ground (arith, counted-push_one o n p lexeme w t)
    | inr (next, e) ↦
        ground (arith, counted-push_one o n p lexeme w t, counted-push o n ps next first.1 first.2)
  ]
    where
      first : Option (ℤ × ℤ) × Wrapper × Trace
      first = push_one env o n p lexeme w t

  counted-handle :
      (i : ℕ) (k : Kind) (w : Wrapper) (t : Trace)
      → counted which (handle env i k w t).2 ≡ counted which t
  unfolding handle
  counted-handle i Kind.ignored w t = refl
  counted-handle i k w t = ground arith

  counted-event_step :
      (i : ℕ) (w : Wrapper) (t : Trace) → counted which (event_step env i w t).2 ≡ counted which t
  unfolding event_step
  counted-event_step i w t = ground (
    arith,
    counted-handle i (kind_of (env.value t (marpa (g_event w.grammar i)))) w
        (marpa (g_event w.grammar i) ∷ t),
  )

  counted-collect :
      (n i : ℕ) (found : List Event) (w : Wrapper) (t : Trace)
      → counted which (collect env n i found w t).2 ≡ counted which t
  unfolding collect
  counted-collect zero i found w t = refl
  counted-collect (suc n) i found w t = elim (Option-cases (event_step env i w t).0) [
    | inl e ↦ ground (arith, counted-event_step i w t)
    | inr (more, e) ↦ ground (
      arith,
      counted-event_step i w t,
      counted-collect n (i + 1) (found ++ more) (event_step env i w t).1 (event_step env i w t).2,
    )
  ]

module _ (which : Bool) (env : Env) (qsort : Sorter) where
  counted-event :
      (w : Wrapper) (t : Trace) → counted which (event env qsort w t).2 ≡ counted which t
  unfolding event deliver
  counted-event w t = ground (
    arith,
    counted-collect which env (pos_part count) 0 [] w
        (malloc (mul_size (pos_part count) sizeof_event) ∷ marpa (g_event_count w.grammar) ∷ t),
  )
    where
      count : ℤ
      count = env.value t (marpa (g_event_count w.grammar))

  -- A completion asks no reader, and completes an earleme unless the recognizer is not started.
  pub counted-complete :
      (w : Wrapper) (t : Trace)
      → counted which (complete env qsort w t).2
        ≡ (if not_started w || which then 0 else 1) + counted which t
  unfolding complete
  counted-complete w t =
      ground (arith, counted-event w (marpa (r_earleme_complete w.recognizer) ∷ t))

  counted-drop_recognizer :
      (w : Wrapper) (t : Trace) → counted which (drop_recognizer env qsort w t).2 ≡ counted which t
  unfolding drop_recognizer
  counted-drop_recognizer w t = elim (Bool-cases (w.recognizer == null)) [
    | inl none_yet ↦ rw none_yet (omega arith)
    | inr there ↦ elim (Bool-cases (w.expected_ids == null)) [
      | inl no_ids ↦ elim (Bool-cases (w.expected_symbols == null)) [
        | inl no_symbols ↦ rw (there, no_ids, no_symbols) (omega arith)
        | inr symbols ↦ rw (there, no_ids, symbols) (omega arith)
      ]
      | inr ids ↦ elim (Bool-cases (w.expected_symbols == null)) [
        | inl no_symbols ↦ rw (there, ids, no_symbols) (omega arith)
        | inr symbols ↦ rw (there, ids, symbols) (omega arith)
      ]
    ]
  ]

  pub counted-start :
      (w : Wrapper) (t : Trace) → counted which (start env qsort w t).2 ≡ counted which t
  unfolding start
  counted-start w t = ground (
    arith,
    counted-drop_recognizer w t,
    counted-event (record dropped { recognizer = given })
        (marpa (r_start_input given) ∷ marpa (r_new dropped.grammar) ∷ after),
  )
    where
      dropped : Wrapper
      dropped = (drop_recognizer env qsort w t).1

      after : Trace
      after = (drop_recognizer env qsort w t).2

      given : Ptr
      given = env.address after (marpa (r_new dropped.grammar))
