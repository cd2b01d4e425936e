-- ===== src/Wrapper/Events/Digest.antt =====
-- What `_marpaWrapper_event` makes of the events of libmarpa, against a description that has no
-- state: which events stop it, and which ones it hands over.
use marpa_wrapper.Prelude.{
  ℕ, zero, suc, ◌+◌, ◌≡◌, ◌≢◌, refl, inl, inr, Bool, true, false, not, ◌&&◌, ◌||◌, none, some, List,
  [], ◌∷◌, ◌++◌, arith, ltb, if◌then◌else◌, Bool-cases, length,
}
use marpa_wrapper.Prelude.Int.{ℤ, pos, eqb_ℤ, is_negative, mul_size}
use mathlib.Core.List.{append-nil, append_assoc}
use marpa_wrapper.World.{
  Ptr, null, Trace, Env, marpa, malloc, free, g_event_count, g_event, g_event_value, event_callback,
}
use marpa_wrapper.Wrapper.{at_id, Wrapper, completed, nulled, predicted}
use marpa_wrapper.Wrapper.Events.{
  Event, Sorter, kind_of, handle, event_step, collect, deliver, arrange, event, sizeof_event,
}

-- libmarpa answers for event `i` with type `types i` and value `values i`, whenever it is asked.
pub record Reports (env : Env) (grammar : Ptr) (types values : ℕ → ℤ) : Type 0 where
  pub type_of : (t : Trace) (i : ℕ) → env.value t (marpa (g_event grammar i)) ≡ types i
  pub value_of : (t : Trace) (i : ℕ) → env.value t (marpa (g_event_value i)) ≡ values i

-- An error, a counted nullable, an exhausted recognizer and a nulling terminal stop the collection;
-- the two warnings do where warnings are errors.
abbrev pub stops : Bool → ℤ → Bool
stops strict type =
    is_negative type
    || eqb_ℤ type (pos 1)
    || eqb_ℤ type (pos 3)
    || eqb_ℤ type (pos 5)
    || (strict && (eqb_ℤ type (pos 2) || eqb_ℤ type (pos 4)))

-- Types 6, 8, and 7 or 9 are a completion, a nulling and a prediction of a symbol.
abbrev pub event_of : List Ptr → ℤ → ℤ → List Event
event_of table type value =
    let symbol = at_id table value in
    if eqb_ℤ type (pos 6)
    then (completed, symbol) ∷ []
    else if eqb_ℤ type (pos 8)
    then (nulled, symbol) ∷ []
    else if eqb_ℤ type (pos 7) || eqb_ℤ type (pos 9)
    then (predicted, symbol) ∷ []
    else []

module _ (strict : Bool) (table : List Ptr) (types values : ℕ → ℤ) where
  -- the same of `n` events from event `i` on
  abbrev pub any_stops : ℕ → ℕ → Bool
  any_stops zero i = false
  any_stops (suc n) i = stops strict (types i) || any_stops n (i + 1)

  abbrev pub events_of : ℕ → ℕ → List Event
  events_of zero i = []
  events_of (suc n) i = event_of table (types i) (values i) ++ events_of n (i + 1)

module _ (env : Env) (types values : ℕ → ℤ) where
  event_step_lem :
      (i : ℕ) (w : Wrapper) (t : Trace)
      → Reports env w.grammar types values
      → ((event_step env i w t).0 ≡ (
          if stops w.option.warning_is_error (types i)
          then none
          else some (event_of w.symbols.slots (types i) (values i))))
        × ((event_step env i w t).1 ≡ w)
  unfolding event_step kind_of handle
  event_step_lem i w t r =
      ground (arith, r.type_of t i, r.value_of (marpa (g_event w.grammar i) ∷ t) i)

  collect_lem :
      (n i : ℕ) (found : List Event) (w : Wrapper) (t : Trace)
      → Reports env w.grammar types values
      → ((collect env n i found w t).0 ≡ (
          if any_stops w.option.warning_is_error w.symbols.slots types values n i
          then none
          else some
              (found ++ events_of w.option.warning_is_error w.symbols.slots types values n i)))
        × ((collect env n i found w t).1 ≡ w)
  unfolding collect
  collect_lem zero i found w t r = (rw append-nil, refl)
  collect_lem (suc n) i found w t r =
      elim (Bool-cases (stops w.option.warning_is_error (types i))) [
        | inl stop ↦ rw stop (ground (arith, event_step_lem i w t r))
        | inr go ↦ rw go (
            ground (
              arith,
              event_step_lem i w t r,
              collect_lem n (i + 1) (found ++ more) w (event_step env i w t).2 r,
              append_assoc found more
                  (events_of w.option.warning_is_error w.symbols.slots types values n (i + 1)),
            ))
      ]
    where
      more : List Event
      more = event_of w.symbols.slots (types i) (values i)

module _ (env : Env) (qsort : Sorter) (types values : ℕ → ℤ) where
  -- Where libmarpa has `n` events, each with its type and value, and there is memory for the array,
  -- `_marpaWrapper_event` returns TRUE exactly if none of the events stops it, and leaves the
  -- wrapper as it was.
  pub event_returns :
      (n : ℕ) (w : Wrapper) (t : Trace)
      → Reports env w.grammar types values
      → env.value t (marpa (g_event_count w.grammar)) ≡ pos n
      → env.address (marpa (g_event_count w.grammar) ∷ t) (malloc (mul_size n sizeof_event)) ≢ null
      → ((event env qsort w t).0
          ≡ not (any_stops w.option.warning_is_error w.symbols.slots types values n 0))
        × ((event env qsort w t).1 ≡ w)
  unfolding event deliver
  event_returns n w t r count memory = ground (
    arith,
    count,
    collect_lem env types values n 0 [] w
        (malloc (mul_size n sizeof_event) ∷ marpa (g_event_count w.grammar) ∷ t) r,
  )

  -- In the same circumstances, where no event stops it, there is an event to hand over and a callback
  -- is set, the callback is called last but for the `free` of the array, with exactly the events of
  -- libmarpa that are subscribed, arranged.
  pub event_delivers :
      (n : ℕ) (user : Ptr) (w : Wrapper) (t : Trace)
      → Reports env w.grammar types values
      → env.value t (marpa (g_event_count w.grammar)) ≡ pos n
      → env.address (marpa (g_event_count w.grammar) ∷ t) (malloc (mul_size n sizeof_event)) ≢ null
      → w.option.event ≡ some user
      → any_stops w.option.warning_is_error w.symbols.slots types values n 0 ≡ false
      → events_of w.option.warning_is_error w.symbols.slots types values n 0 ≢ []
      → let found = events_of w.option.warning_is_error w.symbols.slots types values n 0 in
        (before : Trace) × ((event env qsort w t).2
          ≡ free
              (env.address (marpa (g_event_count w.grammar) ∷ t) (malloc (mul_size n sizeof_event)))
            ∷ event_callback user (arrange env qsort w.option.unsorted_events found)
            ∷ before)
  unfolding event deliver
  event_delivers n user w t r count memory set_up go some_found = (
    (collect env n 0 [] w start).2,
    ground (
      arith,
      count,
      collect_lem env types values n 0 [] w start r,
      nonempty (events_of w.option.warning_is_error w.symbols.slots types values n 0),
    ),
  )
    where
      start : Trace
      start = malloc (mul_size n sizeof_event) ∷ marpa (g_event_count w.grammar) ∷ t

      nonempty : (xs : List Event) → xs ≢ [] → ltb 0 (length xs) ≡ true
      nonempty [] ne = absurd (ne refl)
      nonempty (x ∷ xs) ne = ground arith
