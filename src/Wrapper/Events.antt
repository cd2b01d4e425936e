-- ===== src/Wrapper/Events.antt =====
-- The events of libmarpa: `_marpaWrapper_event`, `_marpaWrapper_event_cmp` and
-- `_marpaWrapper_event_weight` of src/marpaWrapper.c. The constants are those of
-- libmarpa-dist/marpa.h.
pub mod Digest
pub mod Order
pub mod Memory
pub mod Frame
use Prim.Native.String.{String}
use marpa_wrapper.Prelude.{
  ℕ, zero, suc, ◌+◌, ◌*◌, Bool, true, false, not, ◌&&◌, ◌||◌, Option, none, some, List, [], ◌∷◌,
  ◌++◌, ltb, ◌==◌, if◌then◌else◌, get_or, length,
}
use marpa_wrapper.Prelude.Int.{ℤ, pos, negsuc, pos_part, eqb_ℤ, ltb_ℤ, is_negative, mul_size}
use marpa_wrapper.World.{
  Ptr, null, malloc, free, marpa, g_event_count, g_event, g_event_value, event_callback, Trace, Env,
  M, pure, ◌>>=◌, ◌>>◌, get_state, emit, ask_int, ask_pointer,
}
use marpa_wrapper.Wrapper.{
  at_id, Wrapper, completed, nulled, predicted, log_g_error, log_sys_error, log_error, log_warning,
  log_info, log_notice, to_size,
}

-- `marpaWrapperEvent_t`: the flag of its type, and the symbol
abbrev pub Event : Type 0
Event = ℕ × Ptr

abbrev pub event_none : ℤ
event_none = pos 0

abbrev pub event_counted_nullable : ℤ
event_counted_nullable = pos 1

abbrev pub event_earley_item_threshold : ℤ
event_earley_item_threshold = pos 2

abbrev pub event_exhausted : ℤ
event_exhausted = pos 3

abbrev pub event_loop_rules : ℤ
event_loop_rules = pos 4

abbrev pub event_nulling_terminal : ℤ
event_nulling_terminal = pos 5

abbrev pub event_symbol_completed : ℤ
event_symbol_completed = pos 6

abbrev pub event_symbol_expected : ℤ
event_symbol_expected = pos 7

abbrev pub event_symbol_nulled : ℤ
event_symbol_nulled = pos 8

abbrev pub event_symbol_predicted : ℤ
event_symbol_predicted = pos 9

-- What the `switch` of `_marpaWrapper_event` does with a type of event.
pub data Kind : Type 0 where
  ignored : Kind
  warns : String → Kind
  fatal : String → Kind
  informs : String → Kind
  subscribed : ℕ → Kind
  unsupported : Kind

pub kind_of : ℤ → Kind
kind_of i =
    if eqb_ℤ i event_none
    then ignored
    else if eqb_ℤ i event_counted_nullable
    then fatal "This symbol is a counted nullable"
    else if eqb_ℤ i event_earley_item_threshold
    then warns "Too many Earley items"
    else if eqb_ℤ i event_exhausted
    then informs "Recognizer is exhausted"
    else if eqb_ℤ i event_loop_rules
    then warns "Grammar contains a infinite loop"
    else if eqb_ℤ i event_nulling_terminal
    then fatal "This symbol is a nulling terminal"
    else if eqb_ℤ i event_symbol_completed
    then subscribed completed
    else if eqb_ℤ i event_symbol_nulled
    then subscribed nulled
    else if eqb_ℤ i event_symbol_expected
    then subscribed predicted
    else if eqb_ℤ i event_symbol_predicted
    then subscribed predicted
    else unsupported

-- `_marpaWrapper_event_weight`, a `switch` over the constants of libmarpa
pub event_weight : ℤ → ℤ
event_weight i =
    if eqb_ℤ i event_symbol_completed
    then negsuc 0
    else if eqb_ℤ i event_symbol_nulled
    then pos 0
    else if eqb_ℤ i event_symbol_expected || eqb_ℤ i event_symbol_predicted
    then pos 1
    else pos 0

-- `_marpaWrapper_event_cmp`: the weights of the flags that the events carry
pub event_cmp : Event → Event → ℤ
event_cmp a b =
    let rc1 = event_weight (pos a.0) in
    let rc2 = event_weight (pos b.0) in
    if ltb_ℤ rc1 rc2 then negsuc 0 else if ltb_ℤ rc2 rc1 then pos 1 else pos 0

-- `qsort` of the C library on an array of events.
abbrev pub Sorter : Type 0
Sorter = (Event → Event → ℤ) → List Event → List Event

-- sizeof(marpaWrapperEvent_t)
abbrev pub sizeof_event : ℕ
sizeof_event = 16

module _ (env : Env) where
  -- What is done with an event, by its kind: `none` is the return of FALSE, else the events that are
  -- added to the array.
  unfoldable pub handle : ℕ → Kind → M Wrapper (Option (List Event))
  handle i ignored = pure (some [])
  handle i (warns text) = do
    w ← get_state
    if w.option.warning_is_error
        then log_error text >> pure none
        else log_warning text >> pure (some [])
  handle i (fatal text) = log_error text >> pure none
  handle i (informs text) = log_info text >> pure none
  handle i (subscribed flag) = do
    w ← get_state
    value ← ask_int env (marpa (g_event_value i))
    pure (some ((flag, at_id w.symbols.slots value) ∷ []))
  handle i unsupported =
      log_notice "marpa_g_event_value() returns unsupported event type" >> pure (some [])

  -- One round of the loop.
  unfoldable pub event_step : ℕ → M Wrapper (Option (List Event))
  event_step i = do
    w ← get_state
    type ← ask_int env (marpa (g_event w.grammar i))
    if is_negative type then log_g_error env w.grammar >> pure none else handle i (kind_of type)

  -- The loop from event `i` on, with the events that it has in the array.
  unfoldable pub collect : ℕ → ℕ → List Event → M Wrapper (Option (List Event))
  collect zero i events = pure (some events)
  collect (suc rounds) i events = do
    added ← event_step i
    elim added [ none ↦ pure none | some more ↦ collect rounds (i + 1) (events ++ more) ]

module _ (env : Env) (qsort : Sorter) where
  -- The events in the order in which they are handed over.
  pub arrange : Bool → List Event → List Event
  arrange unsorted events =
      if ltb 1 (length events) && not unsorted then qsort event_cmp events else events

  -- What follows the loop: the callback, if there is an event and a callback.
  unfoldable pub deliver : List Event → M Wrapper (Unit {0})
  deliver events = do
    w ← get_state
    if ltb 0 (length events)
        then (elim w.option.event [
          | none ↦ pure tt
          | some user ↦ emit (event_callback user (arrange w.option.unsorted_events events))
        ])
        else pure tt

  -- `_marpaWrapper_event`
  unfoldable pub event : M Wrapper Bool
  event = do
    w ← get_state
    count ← ask_int env (marpa (g_event_count w.grammar))
    if is_negative count then pure true else (do
      block ← ask_pointer env (malloc (mul_size (pos_part count) sizeof_event))
      if block == null then log_sys_error env "malloc()" >> pure false else (do
        events ← collect env (pos_part count) 0 []
        elim events [
          | none ↦ emit (free block) >> pure false
          | some found ↦ do deliver found; emit (free block); pure true
        ]))
