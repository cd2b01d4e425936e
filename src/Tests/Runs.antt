-- ===== src/Tests/Runs.antt =====
-- The theorems on events and on the recognizer at a wrapper with two symbols.
use marpa_wrapper.Prelude.{
  ◌+◌, ◌≡◌, ◌≢◌, inl, inr, refl, List, [], ◌∷◌, false, not, some, arith, ◌==◌, if◌then◌else◌,
}
use marpa_wrapper.Prelude.Int.{pos, mul_size, ◌+ℤ◌}
use marpa_wrapper.World.{malloc, free, Trace, marpa, g_event_count, event_callback}
use marpa_wrapper.World.Frees.{frees}
use marpa_wrapper.Wrapper.{Wrapper, completed, nulled}
use marpa_wrapper.Wrapper.Events.{Event, Sorter, event_cmp, arrange, event, sizeof_event}
use marpa_wrapper.Wrapper.Events.Digest.{
  Reports, any_stops, events_of, event_returns, event_delivers,
}
use marpa_wrapper.Wrapper.Events.Order.{event_cmp-IsFlag}
use marpa_wrapper.Wrapper.Events.Memory.{frees-event}
use marpa_wrapper.Wrapper.Recognizer.{terminals_expected, expected_blocks}
use marpa_wrapper.Wrapper.Recognizer.Phase.{IsPaired}
use marpa_wrapper.Tests.{world, small, event_types, event_values}

-- A sorter that leaves the order as it is.
abbrev same_order : Sorter
same_order cmp events = events

abbrev two_symbols : Wrapper
two_symbols = record small {
  recognizer = 9;
  symbols = record (small.symbols) {
    block = 80;
    bytes = 16;
    slots = 3 ∷ 4 ∷ [];
    size = 2;
    used = 2;
  };
  option = record (small.option) { event = some 5 };
}

world-Reports : Reports world 7 event_types event_values
world-Reports = record { type_of = λ t i. refl; value_of = λ t i. refl }

abbrev counted : Trace
counted = marpa (g_event_count 7) ∷ []

event_returns_example :
    ((event world same_order two_symbols []).0
      ≡ not (any_stops false (3 ∷ 4 ∷ []) event_types event_values 2 0))
    × ((event world same_order two_symbols []).1 ≡ two_symbols)
event_returns_example =
    event_returns world same_order event_types event_values 2 two_symbols [] world-Reports refl
      (omega arith)

abbrev both : List Event
both = events_of false (3 ∷ 4 ∷ []) event_types event_values 2 0

both_some : both ≢ []
both_some e = ground arith

event_delivers_example :
    (before : Trace) × ((event world same_order two_symbols []).2
      ≡ free (world.address counted (malloc (mul_size 2 sizeof_event)))
        ∷ event_callback 5 (arrange world same_order false both)
        ∷ before)
event_delivers_example =
    event_delivers world same_order event_types event_values 2 5 two_symbols [] world-Reports refl
      (omega arith) refl refl both_some

event_cmp-IsFlag_example : event_cmp (completed, 3) (nulled, 4) ≡ pos 0
event_cmp-IsFlag_example = event_cmp-IsFlag (completed, 3) (nulled, 4) (inl refl) (inr (inl refl))

frees-event_example :
    frees 101 (event world same_order two_symbols []).2
    ≡ (if world.address counted (malloc (mul_size 2 sizeof_event)) == 101 then 1 else 0)
      + frees 101 []
frees-event_example = frees-event world same_order 101 2 two_symbols [] refl (omega arith)

-- the same with the blocks of expected symbols
abbrev expecting : Wrapper
expecting = record two_symbols { expected_ids = 21; expected_symbols = 22 }

expecting-IsPaired : IsPaired expecting
expecting-IsPaired = record { together = ground arith; owned = λ idle. ground arith }

two_expected : (terminals_expected world two_symbols []).0 ≡ some (pos 2)
unfolding terminals_expected expected_blocks ◌+ℤ◌
two_expected = refl
