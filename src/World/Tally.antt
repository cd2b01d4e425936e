-- ===== src/World/Tally.antt =====
-- Counting the calls of libmarpa in a trace, each by what it was answered: `f t c` is what call `c`
-- after trace `t` counts for.
use marpa_wrapper.Prelude.{ℕ, ◌+◌, [], ◌∷◌}
use marpa_wrapper.World.{MarpaCall, marpa, Call, Trace}

abbrev pub Weight : Type 0
Weight = Trace → MarpaCall → ℕ

abbrev pub weigh : Weight → Trace → Call → ℕ
weigh f t (marpa c) = f t c
weigh f t _ = 0

abbrev pub tally : Weight → Trace → ℕ
tally f [] = 0
tally f (c ∷ t) = weigh f t c + tally f t
