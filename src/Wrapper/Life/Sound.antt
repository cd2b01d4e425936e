-- ===== src/Wrapper/Life/Sound.antt =====
-- The invariant of `struct marpaWrapper` of src/marpaWrapper.c.
use marpa_wrapper.Buf.Valid
use marpa_wrapper.Wrapper.{Wrapper}
use marpa_wrapper.Wrapper.Recognizer.Phase.{IsPaired}
use marpa_wrapper.Wrapper.Life.Frames.{Keeps}

-- Both tables are valid arrays, and the blocks of expected symbols are there or not, both.
pub record IsSound (w : Wrapper) : Type 0 where
  pub symbols : Valid.IsValid w.symbols
  pub rules : Valid.IsValid w.rules
  pub paired : IsPaired w

pub Keeps-IsSound : (w w' : Wrapper) → Keeps w w' → IsSound w → IsSound w'
Keeps-IsSound w w' k s = record {
  symbols = rw k.symbols s.symbols;
  rules = rw k.rules s.rules;
  paired = record {
    together = rw (k.expected_ids, k.expected_symbols) s.paired.together;
    owned = rw (k.expected_ids, k.recognizer) s.paired.owned;
  };
}
