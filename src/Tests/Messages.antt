-- ===== src/Tests/Messages.antt =====
-- The theorem on messages, at the error of a parse that fails.
use Prim.Native.String.{String}
use marpa_wrapper.Prelude.{◌≡◌, arith}
use marpa_wrapper.Prelude.Int.{ℤ}
use marpa_wrapper.Wrapper.Messages.Told.{marpa_message, named, named-marpa_message}

abbrev no_text : ℤ → String
no_text number = ""

named-marpa_message_example : named (marpa_message no_text 41) ≡ "MARPA_ERR_NO_PARSE"
named-marpa_message_example = named-marpa_message no_text 41 (omega arith)
