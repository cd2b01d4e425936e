-- ===== src/Wrapper/Messages/Told.antt =====
-- That a message tells which error of libmarpa occurred.
use Prim.Native.String.{String, len, slice, find}
use marpa_wrapper.Prelude.{
  ℕ, zero, suc, ◌+◌, ◌<◌, ◌≡◌, refl, sym, ap, ◌∙◌, List, [], ◌∷◌, some, arith, get_or,
}
use marpa_wrapper.Prelude.Int.{ℤ, pos}
use marpa_wrapper.World.{libmarpa}
use marpa_wrapper.Wrapper.Messages.{error_text, log_text}

-- the text of a message on an error that `marpa_…` set
abbrev pub marpa_message : (ℤ → String) → ℕ → String
marpa_message strerror n = log_text strerror libmarpa (pos n) (some "Marpa")

-- The names that libmarpa-dist/marpa.h gives to the errors from 0 on.
abbrev pub names : List String
names =
    "MARPA_ERR_NONE" ∷ "MARPA_ERR_AHFA_IX_NEGATIVE" ∷ "MARPA_ERR_AHFA_IX_OOB"
    ∷ "MARPA_ERR_ANDID_NEGATIVE" ∷ "MARPA_ERR_ANDID_NOT_IN_OR" ∷ "MARPA_ERR_ANDIX_NEGATIVE"
    ∷ "MARPA_ERR_BAD_SEPARATOR" ∷ "MARPA_ERR_BOCAGE_ITERATION_EXHAUSTED"
    ∷ "MARPA_ERR_COUNTED_NULLABLE" ∷ "MARPA_ERR_DEVELOPMENT" ∷ "MARPA_ERR_DUPLICATE_AND_NODE"
    ∷ "MARPA_ERR_DUPLICATE_RULE" ∷ "MARPA_ERR_DUPLICATE_TOKEN" ∷ "MARPA_ERR_YIM_COUNT"
    ∷ "MARPA_ERR_YIM_ID_INVALID" ∷ "MARPA_ERR_EVENT_IX_NEGATIVE" ∷ "MARPA_ERR_EVENT_IX_OOB"
    ∷ "MARPA_ERR_GRAMMAR_HAS_CYCLE" ∷ "MARPA_ERR_INACCESSIBLE_TOKEN" ∷ "MARPA_ERR_INTERNAL"
    ∷ "MARPA_ERR_INVALID_AHFA_ID" ∷ "MARPA_ERR_INVALID_AIMID" ∷ "MARPA_ERR_INVALID_BOOLEAN"
    ∷ "MARPA_ERR_INVALID_IRLID" ∷ "MARPA_ERR_INVALID_NSYID" ∷ "MARPA_ERR_INVALID_LOCATION"
    ∷ "MARPA_ERR_INVALID_RULE_ID" ∷ "MARPA_ERR_INVALID_START_SYMBOL" ∷ "MARPA_ERR_INVALID_SYMBOL_ID"
    ∷ "MARPA_ERR_I_AM_NOT_OK" ∷ "MARPA_ERR_MAJOR_VERSION_MISMATCH"
    ∷ "MARPA_ERR_MICRO_VERSION_MISMATCH" ∷ "MARPA_ERR_MINOR_VERSION_MISMATCH"
    ∷ "MARPA_ERR_NOOKID_NEGATIVE" ∷ "MARPA_ERR_NOT_PRECOMPUTED"
    ∷ "MARPA_ERR_NOT_TRACING_COMPLETION_LINKS" ∷ "MARPA_ERR_NOT_TRACING_LEO_LINKS"
    ∷ "MARPA_ERR_NOT_TRACING_TOKEN_LINKS" ∷ "MARPA_ERR_NO_AND_NODES"
    ∷ "MARPA_ERR_NO_EARLEY_SET_AT_LOCATION" ∷ "MARPA_ERR_NO_OR_NODES" ∷ "MARPA_ERR_NO_PARSE"
    ∷ "MARPA_ERR_NO_RULES" ∷ "MARPA_ERR_NO_START_SYMBOL" ∷ "MARPA_ERR_NO_TOKEN_EXPECTED_HERE"
    ∷ "MARPA_ERR_NO_TRACE_YIM" ∷ "MARPA_ERR_NO_TRACE_YS" ∷ "MARPA_ERR_NO_TRACE_PIM"
    ∷ "MARPA_ERR_NO_TRACE_SRCL" ∷ "MARPA_ERR_NULLING_TERMINAL" ∷ "MARPA_ERR_ORDER_FROZEN"
    ∷ "MARPA_ERR_ORID_NEGATIVE" ∷ "MARPA_ERR_OR_ALREADY_ORDERED" ∷ "MARPA_ERR_PARSE_EXHAUSTED"
    ∷ "MARPA_ERR_PARSE_TOO_LONG" ∷ "MARPA_ERR_PIM_IS_NOT_LIM" ∷ "MARPA_ERR_POINTER_ARG_NULL"
    ∷ "MARPA_ERR_PRECOMPUTED" ∷ "MARPA_ERR_PROGRESS_REPORT_EXHAUSTED"
    ∷ "MARPA_ERR_PROGRESS_REPORT_NOT_STARTED" ∷ "MARPA_ERR_RECCE_NOT_ACCEPTING_INPUT"
    ∷ "MARPA_ERR_RECCE_NOT_STARTED" ∷ "MARPA_ERR_RECCE_STARTED" ∷ "MARPA_ERR_RHS_IX_NEGATIVE"
    ∷ "MARPA_ERR_RHS_IX_OOB" ∷ "MARPA_ERR_RHS_TOO_LONG" ∷ "MARPA_ERR_SEQUENCE_LHS_NOT_UNIQUE"
    ∷ "MARPA_ERR_SOURCE_TYPE_IS_AMBIGUOUS" ∷ "MARPA_ERR_SOURCE_TYPE_IS_COMPLETION"
    ∷ "MARPA_ERR_SOURCE_TYPE_IS_LEO" ∷ "MARPA_ERR_SOURCE_TYPE_IS_NONE"
    ∷ "MARPA_ERR_SOURCE_TYPE_IS_TOKEN" ∷ "MARPA_ERR_SOURCE_TYPE_IS_UNKNOWN"
    ∷ "MARPA_ERR_START_NOT_LHS" ∷ "MARPA_ERR_SYMBOL_VALUED_CONFLICT"
    ∷ "MARPA_ERR_TERMINAL_IS_LOCKED" ∷ "MARPA_ERR_TOKEN_IS_NOT_TERMINAL"
    ∷ "MARPA_ERR_TOKEN_LENGTH_LE_ZERO" ∷ "MARPA_ERR_TOKEN_TOO_LONG" ∷ "MARPA_ERR_TREE_EXHAUSTED"
    ∷ "MARPA_ERR_TREE_PAUSED" ∷ "MARPA_ERR_UNEXPECTED_TOKEN_ID" ∷ "MARPA_ERR_UNPRODUCTIVE_START"
    ∷ "MARPA_ERR_VALUATOR_INACTIVE" ∷ "MARPA_ERR_VALUED_IS_LOCKED" ∷ "MARPA_ERR_RANK_TOO_LOW"
    ∷ "MARPA_ERR_RANK_TOO_HIGH" ∷ "MARPA_ERR_SYMBOL_IS_NULLING" ∷ "MARPA_ERR_SYMBOL_IS_UNUSED"
    ∷ "MARPA_ERR_NO_SUCH_RULE_ID" ∷ "MARPA_ERR_NO_SUCH_SYMBOL_ID" ∷ "MARPA_ERR_BEFORE_FIRST_TREE"
    ∷ "MARPA_ERR_SYMBOL_IS_NOT_COMPLETION_EVENT" ∷ "MARPA_ERR_SYMBOL_IS_NOT_NULLED_EVENT"
    ∷ "MARPA_ERR_SYMBOL_IS_NOT_PREDICTION_EVENT" ∷ "MARPA_ERR_RECCE_IS_INCONSISTENT"
    ∷ "MARPA_ERR_INVALID_ASSERTION_ID" ∷ "MARPA_ERR_NO_SUCH_ASSERTION_ID" ∷ []

-- A text up to its first colon, or to its end.
abbrev pub heading : String → String
heading s = slice s 0 (find s ":")

-- What a reader makes of a message: the name of the error, which follows "Marpa: ".
abbrev pub named : String → String
named message = heading (slice message 7 (len message))

-- What the messages on `count` errors from the error `i` on are taken for.
abbrev named_from : (ℤ → String) → (i count : ℕ) → List String
named_from strerror i zero = []
named_from strerror i (suc count) =
    named (marpa_message strerror i) ∷ named_from strerror (suc i) count

all_named : (strerror : ℤ → String) → named_from strerror 0 98 ≡ names
unfolding log_text error_text
all_named strerror = refl

named_at :
    (strerror : ℤ → String) (i count n : ℕ)
    → n < count
    → get_or (named_from strerror i count) n "" ≡ named (marpa_message strerror (i + n))
named_at strerror i zero n lt = absurd (omega arith)
named_at strerror i (suc count) zero lt = let e : i + 0 ≡ i = omega arith in rw e refl
named_at strerror i (suc count) (suc n) lt =
    let e : i + suc n ≡ suc i + n = omega arith in
    rw e (named_at strerror (suc i) count n (omega arith))

-- A message on an error of libmarpa tells which it was: for each of the 98 errors that the code knows,
-- from 0 on, what stands in it between "Marpa: " and the next colon or the end is the name of that
-- error in marpa.h.
pub named-marpa_message :
    (strerror : ℤ → String) (n : ℕ) → n < 98 → named (marpa_message strerror n) ≡ get_or names n ""
named-marpa_message strerror n known =
    ap (λ k. named (marpa_message strerror k)) (sym here)
    ∙ sym (named_at strerror 0 98 n known)
    ∙ ap (λ texts. get_or texts n "") (all_named strerror)
  where
    here : 0 + n ≡ n
    here = omega arith
