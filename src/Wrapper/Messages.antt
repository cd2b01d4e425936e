-- ===== src/Wrapper/Messages.antt =====
-- The text of an error: `_marpaWrapper_strerror` and `_marpaWrapper_logExt` of src/marpaWrapper.c.
pub mod Told
use marpa_wrapper.Prelude.{ℕ, Option, none, some, List, [], ◌∷◌, ◌==◌, if◌then◌else◌, get_or}
use marpa_wrapper.Prelude.Int.{ℤ, pos, negsuc}
use Prim.Native.String.{String, len}
use Prim.Native.String
use marpa_wrapper.World.{Origin, os, libmarpa, na}

-- The `switch` over the errors of libmarpa, which are numbered from 0 on: the text of each.
abbrev pub marpa_errors : List String
marpa_errors =
    "MARPA_ERR_NONE: No error" ∷ "MARPA_ERR_AHFA_IX_NEGATIVE" ∷ "MARPA_ERR_AHFA_IX_OOB"
    ∷ "MARPA_ERR_ANDID_NEGATIVE" ∷ "MARPA_ERR_ANDID_NOT_IN_OR" ∷ "MARPA_ERR_ANDIX_NEGATIVE"
    ∷ "MARPA_ERR_BAD_SEPARATOR: Separator has invalid symbol ID"
    ∷ "MARPA_ERR_BOCAGE_ITERATION_EXHAUSTED"
    ∷ "MARPA_ERR_COUNTED_NULLABLE: Nullable symbol on RHS of a sequence rule"
    ∷ "MARPA_ERR_DEVELOPMENT: Development error, see string" ∷ "MARPA_ERR_DUPLICATE_AND_NODE"
    ∷ "MARPA_ERR_DUPLICATE_RULE: Duplicate rule" ∷ "MARPA_ERR_DUPLICATE_TOKEN: Duplicate token"
    ∷ "MARPA_ERR_YIM_COUNT: Maximum number of Earley items exceeded" ∷ "MARPA_ERR_YIM_ID_INVALID"
    ∷ "MARPA_ERR_EVENT_IX_NEGATIVE: Negative event index"
    ∷ "MARPA_ERR_EVENT_IX_OOB: No event at that index"
    ∷ "MARPA_ERR_GRAMMAR_HAS_CYCLE: Grammar has cycle"
    ∷ "MARPA_ERR_INACCESSIBLE_TOKEN: Token symbol is inaccessible" ∷ "MARPA_ERR_INTERNAL"
    ∷ "MARPA_ERR_INVALID_AHFA_ID" ∷ "MARPA_ERR_INVALID_AIMID"
    ∷ "MARPA_ERR_INVALID_BOOLEAN: Argument is not boolean" ∷ "MARPA_ERR_INVALID_IRLID"
    ∷ "MARPA_ERR_INVALID_NSYID" ∷ "MARPA_ERR_INVALID_LOCATION: Location is not valid"
    ∷ "MARPA_ERR_INVALID_RULE_ID: Rule ID is malformed"
    ∷ "MARPA_ERR_INVALID_START_SYMBOL: Specified start symbol is not valid"
    ∷ "MARPA_ERR_INVALID_SYMBOL_ID: Symbol ID is malformed"
    ∷ "MARPA_ERR_I_AM_NOT_OK: Marpa is in a not OK state"
    ∷ "MARPA_ERR_MAJOR_VERSION_MISMATCH: Libmarpa major version number is a mismatch"
    ∷ "MARPA_ERR_MICRO_VERSION_MISMATCH: Libmarpa micro version number is a mismatch"
    ∷ "MARPA_ERR_MINOR_VERSION_MISMATCH: Libmarpa minor version number is a mismatch"
    ∷ "MARPA_ERR_NOOKID_NEGATIVE" ∷ "MARPA_ERR_NOT_PRECOMPUTED: This grammar is not precomputed"
    ∷ "MARPA_ERR_NOT_TRACING_COMPLETION_LINKS" ∷ "MARPA_ERR_NOT_TRACING_LEO_LINKS"
    ∷ "MARPA_ERR_NOT_TRACING_TOKEN_LINKS" ∷ "MARPA_ERR_NO_AND_NODES"
    ∷ "MARPA_ERR_NO_EARLEY_SET_AT_LOCATION: Earley set ID is after latest Earley set"
    ∷ "MARPA_ERR_NO_OR_NODES" ∷ "MARPA_ERR_NO_PARSE: No parse"
    ∷ "MARPA_ERR_NO_RULES: This grammar does not have any rules"
    ∷ "MARPA_ERR_NO_START_SYMBOL: This grammar has no start symbol"
    ∷ "MARPA_ERR_NO_TOKEN_EXPECTED_HERE: No token is expected at this earleme location"
    ∷ "MARPA_ERR_NO_TRACE_YIM" ∷ "MARPA_ERR_NO_TRACE_YS" ∷ "MARPA_ERR_NO_TRACE_PIM"
    ∷ "MARPA_ERR_NO_TRACE_SRCL"
    ∷ "MARPA_ERR_NULLING_TERMINAL: A symbol is both terminal and nulling"
    ∷ "MARPA_ERR_ORDER_FROZEN: The ordering is frozen" ∷ "MARPA_ERR_ORID_NEGATIVE"
    ∷ "MARPA_ERR_OR_ALREADY_ORDERED" ∷ "MARPA_ERR_PARSE_EXHAUSTED: The parse is exhausted"
    ∷ "MARPA_ERR_PARSE_TOO_LONG: This input would make the parse too long"
    ∷ "MARPA_ERR_PIM_IS_NOT_LIM"
    ∷ "MARPA_ERR_POINTER_ARG_NULL: An argument is null when it should not be"
    ∷ "MARPA_ERR_PRECOMPUTED: This grammar is precomputed"
    ∷ "MARPA_ERR_PROGRESS_REPORT_EXHAUSTED: The progress report is exhausted"
    ∷ "MARPA_ERR_PROGRESS_REPORT_NOT_STARTED: No progress report has been started"
    ∷ "MARPA_ERR_RECCE_NOT_ACCEPTING_INPUT: The recognizer is not accepting input"
    ∷ "MARPA_ERR_RECCE_NOT_STARTED: The recognizer has not been started"
    ∷ "MARPA_ERR_RECCE_STARTED: The recognizer has been started"
    ∷ "MARPA_ERR_RHS_IX_NEGATIVE: RHS index cannot be negative"
    ∷ "MARPA_ERR_RHS_IX_OOB: RHS index must be less than rule length"
    ∷ "MARPA_ERR_RHS_TOO_LONG: The RHS is too long"
    ∷ "MARPA_ERR_SEQUENCE_LHS_NOT_UNIQUE: LHS of sequence rule would not be unique"
    ∷ "MARPA_ERR_SOURCE_TYPE_IS_AMBIGUOUS" ∷ "MARPA_ERR_SOURCE_TYPE_IS_COMPLETION"
    ∷ "MARPA_ERR_SOURCE_TYPE_IS_LEO" ∷ "MARPA_ERR_SOURCE_TYPE_IS_NONE"
    ∷ "MARPA_ERR_SOURCE_TYPE_IS_TOKEN" ∷ "MARPA_ERR_SOURCE_TYPE_IS_UNKNOWN"
    ∷ "MARPA_ERR_START_NOT_LHS: Start symbol not on LHS of any rule"
    ∷ "MARPA_ERR_SYMBOL_VALUED_CONFLICT: Symbol is treated both as valued and unvalued"
    ∷ "MARPA_ERR_TERMINAL_IS_LOCKED: The terminal status of the symbol is locked"
    ∷ "MARPA_ERR_TOKEN_IS_NOT_TERMINAL: Token symbol must be a terminal"
    ∷ "MARPA_ERR_TOKEN_LENGTH_LE_ZERO: Token length must greater than zero"
    ∷ "MARPA_ERR_TOKEN_TOO_LONG: Token is too long"
    ∷ "MARPA_ERR_TREE_EXHAUSTED: Tree iterator is exhausted"
    ∷ "MARPA_ERR_TREE_PAUSED: Tree iterator is paused"
    ∷ "MARPA_ERR_UNEXPECTED_TOKEN_ID: Unexpected token"
    ∷ "MARPA_ERR_UNPRODUCTIVE_START: Unproductive start symbol"
    ∷ "MARPA_ERR_VALUATOR_INACTIVE: Valuator inactive"
    ∷ "MARPA_ERR_VALUED_IS_LOCKED: The valued status of the symbol is locked"
    ∷ "MARPA_ERR_RANK_TOO_LOW: Rule or symbol rank too low"
    ∷ "MARPA_ERR_RANK_TOO_HIGH: Rule or symbol rank too high"
    ∷ "MARPA_ERR_SYMBOL_IS_NULLING: Symbol is nulling"
    ∷ "MARPA_ERR_SYMBOL_IS_UNUSED: Symbol is not used"
    ∷ "MARPA_ERR_NO_SUCH_RULE_ID: No rule with this ID exists"
    ∷ "MARPA_ERR_NO_SUCH_SYMBOL_ID: No symbol with this ID exists"
    ∷ "MARPA_ERR_BEFORE_FIRST_TREE: Tree iterator is before first tree"
    ∷ "MARPA_ERR_SYMBOL_IS_NOT_COMPLETION_EVENT: Symbol is not set up for completion events"
    ∷ "MARPA_ERR_SYMBOL_IS_NOT_NULLED_EVENT: Symbol is not set up for nulled events"
    ∷ "MARPA_ERR_SYMBOL_IS_NOT_PREDICTION_EVENT: Symbol is not set up for prediction events"
    ∷ "MARPA_ERR_RECCE_IS_INCONSISTENT"
    ∷ "MARPA_ERR_INVALID_ASSERTION_ID: Assertion ID is malformed"
    ∷ "MARPA_ERR_NO_SUCH_ASSERTION_ID: No assertion with this ID exists" ∷ []

abbrev pub marpa_text : ℤ → String
marpa_text (pos n) = get_or marpa_errors n "Unknown Marpa error"
marpa_text (negsuc _) = "Unknown Marpa error"

-- `_marpaWrapper_strerror`, over the `strerror` of the C library.
unfoldable pub error_text : (ℤ → String) → Origin → ℤ → String
error_text strerror os number = strerror number
error_text strerror na number = ""
error_text strerror libmarpa number = marpa_text number

-- What `_marpaWrapper_logExt` logs of an error, where there is memory for the message; the call that
-- failed may be NULL.
unfoldable pub log_text : (ℤ → String) → Origin → ℤ → Option String → String
log_text strerror origin number call =
    let error = error_text strerror origin number in
    if len error == 0
    then (elim call [ none ↦ "Unknown call" | some c ↦ c ])
    else (elim call [ none ↦ error | some c ↦ String.◌++◌ (String.◌++◌ c ": ") error ])
