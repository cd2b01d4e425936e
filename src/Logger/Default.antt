-- ===== src/Logger/Default.antt =====
-- The default callback of src/genericLogger.c, which writes to the error output.
pub mod Writes
pub mod Failures
pub mod Balance
use marpa_wrapper.Prelude.{ℕ, zero, suc, ◌+◌, ◌-◌, Option, none, some, [], ◌∷◌, ltb, if◌then◌else◌}
use marpa_wrapper.Prelude.Int.{ℤ, pos, pos_part, ◌+ℤ◌, to_size}
use Prim.Native.String.{String, len, slice}
use Prim.Native.String
use marpa_wrapper.World.{
  Ptr, Level, trace, debug, info, notice, warning, error, critical, alert, emergency, free, strlen,
  write, Env, M, pure, ◌>>=◌, ◌>>◌, emit, ask_int,
}
use marpa_wrapper.Message
use marpa_wrapper.Message.{Built, building, internal_errors, built}
use marpa_wrapper.Date
use marpa_wrapper.Date.{Dated, dated}

-- the word for a level
abbrev pub prefix : Level → String
prefix trace = "TRACE"
prefix debug = "DEBUG"
prefix info = "INFO"
prefix notice = "NOTICE"
prefix warning = "WARNING"
prefix error = "ERROR"
prefix critical = "CRITICAL"
prefix alert = "ALERT"
prefix emergency = "EMERGENCY"

-- `%9s`
abbrev pub padded : String → String
padded s = String.◌++◌ (slice "         " 0 (9 - len s)) s

-- The line of a message, where there is memory for it.
pub log_line : (date : String) → Level → Option String → String
log_line date level message =
    let text = elim message as (λ _. String) [ none ↦ "No message" | some m ↦ m ] in
    String.◌++◌ date (
      String.◌++◌ " "
        (String.◌++◌ (padded (prefix level)) (String.◌++◌ " " (String.◌++◌ text "\n"))))

-- The line that is written: a block, or the static error text, which is at `static`.
abbrev pub line_at : Ptr → Built → Ptr
line_at static building = static
line_at static internal_errors = static
line_at static (built p size) = p

module _ {S : Type 0} (env : Env) where
  -- `while (bytesWriten < count)`, at most so many rounds. `written` is an `ssize_t`; the comparison
  -- and the difference are of `size_t`.
  unfoldable pub write_all : (rounds : ℕ) → Ptr → (count : ℕ) → (written : ℤ) → M S (Option ℤ)
  write_all zero p count written = pure none
  write_all (suc rounds) p count written =
      if ltb (to_size written) count
      then (do
        n ← ask_int env (write (p + to_size written) (count - to_size written))
        write_all rounds p count (written +ℤ n))
      else pure (some written)

  -- the end of `_genericLogger_defaultCallback`
  unfoldable pub free_date : Dated → M S (Unit {0})
  free_date Date.internal_errors = pure tt
  free_date (dated p) = emit (free p)

  unfoldable pub free_built : Built → M S (Unit {0})
  free_built building = pure tt
  free_built internal_errors = pure tt
  free_built (built p size) = emit (free p)

  -- What follows the building of the date and of the line, with at most so many rounds to write.
  unfoldable pub deliver : (static : Ptr) → (rounds : ℕ) → Dated → Built → M S (Option (Unit {0}))
  deliver static rounds dates building = pure none
  deliver static rounds dates local = do
    count ← ask_int env (strlen (line_at static local))
    written ← write_all rounds (line_at static local) (pos_part count) (pos 0)
    elim written [
      | none ↦ pure none
      | some _ ↦ do free_date dates; free_built local; pure (some tt)
    ]

  -- `_genericLogger_defaultCallback`; `none` is a loop that is still running.
  unfoldable pub default_callback : (static : Ptr) → (rounds : ℕ) → M S (Option (Unit {0}))
  default_callback static rounds = do
    dates ← Date.build env
    local ← Message.build env 2
    deliver static rounds dates local
