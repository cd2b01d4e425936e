-- ===== src/Logger.antt =====
-- src/genericLogger.c: the level filter in front of a callback.
pub mod Ledger
pub mod Default
use marpa_wrapper.Prelude.{ℕ, Bool, Option, none, some, leb, ◌==◌, if◌then◌else◌}
use marpa_wrapper.World.{
  Ptr, null, Level, trace, debug, info, notice, warning, error, critical, alert, emergency, Call,
  malloc, free, log_callback, text, internal_error, empty_message, Env, M, pure, ◌>>=◌, ◌>>◌, emit,
  ask_pointer,
}
use marpa_wrapper.Logger.Default.{default_callback}
use marpa_wrapper.Message.{Built, building, internal_errors, built, build}

-- `struct genericLogger`. The callback is NULL for the default one.
pub record Logger : Type 0 where
  pub callback : Ptr
  pub user : Ptr
  pub level : Level

-- the numbers of `genericLoggerLevel_t`
abbrev pub rank : Level → ℕ
rank trace = 0
rank debug = 1
rank info = 2
rank notice = 3
rank warning = 4
rank error = 5
rank critical = 6
rank alert = 7
rank emergency = 8

-- sizeof(genericLogger_t)
abbrev pub sizeof_logger : ℕ
sizeof_logger = 24

-- What a NULL logger stands for.
abbrev pub chosen_logger : Option Logger → Logger
chosen_logger none = record { callback = null; user = null; level = warning }
chosen_logger (some l) = l

-- The callback of a logger, or the default one with its static text and its rounds of writing.
module _ {S : Type 0} (env : Env) (static : Ptr) (rounds : ℕ) where
  -- The call of the callback; `none` is a default callback that is still writing.
  unfoldable pub call_back : Logger → Call → M S (Option (Unit {0}))
  call_back l c =
      if l.callback == null then default_callback env static rounds else emit c >> pure (some tt)

  -- The `free` of a text once the callback returned.
  unfoldable pub after_callback : Ptr → Option (Unit {0}) → M S (Option (Unit {0}))
  after_callback p none = pure none
  after_callback p (some _) = emit (free p) >> pure (some tt)

  -- What follows the building of a message.
  unfoldable pub hand_over : Logger → Level → Built → M S (Option (Unit {0}))
  hand_over l level building = pure none
  hand_over l level internal_errors =
      call_back l (log_callback l.callback l.user error internal_error)
  hand_over l level (built p size) = do
    returned ← call_back l (log_callback l.callback l.user level (text p))
    after_callback p returned

  -- `genericLogger_log`, with two rounds for its message; `has_format` says that the format is not
  -- NULL, and `none` that the message is still being built or written.
  unfoldable pub log_message : Option Logger → Level → Bool → M S (Option (Unit {0}))
  log_message logger level has_format =
      let l = chosen_logger logger in
      if leb (rank l.level) (rank level)
      then (if has_format
          then (do message ← build env 2; hand_over l level message)
          else call_back l (log_callback l.callback l.user level empty_message))
      else pure (some tt)

module _ {S : Type 0} (env : Env) where
  -- `genericLogger_newp`: the address and the logger.
  pub new : Ptr → Ptr → Level → M S (Option (Ptr × Logger))
  new callback user level = do
    p ← ask_pointer env (malloc sizeof_logger)
    if p == null
        then pure none
        else pure (some (p, record { callback = callback; user = user; level = level }))

  -- `genericLogger_freev` on an address.
  pub release : Ptr → M S (Unit {0})
  release p = if p == null then pure tt else emit (free p)

-- `genericLogger_logLevel_seti`
pub set_level : Level → Logger → Logger
set_level level l = record l { level = level }

-- `genericLogger_logLevel_geti`
pub get_level : Logger → Level
get_level l = l.level
