-- ===== src/Wrapper/Logging.antt =====
-- How src/marpaWrapper.c logs: `_marpaWrapper_log`, `_marpaWrapper_logWrapper` and
-- `_marpaWrapper_logExt`. A NULL wrapper is `none`; another is what its logger is, `none` for a NULL
-- one. What the texts say is `log_text` of Wrapper/Messages.antt.
pub mod Ledger
use marpa_wrapper.Prelude.{ℕ, Bool, true, Option, none, some, if◌then◌else◌}
use marpa_wrapper.World.{Ptr, Level, error, free, Env, M, pure, ◌>>=◌, ◌>>◌, emit}
use marpa_wrapper.Message.{Built, building, internal_errors, built, build}
use marpa_wrapper.Logger.{Logger, log_message}

-- `static` and `rounds` are those of the default callback.
module _ {S : Type 0} (env : Env) (static : Ptr) (rounds : ℕ) where
  -- A text is freed once it is logged.
  unfoldable pub after_log : Ptr → Option (Unit {0}) → M S (Option (Unit {0}))
  after_log msgs none = pure none
  after_log msgs (some _) = emit (free msgs) >> pure (some tt)

  -- What `_marpaWrapper_logExt` does with the text that it has built.
  unfoldable pub log_built : Option Logger → Level → Built → M S (Option (Unit {0}))
  log_built logger level building = pure none
  log_built logger level internal_errors = log_message env static rounds logger error true
  log_built logger level (built msgs size) = do
    logged ← log_message env static rounds logger level true
    after_log msgs logged

  -- `_marpaWrapper_logExt`, each text in at most two rounds; `none` is a text that is still being
  -- built or written.
  unfoldable pub log_ext : Option (Option Logger) → Level → M S (Option (Unit {0}))
  log_ext none level = pure (some tt)
  log_ext (some logger) level = do msgs ← build env 2; log_built logger level msgs

  -- `_marpaWrapper_logWrapper`
  unfoldable pub log_wrapper : Option (Option Logger) → Level → M S (Option (Unit {0}))
  log_wrapper none level = pure (some tt)
  log_wrapper (some logger) level = log_ext (some logger) level

  -- What `_marpaWrapper_log` does with the text of its caller.
  unfoldable pub log_made : Option (Option Logger) → Level → Built → M S (Option (Unit {0}))
  log_made wrapper level building = pure none
  log_made wrapper level internal_errors = log_wrapper wrapper level
  log_made wrapper level (built msgs size) = do
    logged ← log_wrapper wrapper level
    after_log msgs logged

  -- `_marpaWrapper_log`; `has_format` says that the format is not NULL.
  unfoldable pub log :
      Option (Option Logger) → Level → (has_format : Bool) → M S (Option (Unit {0}))
  log wrapper level has_format =
      if has_format
      then (do msgs ← build env 2; log_made wrapper level msgs)
      else log_wrapper wrapper level
