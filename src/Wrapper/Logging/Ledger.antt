-- ===== src/Wrapper/Logging/Ledger.antt =====
-- What logging in src/marpaWrapper.c does as a whole: that it returns, gives back its blocks, and calls
-- the callback of the logger.
use marpa_wrapper.Prelude.{◌≤◌, ◌<◌, ◌≡◌, ◌≢◌, ◌⊎◌, Option, none, some, ◌∷◌}
use marpa_wrapper.World.{null, Level, error, Trace, Env}
use marpa_wrapper.Logger.{Logger, rank, chosen_logger}
use marpa_wrapper.Logger.Ledger.{told_levels, HasRoom}

-- From trace `t` to trace `t'` the callback of a logger was called as for a message at this level: not
-- at all if the level does not pass, and else once, at the level. Where memory may run out it was
-- called once at the level of errors instead, or not at all if that level does not pass.
abbrev pub Reports : Env → (filter level : Level) → (t t' : Trace) → Type 0
Reports env filter level t t' =
    ((rank level < rank filter) × (told_levels t' ≡ told_levels t))
    ⊎ ((rank filter ≤ rank level) × (told_levels t' ≡ level ∷ told_levels t))
    ⊎ ((¬ HasRoom env)
        × (((rank error < rank filter) × (told_levels t' ≡ told_levels t))
            ⊎ (told_levels t' ≡ error ∷ told_levels t)))

-- What is reported to a wrapper: nothing, where it is NULL.
abbrev pub Told : Env → Option (Option Logger) → Level → (t t' : Trace) → Type 0
Told env none level t t' = told_levels t' ≡ told_levels t
Told env (some logger) level t t' = Reports env (chosen_logger logger).level level t t'

-- A wrapper that is there has a logger with a callback of its own.
abbrev pub HasCallback : Option (Option Logger) → Type 0
HasCallback none = Unit
HasCallback (some logger) = (chosen_logger logger).callback ≢ null
