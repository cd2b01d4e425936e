-- ===== src/Date.antt =====
-- src/dateBuilder.c: the date of now as a text.
pub mod Balance
use marpa_wrapper.Prelude.{ℕ, ◌==◌, if◌then◌else◌}
use marpa_wrapper.Prelude.Int.{ℤ, pos, eqb_ℤ}
use marpa_wrapper.World.{
  Ptr, null, malloc, time, localtime, strftime, Env, M, pure, ◌>>=◌, ◌>>◌, emit, ask_int,
  ask_pointer,
}

-- What `dateBuilder` returns: its static error text, or a block.
pub data Dated : Type 0 where
  internal_errors : Dated
  dated : Ptr → Dated

-- DATEBUILDER_MAX_SIZE
abbrev pub max_size : ℕ
max_size = 1025

module _ {S : Type 0} (env : Env) where
  -- `dateBuilder`
  unfoldable pub build : M S Dated
  build = do
    dates ← ask_pointer env (malloc max_size)
    if dates == null then pure internal_errors else (do
      emit time
      tmp ← ask_pointer env localtime
      if tmp == null then pure internal_errors else (do
        n ← ask_int env (strftime dates max_size)
        if eqb_ℤ n (pos 0) then pure internal_errors else pure (dated dates)))
