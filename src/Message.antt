-- ===== src/Message.antt =====
-- src/messageBuilder.c: a message in a block that is as large as it needs to be. The code is taken as
-- it is built where `vsnprintf` returns the length that it needs.
pub mod Fits
pub mod Balance
use marpa_wrapper.Prelude.{ℕ, zero, suc, ◌+◌, leb, ltb, ◌==◌, if◌then◌else◌}
use marpa_wrapper.Prelude.Int.{ℤ, pos_part, is_negative}
use marpa_wrapper.World.{
  Ptr, null, malloc, realloc, free, vsnprintf, Env, M, pure, ◌>>=◌, ◌>>◌, emit, ask_int,
  ask_pointer,
}

-- How `messageBuilder_ap` stands after some rounds: still at it, at its static error text, or with a
-- block of so many bytes.
pub data Built : Type 0 where
  building : Built
  internal_errors : Built
  built : Ptr → ℕ → Built

abbrev pub first_size : ℕ
first_size = 4096

module _ {S : Type 0} (env : Env) where
  -- The `while (1)` of `messageBuilder_ap`.
  unfoldable pub build_rounds : ℕ → Ptr → ℕ → M S Built
  build_rounds zero p size = pure building
  build_rounds (suc rounds) p size = do
    n ← ask_int env (vsnprintf p size)
    if is_negative n
        then emit (free p) >> pure internal_errors
        else if ltb (pos_part n) size
        then pure (built p size)
        else (do
          np ← ask_pointer env (realloc p (pos_part n + 1))
          if np == null
              then emit (free p) >> pure internal_errors
              else build_rounds rounds np (pos_part n + 1))

  -- `messageBuilder_ap`, with at most so many rounds.
  unfoldable pub build : ℕ → M S Built
  build rounds = do
    p ← ask_pointer env (malloc first_size)
    if p == null then pure internal_errors else build_rounds rounds p first_size
