-- ===== src/World/Blocks.antt =====
-- A ledger of memory: which blocks a trace was given and which it gave back.
use marpa_wrapper.Prelude.{ℕ, ◌+◌, ◌≡◌, not, ◌&&◌, [], ◌∷◌, ◌==◌, if◌then◌else◌}
use marpa_wrapper.World.{Ptr, null, malloc, realloc, free, Call, Trace, Env}

-- one for a call that is answered with the block at `p`
abbrev pub gives_block : Env → Ptr → Trace → Call → ℕ
gives_block env p t (malloc n) = if env.address t (malloc n) == p then 1 else 0
gives_block env p t (realloc q n) = if env.address t (realloc q n) == p then 1 else 0
gives_block env p t _ = 0

-- one for a call that gives the block at `p` back: a `realloc` does, if it is answered
abbrev pub takes_block : Env → Ptr → Trace → Call → ℕ
takes_block env p t (free q) = if q == p then 1 else 0
takes_block env p t (realloc q n) =
    if q == p && not (env.address t (realloc q n) == null) then 1 else 0
takes_block env p t _ = 0

-- how often a trace was given the block at `p`, and how often it gave it back
abbrev pub given_blocks : Env → Ptr → Trace → ℕ
given_blocks env p [] = 0
given_blocks env p (c ∷ t) = gives_block env p t c + given_blocks env p t

abbrev pub taken_blocks : Env → Ptr → Trace → ℕ
taken_blocks env p [] = 0
taken_blocks env p (c ∷ t) = takes_block env p t c + taken_blocks env p t

-- From trace `t` to trace `t'` the block at `p` was given `kept` times more than it was given back.
abbrev pub Keeps : Env → Ptr → (kept : ℕ) → (t t' : Trace) → Type 0
Keeps env p kept t t' =
    given_blocks env p t' + taken_blocks env p t
    ≡ kept + taken_blocks env p t' + given_blocks env p t
