-- ===== src/Message/Balance.antt =====
-- The blocks of a message of src/messageBuilder.c, on every path, and that it is built in two rounds.
use marpa_wrapper.Prelude.{
  ℕ, zero, suc, ◌+◌, ◌≡◌, ◌≢◌, refl, arith, ltb, Bool-cases, ◌∷◌, ◌==◌, if◌then◌else◌, inl, inr,
}
use marpa_wrapper.Prelude.Int.{ℤ, pos_part, is_negative}
use marpa_wrapper.World.{Ptr, null, Trace, Env, vsnprintf, malloc, realloc}
use marpa_wrapper.World.Blocks.{given_blocks, taken_blocks, Keeps}
use marpa_wrapper.Message.{Built, building, internal_errors, built, first_size, build_rounds, build}

-- how often the block at `p` is the one of a message
abbrev pub held : Ptr → Built → ℕ
held p building = 0
held p internal_errors = 0
held p (built q size) = if q == p then 1 else 0

-- A second try of `vsnprintf`, on a block of the size that the first one asked for, is answered like
-- the first.
pub record IsSteady (env : Env) : Type 0 where
  pub again :
      (t : Trace) (p q : Ptr) (size : ℕ)
      → let n = env.value t (vsnprintf p size) in
        let wanted = pos_part n + 1 in
        env.value (realloc p wanted ∷ vsnprintf p size ∷ t) (vsnprintf q wanted) ≡ n

module _ {S : Type 0} (env : Env) where
  -- The loop owns the block that it starts with.
  build_rounds-balance :
      (rounds : ℕ) (p : Ptr) (size : ℕ) (q : Ptr) (s : S) (t : Trace)
      → q ≢ null
      → p ≢ null
      → let (result, _, t') = build_rounds env rounds p size s t in
        result ≢ building
        → given_blocks env q t' + taken_blocks env q t + (if p == q then 1 else 0)
          ≡ held q result + taken_blocks env q t' + given_blocks env q t
  unfolding build_rounds
  build_rounds-balance zero p size q s t ne np done = absurd (done refl)
  build_rounds-balance (suc rounds) p size q s t ne np done = elim (Bool-cases (is_negative n)) [
    | inl failed ↦ ground arith
    | inr fine ↦ elim (Bool-cases (ltb (pos_part n) size)) [
      | inl fits ↦ ground arith
      | inr long ↦ elim (Bool-cases (moved == null)) [
        | inl none_left ↦ ground arith
        | inr there ↦
            ground
              (arith, build_rounds-balance rounds moved wanted q s (realloc p wanted ∷ asked) ne)
      ]
    ]
  ]
    where
      n : ℤ
      n = env.value t (vsnprintf p size)

      wanted : ℕ
      wanted = pos_part n + 1

      asked : Trace
      asked = vsnprintf p size ∷ t

      moved : Ptr
      moved = env.address asked (realloc p wanted)

  -- `messageBuilder_ap` returns the one block that it was given and did not give back, or gave back
  -- all that it was given.
  pub build-Keeps :
      (rounds : ℕ) (q : Ptr) (s : S) (t : Trace)
      → q ≢ null
      → let (result, _, t') = build env rounds s t in
        result ≢ building → Keeps env q (held q result) t t'
  unfolding build
  build-Keeps rounds q s t ne = ground (
    arith,
    build_rounds-balance rounds (env.address t (malloc first_size)) first_size q s
        (malloc first_size ∷ t) ne,
  )

  module _ (steady : IsSteady env) where
    pub build_returns : (s : S) (t : Trace) → (build env 2 s t).0 ≢ building
    unfolding build build_rounds
    build_returns s t = ground (
      arith,
      steady.again (malloc first_size ∷ t) p
          (env.address (vsnprintf p first_size ∷ malloc first_size ∷ t)
            (realloc p (pos_part (env.value (malloc first_size ∷ t) (vsnprintf p first_size)) + 1)))
          first_size,
    )
      where
        p : Ptr
        p = env.address t (malloc first_size)
