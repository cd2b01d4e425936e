-- ===== src/Message/Fits.antt =====
-- That a message is built in two rounds, and fits its block.
use marpa_wrapper.Prelude.{
  ℕ, zero, suc, ◌+◌, ◌<◌, ◌≡◌, ◌≢◌, ◌⊎◌, inl, inr, refl, arith, ltb, Bool-cases, ◌∷◌, ◌==◌,
  if◌then◌else◌,
}
use marpa_wrapper.Prelude.Int.{pos, pos_part}
use marpa_wrapper.World.{Ptr, null, Trace, Env, vsnprintf, malloc, realloc}
use marpa_wrapper.World.Frees.{frees}
use marpa_wrapper.Message.{internal_errors, built, first_size, build_rounds, build}

-- `vsnprintf` answers with the length of the message, however small the block.
pub record Formats (env : Env) (length : ℕ) : Type 0 where
  pub answers : (t : Trace) (p : Ptr) (size : ℕ) → env.value t (vsnprintf p size) ≡ pos length

module _ {S : Type 0} (env : Env) where
  build_rounds-state :
      (rounds : ℕ) (p : Ptr) (size : ℕ) (s : S) (t : Trace)
      → (build_rounds env rounds p size s t).1 ≡ s
  unfolding build_rounds
  build_rounds-state zero p size s t = refl
  build_rounds-state (suc rounds) p size s t = ground (
    arith,
    build_rounds-state rounds
        (env.address (vsnprintf p size ∷ t)
          (realloc p (pos_part (env.value t (vsnprintf p size)) + 1)))
        (pos_part (env.value t (vsnprintf p size)) + 1) s
        (realloc p (pos_part (env.value t (vsnprintf p size)) + 1) ∷ vsnprintf p size ∷ t),
  )

  pub build-state : (rounds : ℕ) (s : S) (t : Trace) → (build env rounds s t).1 ≡ s
  unfolding build
  build-state rounds s t = ground (
    arith,
    build_rounds-state rounds (env.address t (malloc first_size)) first_size s
        (malloc first_size ∷ t),
  )

module _ {S : Type 0} (env : Env) (length : ℕ) (formats : Formats env length) where
  -- Where `vsnprintf` answers with the length of the message, `messageBuilder_ap` returns within two
  -- rounds: a block that is not NULL with room for the message and its end, with nothing freed, or
  -- the error text, and then the block of its `malloc` is freed once, if there is one, and no other.
  pub build_lem :
      (s : S) (t : Trace)
      → let (result, _, t') = build env 2 s t in
        ((p : Ptr) × (size : ℕ) × (result ≡ built p size)
          × (p ≢ null)
          × (length < size)
          × ((q : Ptr) → frees q t' ≡ frees q t))
        ⊎ ((result ≡ internal_errors)
            × ((q : Ptr)
                → q ≢ null
                → frees q t'
                  ≡ (if env.address t (malloc first_size) == q then 1 else 0) + frees q t))
  unfolding build build_rounds
  build_lem s t = elim (Bool-cases (first == null)) [
    | inl none_left ↦ inr (ground arith, (λ q ne. ground arith))
    | inr ok ↦ elim (Bool-cases (ltb length first_size)) [
      | inl fits ↦ inl (
        first,
        first_size,
        ground (arith, formats.answers (malloc first_size ∷ t) first first_size),
        ground arith,
        ground arith,
        (λ q. ground (arith, formats.answers (malloc first_size ∷ t) first first_size)),
      )
      | inr long ↦ elim (Bool-cases (second == null)) [
        | inl none_left ↦ inr (
          ground (arith, formats.answers (malloc first_size ∷ t) first first_size),
          (λ q ne. ground (arith, formats.answers (malloc first_size ∷ t) first first_size)),
        )
        | inr moved ↦ inl (
          second,
          length + 1,
          ground (
            arith,
            formats.answers (malloc first_size ∷ t) first first_size,
            formats.answers after second (length + 1),
          ),
          ground arith,
          omega arith,
          (λ q. ground (
            arith,
            formats.answers (malloc first_size ∷ t) first first_size,
            formats.answers after second (length + 1),
          )),
        )
      ]
    ]
  ]
    where
      first : Ptr
      first = env.address t (malloc first_size)

      asked : Trace
      asked = vsnprintf first first_size ∷ malloc first_size ∷ t

      second : Ptr
      second = env.address asked (realloc first (length + 1))

      after : Trace
      after = realloc first (length + 1) ∷ asked
