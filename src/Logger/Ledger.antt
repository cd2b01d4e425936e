-- ===== src/Logger/Ledger.antt =====
-- What `genericLogger_log` of src/genericLogger.c does as a whole, with memory and without: the
-- callback that it calls, and the block that it gives back.
use marpa_wrapper.Prelude.{
  ℕ, zero, suc, ◌+◌, ◌≤◌, ◌<◌, ◌≡◌, ◌≢◌, ◌⊎◌, inl, inr, refl, sym, Bool, true, false, Option, some,
  List, [], ◌∷◌, arith, leb, Bool-cases,
}
use marpa_wrapper.Prelude.Int.{pos_part, is_negative}
use marpa_wrapper.World.{
  Ptr, null, Level, error, Call, log_callback, Trace, Env, vsnprintf, malloc, realloc, text,
  internal_error, empty_message,
}
use marpa_wrapper.World.Blocks.{given_blocks, taken_blocks, Keeps}
use marpa_wrapper.Message.{Built, building, internal_errors, built, first_size, build_rounds, build}
use marpa_wrapper.Message.Balance.{held, IsSteady, build-Keeps, build_returns}
use marpa_wrapper.Logger.{
  Logger, rank, chosen_logger, call_back, after_callback, hand_over, log_message,
}

-- the levels at which a trace called the callback of a logger, the last first
abbrev pub called_at : Call → List Level → List Level
called_at (log_callback callback user level message) levels = level ∷ levels
called_at _ levels = levels

abbrev pub told_levels : Trace → List Level
told_levels [] = []
told_levels (c ∷ t) = called_at c (told_levels t)

-- Memory never runs out, and no format is refused.
pub record HasRoom (env : Env) : Type 0 where
  pub malloc_answers : (t : Trace) (n : ℕ) → env.address t (malloc n) ≢ null
  pub realloc_answers : (t : Trace) (p : Ptr) (n : ℕ) → env.address t (realloc p n) ≢ null
  pub formats :
      (t : Trace) (p : Ptr) (size : ℕ) → is_negative (env.value t (vsnprintf p size)) ≡ false

-- From trace `t` to trace `t'` the callback was called at most once: not at all only for a level that
-- does not pass, and else at that level, or, where memory may run out, at the one of errors.
abbrev pub Tells : Env → (filter level : Level) → (t t' : Trace) → Type 0
Tells env filter level t t' =
    ((rank level < rank filter) × (told_levels t' ≡ told_levels t))
    ⊎ ((rank filter ≤ rank level)
        × ((told_levels t' ≡ level ∷ told_levels t)
            ⊎ ((¬ HasRoom env) × (told_levels t' ≡ error ∷ told_levels t))))

module _ {S : Type 0} (env : Env) where
  build_rounds_tells :
      (rounds : ℕ) (p : Ptr) (size : ℕ) (s : S) (t : Trace)
      → told_levels (build_rounds env rounds p size s t).2 ≡ told_levels t
  unfolding build_rounds
  build_rounds_tells zero p size s t = refl
  build_rounds_tells (suc rounds) p size s t =
      let n = env.value t (vsnprintf p size) in
      let c = realloc p (pos_part n + 1) in
      let asked = vsnprintf p size ∷ t in
      ground (arith, build_rounds_tells rounds (env.address asked c) (pos_part n + 1) s (c ∷ asked))

  pub build_tells :
      (rounds : ℕ) (s : S) (t : Trace) → told_levels (build env rounds s t).2 ≡ told_levels t
  unfolding build
  build_tells rounds s t = ground (
    arith,
    build_rounds_tells rounds (env.address t (malloc first_size)) first_size s
        (malloc first_size ∷ t),
  )

  build_rounds_made :
      HasRoom env
      → (rounds : ℕ) (p : Ptr) (size : ℕ) (s : S) (t : Trace)
      → (build_rounds env rounds p size s t).0 ≢ internal_errors
  unfolding build_rounds
  build_rounds_made room zero p size s t = ground arith
  build_rounds_made room (suc rounds) p size s t =
      let n = env.value t (vsnprintf p size) in
      let c = realloc p (pos_part n + 1) in
      let asked = vsnprintf p size ∷ t in
      ground (
        arith,
        room.formats t p size,
        room.realloc_answers asked p (pos_part n + 1),
        build_rounds_made room rounds (env.address asked c) (pos_part n + 1) s (c ∷ asked),
      )

  pub build_made :
      HasRoom env → (rounds : ℕ) (s : S) (t : Trace) → (build env rounds s t).0 ≢ internal_errors
  unfolding build
  build_made room rounds s t = ground (
    arith,
    room.malloc_answers t first_size,
    build_rounds_made room rounds (env.address t (malloc first_size)) first_size s
        (malloc first_size ∷ t),
  )

module _ {S : Type 0} (env : Env) (static : Ptr) (rounds : ℕ) where
  -- A callback that is there is called.
  call_back_there :
      (l : Logger) (c : Call) (s : S) (t : Trace)
      → l.callback ≢ null
      → call_back env static rounds l c s t ≡ (some tt, s, c ∷ t)
  unfolding call_back
  call_back_there l c s t there = ground arith

  hand_over_lem :
      (l : Logger) (level : Level) (message : Built) (s : S) (t : Trace)
      → l.callback ≢ null
      → message ≢ building
      → let (result, _, t') = hand_over env static rounds l level message s t in
        (result ≡ some tt)
        × ((q : Ptr)
            → (given_blocks env q t' ≡ given_blocks env q t)
              × (taken_blocks env q t' ≡ held q message + taken_blocks env q t))
        × ((told_levels t' ≡ level ∷ told_levels t)
            ⊎ ((message ≡ internal_errors) × (told_levels t' ≡ error ∷ told_levels t)))
  unfolding hand_over after_callback
  hand_over_lem l level building s t there made = absurd (made refl)
  hand_over_lem l level internal_errors s t there made =
      rw (call_back_there l (log_callback l.callback l.user error internal_error) s t there)
        (refl, λ q. (omega arith, omega arith), inr (refl, refl))
  hand_over_lem l level (built p size) s t there made =
      rw (call_back_there l (log_callback l.callback l.user level (text p)) s t there)
        (refl, λ q. (omega arith, omega arith), inl refl)

  -- what follows the filter
  handed :
      IsSteady env
      → (l : Logger) (level : Level) (s : S) (t : Trace) → l.callback ≢ null
      → let (message, s1, t1) = build env 2 s t in
        let (result, _, t') = hand_over env static rounds l level message s1 t1 in
        (result ≡ some tt)
        × ((q : Ptr) → q ≢ null → Keeps env q 0 t t')
        × ((told_levels t' ≡ level ∷ told_levels t)
            ⊎ ((¬ HasRoom env) × (told_levels t' ≡ error ∷ told_levels t)))
  handed steady l level s t there =
      let (message, s1, t1) = build env 2 s t in
      let made = build_returns env steady s t in
      let (returned, blocks, told) = hand_over_lem l level message s1 t1 there made in
      (
        returned,
        λ q ne. ground (arith, blocks q, build-Keeps env 2 q s t ne made),
        elim told [
          | inl at_level ↦ inl (rw (sym (build_tells env 2 s t)) at_level)
          | inr (failed, at_error) ↦ inr (
            (λ room. build_made env room 2 s t failed),
            rw (sym (build_tells env 2 s t)) at_error,
          )
        ],
      )

  -- With a logger that has a callback `genericLogger_log` returns, has given back every block that it
  -- was given, and called the callback as it should.
  pub log_message_ends :
      IsSteady env
      → (logger : Option Logger) (level : Level) (has_format : Bool) (s : S) (t : Trace)
      → (chosen_logger logger).callback ≢ null
      → let (result, _, t') = log_message env static rounds logger level has_format s t in
        (result ≡ some tt)
        × ((q : Ptr) → q ≢ null → Keeps env q 0 t t')
        × Tells env (chosen_logger logger).level level t t'
  unfolding log_message
  log_message_ends steady logger level true s t there =
      elim (Bool-cases (leb (rank (chosen_logger logger).level) (rank level))) [
        | inr below ↦ rw below (refl, (λ q ne. omega arith), inl (ground arith, refl))
        | inl passes ↦
            let (returned, blocks, told) = handed steady (chosen_logger logger) level s t there in
            rw passes (returned, blocks, inr (ground arith, told))
      ]
  log_message_ends steady logger level false s t there =
      elim (Bool-cases (leb (rank (chosen_logger logger).level) (rank level))) [
        | inr below ↦ rw below (refl, (λ q ne. omega arith), inl (ground arith, refl))
        | inl passes ↦
            let l = chosen_logger logger in
            let c = log_callback l.callback l.user level empty_message in
            rw (passes, call_back_there l c s t there)
              (refl, (λ q ne. omega arith), inr (ground arith, inl refl))
      ]
