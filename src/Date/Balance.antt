-- ===== src/Date/Balance.antt =====
-- The block of a date of src/dateBuilder.c: when it is lost.
use marpa_wrapper.Prelude.{ℕ, ◌≡◌, ◌≢◌, ◌⊎◌, inl, inr, arith, Bool-cases, ◌∷◌, ◌==◌, if◌then◌else◌}
use marpa_wrapper.Prelude.Int.{pos, eqb_ℤ}
use marpa_wrapper.World.{Ptr, null, Trace, Env, malloc, time, localtime, strftime}
use marpa_wrapper.World.Blocks.{Keeps}
use marpa_wrapper.Date.{Dated, internal_errors, dated, max_size, build}

-- how often the block at `p` is the one of a date
abbrev pub date_held : Ptr → Dated → ℕ
date_held p internal_errors = 0
date_held p (dated q) = if q == p then 1 else 0

module _ (env : Env) where
  -- whether `dateBuilder` has a block and then no local time, or no room for the date
  abbrev pub FailsLate : Trace → Ptr → Type 0
  FailsLate t p =
      let asked = time ∷ malloc max_size ∷ t in
      (p ≢ null)
      × ((env.address asked localtime ≡ null)
          ⊎ (env.value (localtime ∷ asked) (strftime p max_size) ≡ pos 0))

module _ {S : Type 0} (env : Env) (s : S) (t : Trace) where
  -- `dateBuilder` returns the block that it was given, or loses it: on the error text of a failed
  -- `localtime` or `strftime` the block is neither returned nor freed; there is no other loss.
  pub build_loses :
      let (result, _, t') = build env s t in
      let p = env.address t (malloc max_size) in
      (q : Ptr)
      → q ≢ null
      → ((FailsLate env t p
            × (result ≡ internal_errors)
            × Keeps env q (if p == q then 1 else 0) t t')
          ⊎ ((¬ FailsLate env t p) × Keeps env q (date_held q result) t t'))
  unfolding build
  build_loses q ne = elim (Bool-cases (p == null)) [
    | inl refused ↦ inr ((λ f. f.0 (ground arith)), ground arith)
    | inr there ↦ elim (Bool-cases (env.address asked localtime == null)) [
      | inl none_now ↦ inl ((ground arith, inl (ground arith)), ground arith, ground arith)
      | inr now ↦
          elim (Bool-cases (eqb_ℤ (env.value (localtime ∷ asked) (strftime p max_size)) (pos 0))) [
            | inl too_long ↦ inl ((ground arith, inr (ground arith)), ground arith, ground arith)
            | inr fits ↦ inr ((λ f. ground (arith, f.1)), ground arith)
          ]
    ]
  ]
    where
      p : Ptr
      p = env.address t (malloc max_size)

      asked : Trace
      asked = time ∷ malloc max_size ∷ t

  pub build-state : (build env s t).1 ≡ s
  unfolding build
  build-state = ground arith
