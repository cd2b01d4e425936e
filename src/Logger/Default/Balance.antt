-- ===== src/Logger/Default/Balance.antt =====
-- The default callback of src/genericLogger.c as a whole: it returns, and what becomes of its blocks.
use marpa_wrapper.Prelude.{
  ℕ, zero, suc, ◌+◌, ◌-◌, ◌≤◌, ◌<◌, ◌≡◌, ◌≢◌, ◌⊎◌, inl, inr, refl, some, ◌∷◌, arith, ltb,
  if◌then◌else◌, Bool-cases, ◌==◌,
}
use marpa_wrapper.Prelude.Int.{ℤ, pos, pos_part, ◌+ℤ◌, to_size, ptrdiff_max}
use marpa_wrapper.World.{Ptr, null, Trace, Env, strlen, write, malloc}
use marpa_wrapper.World.Blocks.{given_blocks, taken_blocks, Keeps}
use marpa_wrapper.Date
use marpa_wrapper.Date.{Dated, dated, max_size}
use marpa_wrapper.Date.Balance.{date_held, FailsLate, build_loses}
use marpa_wrapper.Message
use marpa_wrapper.Message.{Built, building, internal_errors, built}
use marpa_wrapper.Message.Balance.{held, IsSteady, build-Keeps, build_returns}
use marpa_wrapper.Logger.Default.{write_all, free_date, free_built, deliver, default_callback}
use marpa_wrapper.Logger.Default.Writes.{IsWriter, write_all_from}

-- Every text is shorter than so many bytes, and those are at most the largest object.
pub record IsMeasured (env : Env) (rounds : ℕ) : Type 0 where
  pub shorter : (t : Trace) (p : Ptr) → pos_part (env.value t (strlen p)) < rounds
  pub possible : rounds ≤ ptrdiff_max

module _ {S : Type 0} (env : Env) where
  write_all-blocks :
      (rounds : ℕ) (p : Ptr) (count : ℕ) (written : ℤ) (q : Ptr) (s : S) (t : Trace)
      → let (_, _, t') = write_all env rounds p count written s t in
        (given_blocks env q t' ≡ given_blocks env q t)
        × (taken_blocks env q t' ≡ taken_blocks env q t)
  unfolding write_all
  write_all-blocks zero p count written q s t = (refl, refl)
  write_all-blocks (suc rounds) p count written q s t =
      elim (Bool-cases (ltb (to_size written) count)) [
        | inr done ↦ ground arith
        | inl more ↦
            let c = write (p + to_size written) (count - to_size written) in
            ground (arith, write_all-blocks rounds p count (written +ℤ env.value t c) q s (c ∷ t))
      ]

  module _ (writer : IsWriter env) (rounds : ℕ) (measured : IsMeasured env rounds) where
    write_all-ends :
        (p q : Ptr) (s : S) (t : Trace)
        → let count = pos_part (env.value t (strlen p)) in
          let (result, _, t') = write_all env rounds p count (pos 0) s (strlen p ∷ t) in
          (result ≡ some (pos count))
          × (given_blocks env q t' ≡ given_blocks env q t)
          × (taken_blocks env q t' ≡ taken_blocks env q t)
    write_all-ends p q s t =
        let count = pos_part (env.value t (strlen p)) in
        let blocks = write_all-blocks rounds p count (pos 0) q s (strlen p ∷ t) in
        (
          (write_all_from env writer rounds p count 0 s (strlen p ∷ t)
              (omega (arith, measured.shorter t p, measured.possible)) (omega arith)
              (omega (arith, measured.shorter t p))).0,
          omega (arith, blocks.0),
          omega (arith, blocks.1),
        )

    -- The line and the date are given back once the line is written.
    deliver_lem :
        (static : Ptr) (dates : Dated) (local : Built) (q : Ptr) (s : S) (t : Trace)
        → local ≢ building
        → let (result, _, t') = deliver env static rounds dates local s t in
          (result ≡ some tt)
          × (given_blocks env q t' ≡ given_blocks env q t)
          × (taken_blocks env q t' ≡ date_held q dates + held q local + taken_blocks env q t)
    unfolding deliver free_date free_built
    deliver_lem static dates building q s t made = absurd (made refl)
    deliver_lem static Date.internal_errors internal_errors q s t made =
        ground (arith, write_all-ends static q s t)
    deliver_lem static (dated d) internal_errors q s t made =
        ground (arith, write_all-ends static q s t)
    deliver_lem static Date.internal_errors (built p size) q s t made =
        ground (arith, write_all-ends p q s t)
    deliver_lem static (dated d) (built p size) q s t made = ground (arith, write_all-ends p q s t)

-- The default callback returns once its line is written, on every path of memory. Of each block that
-- it was given, the line's and the date's, it gave back all but one: the date's is lost where there
-- was no local time or no room for the date, and then only.
pub default_callback_returns :
    {S : Type 0} (env : Env)
    → IsSteady env
    → IsWriter env
    → (rounds : ℕ) → IsMeasured env rounds
    → (q static : Ptr) (s : S) (t : Trace) → q ≢ null
    → let (result, _, t') = default_callback env static rounds s t in
      let p = env.address t (malloc max_size) in
      (result ≡ some tt)
      × ((FailsLate env t p × Keeps env q (if p == q then 1 else 0) t t')
          ⊎ ((¬ FailsLate env t p) × Keeps env q 0 t t'))
unfolding default_callback
default_callback_returns {S} env steady writer rounds measured q static s t ne = (
  (delivered q).0,
  elim (build_loses env s t q ne) [
    | inl (late, none_kept, lost) ↦
        inl (late, ground (arith, none_kept, lost, delivered q, message q ne))
    | inr (early, kept) ↦ inr (early, ground (arith, kept, delivered q, message q ne))
  ],
)
  where
    dates : Dated
    dates = (Date.build env s t).0

    s1 : S
    s1 = (Date.build env s t).1

    t1 : Trace
    t1 = (Date.build env s t).2

    local : Built
    local = (Message.build env 2 s1 t1).0

    s2 : S
    s2 = (Message.build env 2 s1 t1).1

    t2 : Trace
    t2 = (Message.build env 2 s1 t1).2

    made : local ≢ building
    made = build_returns env steady s1 t1

    message : (q : Ptr) → q ≢ null → Keeps env q (held q local) t1 t2
    message q ne = build-Keeps env 2 q s1 t1 ne made

    delivered :
        (q : Ptr)
        → let (result, _, t') = deliver env static rounds dates local s2 t2 in
          (result ≡ some tt)
          × (given_blocks env q t' ≡ given_blocks env q t2)
          × (taken_blocks env q t' ≡ date_held q dates + held q local + taken_blocks env q t2)
    delivered q = deliver_lem env writer rounds measured static dates local q s2 t2 made
