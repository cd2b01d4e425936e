-- ===== src/Buf/Valid.antt =====
-- `manageBuf_createp`: the loop ends, the array has room for what was wanted, the old pointers keep
-- their places, the new slots are NULL, and a failure leaves the caller's variables as they were.
use native.Mathlib.Nat.{pow-suc, mul_assoc}
use marpa_wrapper.Prelude.{
  ℕ, zero, suc, ◌-◌, ◌*◌, ◌^◌, ◌≤◌, ◌<◌, ◌≡◌, ◌≢◌, refl, ap, ◌⊎◌, inl, inr, true, false, Option,
  some, ◌∷◌, ◌++◌, arith, ltb, ltb→lt, ◌==◌, Bool-cases, length, replicate, length-append,
  length-replicate,
}
use marpa_wrapper.Prelude.Int.{mul_size, sizeof_pointer}
use marpa_wrapper.World.{Ptr, null, malloc, realloc, Trace, Env}
use marpa_wrapper.Buf.{Buf, Resized, failed, resized, resize, finish, create}

pub record IsValid (b : Buf) : Type 0 where
  pub held : length b.slots ≡ b.size
  pub room : b.size * sizeof_pointer ≤ b.bytes
  pub within : b.used ≤ b.size
  pub allocated : (b.size ≡ 0) ⊎ (b.block ≢ null)

-- Room for `wanted` pointers where there was room for `size`.
abbrev Fits : ℕ → ℕ → Resized → Type 0
Fits wanted size outcome =
    (outcome ≡ failed)
    ⊎ ((pp : Ptr) × (bytes' : ℕ) × (size' : ℕ) × (outcome ≡ resized pp bytes' size')
        × (wanted ≤ size')
        × (size ≤ size')
        × (size' * sizeof_pointer ≤ bytes')
        × (pp ≢ null))

-- What `manageBuf_createp` returns and leaves: NULL and no change, or the block of a valid array.
abbrev pub Creates : ℕ → Buf → Option Ptr → Buf → Type 0
Creates wanted b result b' =
    ((result ≡ some null) × (b' ≡ b))
    ⊎ ((result ≡ some b'.block)
        × (b'.block ≢ null)
        × IsValid b'
        × (wanted ≤ b'.size)
        × (b'.slots ≡ b.slots ++ replicate (b'.size - b.size) null)
        × (b'.used ≡ b.used))

-- beyond this many pointers an array would pass PTRDIFF_MAX
abbrev pub most_pointers : ℕ
most_pointers = 2 ^ 59

fuel_step :
    (wanted size rounds : ℕ) → wanted ≤ size * 2 ^ suc rounds → wanted ≤ size * 2 * 2 ^ rounds
fuel_step wanted size rounds h =
    rw (mul_assoc size 2 (2 ^ rounds)) (omega (arith, ap (λ (n : ℕ). size * n) (pow-suc 2 rounds)))

Fits-weaken :
    (wanted size larger : ℕ) (o : Resized)
    → size ≤ larger
    → Fits wanted larger o
    → Fits wanted size o
Fits-weaken wanted size larger o le (inl e) = inl e
Fits-weaken wanted size larger o le (inr (pp, bytes, size', e, w, l, room, ne)) =
    inr (pp, bytes, size', e, w, omega arith, room, ne)

module _ (env : Env) where
  resize-Fits :
      (rounds wanted : ℕ) (pp bytes size prev : ℕ) (b : Buf) (t : Trace)
      → wanted < most_pointers
      → 0 < size
      → prev ≡ size
      → pp ≢ null
      → size * sizeof_pointer ≤ bytes
      → wanted ≤ size * 2 ^ rounds
      → Fits wanted size (resize env rounds wanted sizeof_pointer pp bytes size prev b t).0
  unfolding resize
  resize-Fits zero wanted pp bytes size prev b t few some_size same ne room fuel =
      inr (pp, bytes, size, ground arith, omega arith, omega arith, room, ne)
  resize-Fits (suc rounds) wanted pp bytes size prev b t few some_size same ne room fuel =
      elim (Bool-cases (ltb size wanted)) [
        | inl more ↦ elim (Bool-cases (moved == null)) [
          | inl none_left ↦ inl (ground arith)
          | inr ok ↦ rw (step more ok) (
              Fits-weaken wanted size double _ (omega (arith, double_eq more)) (
                resize-Fits rounds wanted moved double_bytes double double b
                  (realloc pp double_bytes ∷ t) few (omega (arith, double_eq more)) refl
                  (ground arith) (omega (arith, double_eq more, ltb→lt size wanted more))
                  (rw (double_eq more) (fuel_step wanted size rounds fuel))))
        ]
        | inr enough ↦ inr (pp, bytes, size, ground arith, ground arith, omega arith, room, ne)
      ]
    where
      double : ℕ
      double = mul_size size 2

      double_bytes : ℕ
      double_bytes = mul_size double sizeof_pointer

      moved : Ptr
      moved = env.address t (realloc pp double_bytes)

      double_eq : ltb size wanted ≡ true → double ≡ size * 2
      double_eq more = omega (arith, ltb→lt size wanted more)

      step :
          ltb size wanted ≡ true
          → (moved == null) ≡ false
          → resize env (suc rounds) wanted sizeof_pointer pp bytes size prev b t
            ≡ resize env rounds wanted sizeof_pointer moved double_bytes double double b
                (realloc pp double_bytes ∷ t)
      step more ok = ground arith

  pub resize-state :
      (rounds wanted element pp bytes size prev : ℕ) (b : Buf) (t : Trace)
      → (resize env rounds wanted element pp bytes size prev b t).1 ≡ b
  unfolding resize
  resize-state zero wanted element pp bytes size prev b t = refl
  resize-state (suc rounds) wanted element pp bytes size prev b t = ground (
    arith,
    resize-state rounds wanted element first (mul_size 100 element) 100 100 b
        (malloc (mul_size 100 element) ∷ t),
    resize-state rounds wanted element moved (mul_size double element) double double b
        (realloc pp (mul_size double element) ∷ t),
  )
    where
      double : ℕ
      double = mul_size size 2

      first : Ptr
      first = env.address t (malloc (mul_size 100 element))

      moved : Ptr
      moved = env.address t (realloc pp (mul_size double element))

  resize_empty-Fits :
      (rounds wanted pp bytes size : ℕ) (b : Buf) (t : Trace)
      → size ≡ 0
      → 0 < wanted
      → wanted < most_pointers
      → wanted ≤ 100 * 2 ^ rounds
      → Fits wanted size (resize env (suc rounds) wanted sizeof_pointer pp bytes size size b t).0
  unfolding resize
  resize_empty-Fits rounds wanted pp bytes size b t none_yet some_wanted few fuel =
      elim (Bool-cases (first == null)) [
        | inl none_left ↦ inl (ground arith)
        | inr ok ↦ rw (step ok) (
            Fits-weaken wanted size 100 _ (omega arith) (
              resize-Fits rounds wanted first 800 100 100 b (malloc 800 ∷ t) few (omega arith) refl
                (ground arith) (omega arith) fuel))
      ]
    where
      first : Ptr
      first = env.address t (malloc 800)

      step :
          (first == null) ≡ false
          → resize env (suc rounds) wanted sizeof_pointer pp bytes size size b t
            ≡ resize env rounds wanted sizeof_pointer first 800 100 100 b (malloc 800 ∷ t)
      step ok = ground arith

  -- The whole loop, from an array that may be empty.
  resize_all-Fits :
      (wanted : ℕ) (b : Buf) (t : Trace)
      → IsValid b
      → 0 < wanted
      → wanted < most_pointers
      → Fits wanted b.size (resize env 65 wanted sizeof_pointer b.block b.bytes b.size b.size b t).0
  resize_all-Fits wanted b t v some_wanted few = elim (Bool-cases (b.size == 0)) [
    | inl none_yet ↦
        resize_empty-Fits 64 wanted b.block b.bytes b.size b t (ground arith) some_wanted few
          (omega arith)
    | inr some_size ↦
        resize-Fits 65 wanted b.block b.bytes b.size b.size b t few (ground arith) refl
          (ground arith) v.room (ground arith)
  ]

  finish-Creates :
      (outcome : Resized) (wanted : ℕ) (b : Buf) (t : Trace)
      → IsValid b
      → Fits wanted b.size outcome
      → Creates wanted b (finish env outcome b t).0 (finish env outcome b t).1
  unfolding finish
  finish-Creates outcome wanted b t v (inl e) = rw e (inl (refl, refl))
  finish-Creates outcome wanted b t v (inr (pp, bytes, size, e, w, l, room, ne)) = rw e (
      inr (
        refl,
        ne,
        record {
          held = omega (
            arith,
            length-append b.slots (replicate (size - b.size) null),
            length-replicate (size - b.size) null,
          );
          room = room;
          within = omega arith;
          allocated = inr ne;
        },
        w,
        refl,
        refl,
      ))

  -- `manageBuf_createp` on a valid array, for a number of pointers that is not 0 and below 2^59,
  -- returns: either NULL, and the variables of the caller are as they were, or the block of a valid
  -- array of at least that many slots, the old slots followed by NULL.
  pub create-Creates :
      (wanted : ℕ) (b : Buf) (t : Trace)
      → IsValid b
      → 0 < wanted
      → wanted < most_pointers
      → let (result, b', _) = create env wanted sizeof_pointer b t in Creates wanted b result b'
  unfolding create
  create-Creates wanted b t v some_wanted few =
      rw (resize-state 65 wanted sizeof_pointer b.block b.bytes b.size b.size b t) (
        finish-Creates outcome wanted b
          (resize env 65 wanted sizeof_pointer b.block b.bytes b.size b.size b t).2 v
          (resize_all-Fits wanted b t v some_wanted few))
    where
      outcome : Resized
      outcome = (resize env 65 wanted sizeof_pointer b.block b.bytes b.size b.size b t).0
