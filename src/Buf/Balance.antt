-- ===== src/Buf/Balance.antt =====
-- The block of an array of src/manageBuf.c that grows by at most one element at a time, as those of
-- the symbols and of the rules do: it is never lost.
use marpa_wrapper.Prelude.{
  ℕ, suc, ◌+◌, ◌*◌, ◌≤◌, ◌<◌, ◌≡◌, ◌≢◌, refl, inl, inr, true, arith, ltb, ltb→lt, ◌==◌,
  if◌then◌else◌, Bool-cases,
}
use marpa_wrapper.Prelude.Int.{mul_size, sizeof_pointer}
use marpa_wrapper.World.{Ptr, null, malloc, realloc, Trace, Env}
use marpa_wrapper.World.Blocks.{given_blocks, taken_blocks}
use marpa_wrapper.Buf.{Buf, Resized, running, failed, resized, resize, finish, create}
use marpa_wrapper.Buf.Valid.{most_pointers, resize-state}

-- From trace `t` to trace `t'` the block at `q` was given and given back so that what held it `before`
-- times holds it `after` times.
abbrev pub Holds : Env → Ptr → (before after : ℕ) → (t t' : Trace) → Type 0
Holds env q before after t t' =
    given_blocks env q t' + taken_blocks env q t + before
    ≡ taken_blocks env q t' + given_blocks env q t + after

-- one for the block itself
abbrev pub is_block : Ptr → Ptr → ℕ
is_block q p = if p == q then 1 else 0

-- the block that a loop leaves to the caller, who has the one at `pp`
abbrev block_of : Ptr → Resized → Ptr
block_of pp running = pp
block_of pp failed = pp
block_of pp (resized p bytes size) = p

module _ (env : Env) where
  -- The loop allocates once, or not at all.
  resize-Holds :
      (rounds wanted pp bytes size : ℕ) (q : Ptr) (b : Buf) (t : Trace)
      → q ≢ null
      → wanted ≤ size + 1
      → wanted < most_pointers
      → (size ≡ 0 → pp ≡ null)
      → let (outcome, _, t') =
          resize env (suc (suc rounds)) wanted sizeof_pointer pp bytes size size b t in
        Holds env q (is_block q pp) (is_block q (block_of pp outcome)) t t'
  unfolding resize
  resize-Holds rounds wanted pp bytes size q b t ne next few fresh =
      elim (Bool-cases (ltb size wanted)) [
        | inr enough ↦ ground arith
        | inl more ↦ elim (Bool-cases (size == 0)) [
          | inl none_yet ↦ elim (Bool-cases (env.address t (malloc 800) == null)) [
            | inl none_left ↦ ground (arith, fresh)
            | inr got ↦ ground (arith, fresh)
          ]
          | inr some_size ↦
              elim (Bool-cases
                (env.address t (realloc pp (mul_size (mul_size size 2) 8)) == null)) [
                  | inl none_left ↦ ground (arith, double more)
                  | inr got ↦ ground (arith, double more)
                ]
        ]
      ]
    where
      double : ltb size wanted ≡ true → mul_size size 2 ≡ size * 2
      double more = omega (arith, ltb→lt size wanted more)

  finish-block :
      (outcome : Resized) (b : Buf) (t : Trace)
      → let (_, b', t') = finish env outcome b t in (b'.block ≡ block_of b.block outcome) × (t' ≡ t)
  unfolding finish
  finish-block running b t = (refl, refl)
  finish-block failed b t = (refl, refl)
  finish-block (resized p bytes size) b t = (refl, refl)

  -- An array that grows by at most one element keeps hold of its block: what `manageBuf_createp`
  -- was given it holds in the place of what it gave back, or it leaves all as it was.
  pub create-Holds :
      (wanted : ℕ) (q : Ptr) (b : Buf) (t : Trace)
      → q ≢ null
      → wanted ≤ b.size + 1
      → wanted < most_pointers
      → (b.size ≡ 0 → b.block ≡ null)
      → let (_, b', t') = create env wanted sizeof_pointer b t in
        Holds env q (is_block q b.block) (is_block q b'.block) t t'
  unfolding create
  create-Holds wanted q b t ne next few fresh =
      let (outcome, s, t1) =
        resize env 65 wanted sizeof_pointer b.block b.bytes b.size b.size b t in
      let (block, same) = finish-block outcome s t1 in
      let state = resize-state env 65 wanted sizeof_pointer b.block b.bytes b.size b.size b t in
      rw (block, same, state)
        (resize-Holds 63 wanted b.block b.bytes b.size q b t ne next few fresh)
