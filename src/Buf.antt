-- ===== src/Buf.antt =====
-- src/manageBuf.c: the growing arrays of pointers behind the symbols, the rules and the progress
-- report of a wrapper.
pub mod Valid
pub mod Release
pub mod Dangling
pub mod Balance
use marpa_wrapper.Prelude.{
  ℕ, zero, suc, ◌+◌, ◌-◌, ◌*◌, ◌%◌, Bool, true, false, Option, none, some, List, [], ◌∷◌, ◌++◌, ltb,
  ◌==◌, if◌then◌else◌, take, replicate,
}
use marpa_wrapper.Prelude.Int.{mul_size}
use marpa_wrapper.World.{
  Ptr, null, malloc, realloc, free, Trace, Env, M, pure, ◌>>=◌, ◌>>◌, get_state, put_state, emit,
  ask_pointer,
}

-- What the three pointers `ppp`, `sizeip` and `usedNumberip` refer to. `slots` is what the block
-- holds, `bytes` its size.
pub record Buf : Type 0 where
  pub block : Ptr
  pub bytes : ℕ
  pub slots : List Ptr
  pub size : ℕ
  pub used : ℕ

abbrev pub empty : Buf
empty = record { block = null; bytes = 0; slots = []; size = 0; used = 0 }

-- How the `while` loop of `manageBuf_createp` stands after some rounds.
pub data Resized : Type 0 where
  running : Resized
  failed : Resized
  resized : Ptr → ℕ → ℕ → Resized

module _ (env : Env) where
  -- `while (sizei < wantedNumberi)`, over `pp`, the bytes behind it, `sizei` and `prevSizei`. The
  -- `none` of an allocation and the turnaround are the returns of NULL.
  unfoldable pub resize : ℕ → ℕ → ℕ → (pp bytes size prev : ℕ) → M Buf Resized
  resize zero wanted element pp bytes size prev s t =
      (if ltb size wanted then running else resized pp bytes size, s, t)
  resize (suc rounds) wanted element pp bytes size prev s t =
      let first_bytes = mul_size 100 element in
      let first = env.address t (malloc first_bytes) in
      let double = mul_size size 2 in
      let double_bytes = mul_size double element in
      let moved = env.address t (realloc pp double_bytes) in
      let start =
        resize rounds wanted element first first_bytes 100 100 s (malloc first_bytes ∷ t) in
      let next =
        resize rounds wanted element moved double_bytes double double s
          (realloc pp double_bytes ∷ t) in
      if ltb size wanted
      then (if size == 0
          then (if first == null then (failed, s, malloc first_bytes ∷ t) else start)
          else (if ltb double prev
              then (failed, s, t)
              else (if moved == null then (failed, s, realloc pp double_bytes ∷ t) else next)))
      else (resized pp bytes size, s, t)

  -- The new slots are NULL, and the caller's block and size are set. On failure they are not.
  unfoldable pub finish : Resized → M Buf (Option Ptr)
  finish running = pure none
  finish failed = pure (some null)
  finish (resized pp bytes size) = do
    s ← get_state
    put_state (record s {
      block = pp;
      bytes = bytes;
      slots = s.slots ++ replicate (size - s.size) null;
      size = size;
    })
    pure (some pp)

  -- `manageBuf_createp`, with 65 rounds for its loop; `none` means that the loop is still running.
  unfoldable pub create : ℕ → ℕ → M Buf (Option Ptr)
  create wanted element = do
    s ← get_state
    outcome ← resize 65 wanted element s.block s.bytes s.size s.size
    finish outcome

-- The loop of `manageBuf_freev` over the used slots.
pub free_slots : List Ptr → M Buf (Unit {0})
free_slots [] = pure tt
free_slots (p ∷ ps) = (if p == null then pure tt else emit (free p)) >> free_slots ps

-- `manageBuf_freev`
pub free_all : M Buf (Unit {0})
free_all = do
  s ← get_state
  if s.block == null then pure tt else (do free_slots (take s.used s.slots); emit (free s.block))
  put_state empty
