-- ===== src/Wrapper/Tables/Memory.antt =====
-- The memory of the tables of symbols and of rules of src/marpaWrapper.c: what a table holds when it
-- grows by one.
use marpa_wrapper.Prelude.{
  ℕ, ◌+◌, ◌<◌, ◌≡◌, ◌≢◌, refl, ◌⊎◌, inl, inr, Option, none, some, arith, set, take, length,
  take-append, take-set, [], ◌∷◌,
}
use marpa_wrapper.Prelude.Int.{sizeof_pointer}
use marpa_wrapper.World.{Ptr, null, Trace, Env}
use marpa_wrapper.World.Frees.{count, count-append}
use marpa_wrapper.Buf.{Buf, create}
use marpa_wrapper.Buf.Valid
use marpa_wrapper.Buf.Valid.{most_pointers, create-Creates, Creates}
use marpa_wrapper.Buf.Balance.{Holds, is_block, create-Holds}
use marpa_wrapper.Wrapper.{create_pointers}

-- how often a table has a pointer: as its block, and in its used slots
abbrev pub held : Ptr → Buf → ℕ
held q b = is_block q b.block + count q (take b.used b.slots)

-- A table that holds nothing has no block.
abbrev pub IsFresh : Buf → Type 0
IsFresh b = b.size ≡ 0 → b.block ≡ null

-- A table after room was asked for at index `n`, its number of elements.
abbrev pub Roomy : ℕ → (block : Ptr) → (before room : Buf) → Type 0
Roomy n block before room =
    ((block ≡ null) × (room ≡ before))
    ⊎ ((block ≢ null)
        × (n < length room.slots)
        × (room.used ≡ n)
        × (take n room.slots ≡ take n before.slots))

module _ (env : Env) where
  room-Roomy :
      (b : Buf) (t : Trace)
      → Valid.IsValid b
      → b.used + 1 < most_pointers
      → let (block, room, _) = create_pointers env (b.used + 1) b t in Roomy b.used block b room
  room-Roomy b t v few =
      go (create env (b.used + 1) sizeof_pointer b t).0
        (create env (b.used + 1) sizeof_pointer b t).1
        (create-Creates env (b.used + 1) b t v (omega arith) few)
    where
      go :
          (result : Option Ptr) (room : Buf)
          → Creates (b.used + 1) b result room
          → Roomy b.used (elim result as (λ _. Ptr) [ none ↦ null | some q ↦ q ]) b room
      go none room (inl (e, same)) = inl (refl, same)
      go none room (inr (e, ne, valid, wide, slots, used)) = ground (arith, e)
      go (some block) room (inl (e, same)) = inl (ground (arith, e), same)
      go (some block) room (inr (e, ne, valid, wide, slots, used)) = inr (
        ground (arith, e, ne),
        omega (arith, valid.held),
        used,
        rw slots (take-append b.slots _ b.used (omega (arith, v.held, v.within))),
      )

  -- A table that grows by one holds what it was given, and nothing else is lost.
  pub room-Holds :
      (q : Ptr) (b : Buf) (t : Trace)
      → q ≢ null
      → Valid.IsValid b
      → IsFresh b
      → b.used + 1 < most_pointers
      → let (block, room, t') = create_pointers env (b.used + 1) b t in
        Roomy b.used block b room × Holds env q (held q b) (held q room) t t'
  room-Holds q b t ne v fresh few = (
    roomy,
    omega (
      arith,
      create-Holds env (b.used + 1) q b t ne (omega (arith, v.within)) few fresh,
      counted _ _ roomy,
    ),
  )
    where
      counted :
          (block : Ptr) (room : Buf)
          → Roomy b.used block b room
          → count q (take room.used room.slots) ≡ count q (take b.used b.slots)
      counted block room (inl (e, same)) = rw same refl
      counted block room (inr (ok, inside, used, kept)) = rw (used, kept) refl

      roomy :
          Roomy b.used
            (create_pointers env (b.used + 1) b t).0
            b
            (create_pointers env (b.used + 1) b t).1
      roomy = room-Roomy b t v few

-- The element in its slot.
pub held-set :
    (q p : Ptr) (n : ℕ) (room : Buf)
    → n < length room.slots
    → room.used ≡ n
    → held q (record room { slots = set room.slots n p; used = n + 1 }) ≡ is_block q p + held q room
held-set q p n room inside used =
    rw (take-set room.slots n p inside, used, count-append q (take n room.slots) (p ∷ []))
      (omega arith)
