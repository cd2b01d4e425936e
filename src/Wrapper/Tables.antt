-- ===== src/Wrapper/Tables.antt =====
-- The tables of symbols and of rules: arrays indexed by the identifiers of libmarpa, grown by
-- `manageBuf_createp`.
pub mod Memory
use marpa_wrapper.Prelude.{
  ℕ, ◌+◌, ◌-◌, ◌<◌, ◌≡◌, ◌≢◌, refl, inl, inr, Option, none, some, arith, get_or, set, length-set,
  get_or-set_self, get_or-set_ne, get_or-append, replicate,
}
use marpa_wrapper.Prelude.Int.{pos, ◌+ℤ◌, sizeof_pointer}
use marpa_wrapper.World.{Ptr, null, Trace, Env}
use marpa_wrapper.Buf.{Buf, create}
use marpa_wrapper.Buf.Valid
use marpa_wrapper.Buf.Valid.{most_pointers, create-Creates, Creates}
use marpa_wrapper.Wrapper.{to_size, create_pointers}

pub to_size-next : (n : ℕ) → n + 1 < most_pointers → to_size (pos n +ℤ pos 1) ≡ n + 1
unfolding ◌+ℤ◌
to_size-next n few = ground arith

-- The table `after` is the table `before` with `p` at index `n`, and holds `n + 1` symbols.
pub record Puts (n : ℕ) (p : Ptr) (before after : Buf) : Type 0 where
  pub valid : Valid.IsValid after
  pub used : after.used ≡ n + 1
  pub placed : get_or after.slots n null ≡ p
  pub kept :
      (i : ℕ) → i ≢ n → i < before.size → get_or after.slots i null ≡ get_or before.slots i null

-- Writing the slot that `manageBuf_createp` made room for.
Puts-set :
    (n : ℕ) (p block : Ptr) (before room : Buf)
    → Valid.IsValid before
    → block ≢ null
    → Creates (n + 1) before (some block) room
    → Puts n p before (record room { slots = set room.slots n p; used = n + 1 })
Puts-set n p block before room v ne (inl (refused, same)) = absurd (ne (ground arith))
Puts-set n p block before room v ne (inr (answer, fresh, valid, enough, slots, used)) = record {
  valid = record {
    held = omega (arith, valid.held, length-set room.slots n p);
    room = valid.room;
    within = enough;
    allocated = valid.allocated;
  };
  used = refl;
  placed = get_or-set_self room.slots n p null (omega (arith, valid.held));
  kept = λ i other below. ground (
    arith,
    get_or-set_ne room.slots n i p null,
    get_or-append before.slots (replicate (room.size - before.size) null) i null,
  );
}

-- Room for identifier `n`, then the pointer in its slot.
pub Puts-create :
    (env : Env) (n : ℕ) (p : Ptr) (before : Buf) (t : Trace)
    → n + 1 < most_pointers
    → Valid.IsValid before
    → let (block, room, _) = create_pointers env (n + 1) before t in
      block ≢ null → Puts n p before (record room { slots = set room.slots n p; used = n + 1 })
Puts-create env n p before t few v =
    go (create env (n + 1) sizeof_pointer before t).0 (create env (n + 1) sizeof_pointer before t).1
      (create-Creates env (n + 1) before t v (omega arith) few)
  where
    go :
        (result : Option Ptr) (room : Buf)
        → Creates (n + 1) before result room
        → (elim result as (λ _. Ptr) [ none ↦ null | some q ↦ q ]) ≢ null
        → Puts n p before (record room { slots = set room.slots n p; used = n + 1 })
    go none room c ne = absurd (ne refl)
    go (some block) room c ne = Puts-set n p block before room v ne c
