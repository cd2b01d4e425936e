-- ===== src/Wrapper/Symbols/Memory.antt =====
-- The memory of adding a symbol, on every path of `marpaWrapper_g_addSymbolp` of src/marpaWrapper.c.
use marpa_wrapper.Prelude.{
  ℕ, ◌+◌, ◌<◌, ◌≡◌, ◌≢◌, ◌⊎◌, refl, inl, inr, true, false, Option, ◌∷◌, arith, ◌==◌, Bool-cases,
  length,
}
use marpa_wrapper.Prelude.Int.{ℤ, pos, is_minus_two}
use marpa_wrapper.World.{Ptr, null, malloc, marpa, g_symbol_new, Trace, Env}
use marpa_wrapper.World.Blocks.{gives_block, given_blocks, taken_blocks}
use marpa_wrapper.Buf.{Buf}
use marpa_wrapper.Buf.Valid
use marpa_wrapper.Buf.Valid.{most_pointers}
use marpa_wrapper.Buf.Balance.{Holds, is_block}
use marpa_wrapper.Wrapper.{Wrapper, SymbolOption, create_pointers}
use marpa_wrapper.Wrapper.Tables.{to_size-next}
use marpa_wrapper.Wrapper.Tables.Memory.{held, held-set, IsFresh, Roomy, room-Holds}
use marpa_wrapper.Wrapper.Symbols.{
  sizeof_symbol, apply_symbol_option, store_symbol, fill_symbol, attach_symbol, add_symbol,
  fill_symbol_lem,
}

not_minus_two : (n : ℕ) → is_minus_two (pos n) ≡ false
not_minus_two n = ground arith

module _ (env : Env) where
  -- the options of a symbol allocate nothing and free nothing
  apply_symbol_option-blocks :
      (q p : Ptr) (id : ℤ) (o : SymbolOption) (w : Wrapper) (t : Trace)
      → let (_, _, t') = apply_symbol_option env p id o w t in
        (given_blocks env q t' ≡ given_blocks env q t)
        × (taken_blocks env q t' ≡ taken_blocks env q t)
  unfolding apply_symbol_option
  apply_symbol_option-blocks q p id o w t = (ground arith, ground arith)

  fill_symbol-blocks :
      (q p : Ptr) (id : ℤ) (option : Option SymbolOption) (w : Wrapper) (t : Trace)
      → let (_, _, t') = fill_symbol env p id option w t in
        (given_blocks env q t' ≡ given_blocks env q t)
        × (taken_blocks env q t' ≡ taken_blocks env q t)
  unfolding fill_symbol store_symbol
  fill_symbol-blocks q p id option w t = apply_symbol_option-blocks q p id _ _ t

  store_symbol-held :
      (q p : Ptr) (n : ℕ) (option : Option SymbolOption) (w : Wrapper) (t : Trace)
      → n + 1 < most_pointers
      → n < length w.symbols.slots
      → w.symbols.used ≡ n
      → held q (store_symbol env p (pos n) option w t).1.symbols ≡ is_block q p + held q w.symbols
  unfolding store_symbol
  store_symbol-held q p n option w t few inside used =
      rw (to_size-next n few) (held-set q p n w.symbols inside used)

  attach_symbol-Holds :
      (q : Ptr) (option : Option SymbolOption) (w : Wrapper) (t : Trace)
      → q ≢ null
      → Valid.IsValid w.symbols
      → IsFresh w.symbols
      → w.symbols.used + 1 < most_pointers
      → let (_, w', t') = attach_symbol env (pos w.symbols.used) option w t in
        Holds env q (held q w.symbols) (held q w'.symbols) t t'
  unfolding attach_symbol
  attach_symbol-Holds q option w t ne v fresh few =
      rw (to_size-next n few) (elim (Bool-cases (block == null)) [
        | inl refused ↦ rw refused (omega (arith, ledger))
        | inr made ↦ elim (Bool-cases (p == null)) [
          | inl none_left ↦ rw (made, none_left) (omega (arith, ledger, no_symbol none_left))
          | inr allocated ↦ rw (made, allocated) (placed roomy (ground arith))
        ]
      ])
    where
      n : ℕ
      n = w.symbols.used

      block : Ptr
      block = (create_pointers env (n + 1) w.symbols t).0

      room : Buf
      room = (create_pointers env (n + 1) w.symbols t).1

      after : Trace
      after = (create_pointers env (n + 1) w.symbols t).2

      p : Ptr
      p = env.address after (malloc sizeof_symbol)

      roomy : Roomy n block w.symbols room
      roomy = (room-Holds env q w.symbols t ne v fresh few).0

      ledger : Holds env q (held q w.symbols) (held q room) t after
      ledger = (room-Holds env q w.symbols t ne v fresh few).1

      no_symbol : (p == null) ≡ true → is_block q p ≡ 0
      no_symbol none_left = ground arith

      gave : gives_block env q after (malloc sizeof_symbol) ≡ is_block q p
      gave = refl

      placed :
          Roomy n block w.symbols room
          → block ≢ null
          → let (_, w', t') =
              fill_symbol env p
                (pos n)
                option
                (record w { symbols = room })
                (malloc sizeof_symbol ∷ after) in
            Holds env q (held q w.symbols) (held q w'.symbols) t t'
      placed (inl (e, same)) made = absurd (made e)
      placed (inr (made', inside, used, kept)) made =
          let w1 : Wrapper = record w { symbols = room } in
          let t1 = malloc sizeof_symbol ∷ after in
          let (given, taken) = fill_symbol-blocks q p (pos n) option w1 t1 in
          let (state, _) = fill_symbol_lem env p (pos n) option w1 t1 in
          rw state (
            omega (
              arith,
              given,
              taken,
              ledger,
              gave,
              store_symbol-held q p n option w1 t1 few inside used,
            ))

  -- `marpaWrapper_g_addSymbolp`, on every path, where libmarpa numbers symbols by how many the table
  -- has: what it was given and did not give back is what the table holds more than before, the block
  -- of the table in the place of the old one and the new symbol; nothing is lost, and nothing that the
  -- table does not hold any more is kept. For a valid table that has no block while it is empty.
  pub add_symbol-Holds :
      (q : Ptr) (option : Option SymbolOption) (w : Wrapper) (t : Trace)
      → q ≢ null
      → Valid.IsValid w.symbols
      → IsFresh w.symbols
      → w.symbols.used + 1 < most_pointers
      → let id = env.value t (marpa (g_symbol_new w.grammar)) in
        (is_minus_two id ≡ true) ⊎ (id ≡ pos w.symbols.used)
        → let (_, w', t') = add_symbol env option w t in
          Holds env q (held q w.symbols) (held q w'.symbols) t t'
  unfolding add_symbol
  add_symbol-Holds q option w t ne v fresh few (inl failed) = rw failed (omega arith)
  add_symbol-Holds q option w t ne v fresh few (inr numbered) =
      rw (numbered, not_minus_two w.symbols.used)
        (omega (
          arith,
          attach_symbol-Holds q option w (marpa (g_symbol_new w.grammar) ∷ t) ne v fresh few,
        ))
