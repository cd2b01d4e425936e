-- ===== src/Wrapper/Symbols.antt =====
-- Adding symbols: `marpaWrapper_g_addSymbolp` and `_marpaWrapper_g_addSymbolp` of
-- src/marpaWrapper.c.
pub mod Memory
use marpa_wrapper.Prelude.{
  ℕ, ◌+◌, ◌<◌, ◌≡◌, ◌≢◌, ◌⊎◌, inl, inr, Bool, not, Option, none, some, ◌∷◌, arith, ◌==◌,
  if◌then◌else◌, Bool-cases, set,
}
use marpa_wrapper.Prelude.Int.{ℤ, pos, pos_part, ◌+ℤ◌, eqb_ℤ, is_negative, is_minus_two}
use marpa_wrapper.World.{
  Ptr, null, malloc, marpa, g_symbol_new, g_symbol_is_terminal_set, g_start_symbol_set,
  g_symbol_is_completion_event_set, g_symbol_is_nulled_event_set, g_symbol_is_prediction_event_set,
  MarpaCall, Trace, Env, M, pure, ◌>>=◌, ◌>>◌, get_state, put_state, ask_int, ask_pointer,
}
use marpa_wrapper.Buf.{Buf}
use marpa_wrapper.Buf.Valid
use marpa_wrapper.Buf.Valid.{most_pointers}
use marpa_wrapper.Wrapper.Tables.{to_size-next, Puts, Puts-create}
use marpa_wrapper.Wrapper.{
  Wrapper, SymbolOption, symbol_option_default, completed, nulled, predicted, subscribes, to_size,
  update, log_g_error, log_sys_error, in_symbols, create_pointers,
}

-- sizeof(marpaWrapperSymbol_t) on the platforms with 8-byte pointers
abbrev pub sizeof_symbol : ℕ
sizeof_symbol = 72

-- The option that a new symbol gets.
abbrev pub chosen_option : Option SymbolOption → SymbolOption → SymbolOption
chosen_option none memory = symbol_option_default memory
chosen_option (some o) memory = o

module _ (env : Env) where
  -- `if (wanted) { if (the call is refused) { MARPAWRAPPER_LOG_MARPA_G_ERROR; return NULL; } }`
  abbrev pub require : Bool → MarpaCall → (ℤ → Bool) → M Wrapper Ptr → M Wrapper Ptr
  require wanted c refused rest = do
    w ← get_state
    if wanted
        then (do
          answer ← ask_int env (marpa c)
          if refused answer then log_g_error env w.grammar >> pure null else rest)
        else rest

  -- The options of a new symbol, applied in order; the result is the symbol, or NULL.
  unfoldable pub apply_symbol_option : Ptr → ℤ → SymbolOption → M Wrapper Ptr
  apply_symbol_option p id o = do
    w ← get_state
    require o.terminal (g_symbol_is_terminal_set w.grammar id (pos 1)) (λ i. not (eqb_ℤ i (pos 1)))
        (require o.start (g_start_symbol_set w.grammar id) is_negative (
          require (subscribes o.event_set completed)
            (g_symbol_is_completion_event_set w.grammar id (pos 1)) (λ i. not (eqb_ℤ i (pos 1)))
            (require (subscribes o.event_set nulled)
              (g_symbol_is_nulled_event_set w.grammar id (pos 1)) (λ i. not (eqb_ℤ i (pos 1)))
              (require (subscribes o.event_set predicted)
                (g_symbol_is_prediction_event_set w.grammar id (pos 1)) (λ i. not (eqb_ℤ i (pos 1)))
                (pure p)))))

  -- The symbol in its slot, with its fields.
  unfoldable pub store_symbol : Ptr → ℤ → Option SymbolOption → M Wrapper (Unit {0})
  store_symbol p id option = do
    w ← get_state
    put_state (record w {
      symbols = record (w.symbols) {
        slots = set w.symbols.slots (pos_part id) p;
        used = to_size (id +ℤ pos 1);
      };
      symbol_at = update w.symbol_at p (record (w.symbol_at p) {
        id = id;
        option = chosen_option option (w.symbol_at p).option;
      });
    })

  -- What follows the allocation of the symbol.
  unfoldable pub fill_symbol : Ptr → ℤ → Option SymbolOption → M Wrapper Ptr
  fill_symbol p id option = do
    store_symbol p id option
    w ← get_state
    apply_symbol_option p id (w.symbol_at p).option

  -- `_marpaWrapper_g_addSymbolp`
  unfoldable pub attach_symbol : ℤ → Option SymbolOption → M Wrapper Ptr
  attach_symbol id option = do
    block ← in_symbols (create_pointers env (to_size (id +ℤ pos 1)))
    if block == null then log_sys_error env "manageBuf_createp()" >> pure null else (do
      p ← ask_pointer env (malloc sizeof_symbol)
      if p == null then log_sys_error env "malloc()" >> pure null else fill_symbol p id option)

  -- `marpaWrapper_g_addSymbolp`
  unfoldable pub add_symbol : Option SymbolOption → M Wrapper Ptr
  add_symbol option = do
    w ← get_state
    id ← ask_int env (marpa (g_symbol_new w.grammar))
    if is_minus_two id then log_g_error env w.grammar >> pure null else attach_symbol id option

module _ (env : Env) where
  -- Applying the options changes nothing of the wrapper, and returns the symbol or NULL.
  pub apply_symbol_option_lem :
      (p : Ptr) (id : ℤ) (o : SymbolOption) (w : Wrapper) (t : Trace)
      → let (result, w', _) = apply_symbol_option env p id o w t in
        (w' ≡ w) × ((result ≡ null) ⊎ (result ≡ p))
  unfolding apply_symbol_option
  apply_symbol_option_lem p id o w t = ground arith

module _ (env : Env) where
  pub fill_symbol_lem :
      (p : Ptr) (id : ℤ) (option : Option SymbolOption) (w : Wrapper) (t : Trace)
      → let (result, w', _) = fill_symbol env p id option w t in
        (w' ≡ (store_symbol env p id option w t).1) × ((result ≡ null) ⊎ (result ≡ p))
  unfolding fill_symbol store_symbol
  fill_symbol_lem p id option w t = apply_symbol_option_lem env p id _ _ t

  -- A symbol that `_marpaWrapper_g_addSymbolp` returns, for an identifier below 2^59 - 1 and a valid
  -- table, stands in the table at its identifier and carries it and its option, the table is valid and
  -- counts up to it, and every other slot that the table had is as it was.
  pub attach_symbol-Puts :
      (n : ℕ) (option : Option SymbolOption) (w : Wrapper) (t : Trace)
      → n + 1 < most_pointers
      → Valid.IsValid w.symbols
      → (attach_symbol env (pos n) option w t).0 ≢ null
      → let (p, w', _) = attach_symbol env (pos n) option w t in
        Puts n p w.symbols w'.symbols
        × ((w'.symbol_at p).id ≡ pos n)
        × ((w'.symbol_at p).option ≡ chosen_option option (w.symbol_at p).option)
  unfolding attach_symbol store_symbol
  attach_symbol-Puts n option w t few v =
      rw (to_size-next n few) (elim (Bool-cases (block == null)) [
        | inl refused ↦ λ ne. absurd (ne (ground arith))
        | inr made ↦ elim (Bool-cases (p == null)) [
          | inl none_left ↦ λ ne. absurd (ne (ground arith))
          | inr allocated ↦
              rw (made, allocated)
                (placed _ _
                  (fill_symbol_lem p (pos n) option (record w { symbols = room })
                    (malloc sizeof_symbol ∷ after))
                  (ground arith))
        ]
      ])
    where
      block : Ptr
      block = (create_pointers env (n + 1) w.symbols t).0

      room : Buf
      room = (create_pointers env (n + 1) w.symbols t).1

      after : Trace
      after = (create_pointers env (n + 1) w.symbols t).2

      p : Ptr
      p = env.address after (malloc sizeof_symbol)

      stored : Wrapper
      stored = (store_symbol env p (pos n) option (record w { symbols = room }) after).1

      placed :
          (result : Ptr) (w' : Wrapper)
          → (w' ≡ stored) × ((result ≡ null) ⊎ (result ≡ p))
          → block ≢ null
          → result ≢ null
          → Puts n result w.symbols w'.symbols
            × ((w'.symbol_at result).id ≡ pos n)
            × ((w'.symbol_at result).option ≡ chosen_option option (w.symbol_at result).option)
      placed result w' (same, inl refused) made ne = absurd (ne refused)
      placed result w' (same, inr found) made ne =
          rw (same, found, to_size-next n few)
            (Puts-create env n p w.symbols t few v made, ground arith, ground arith)
