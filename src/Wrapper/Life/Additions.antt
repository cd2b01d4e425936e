-- ===== src/Wrapper/Life/Additions.antt =====
-- A symbol and a rule put into their tables keep the invariant of the wrapper of
-- src/marpaWrapper.c, on every path.
use marpa_wrapper.Prelude.{
  ℕ, ◌+◌, ◌<◌, ◌≡◌, ◌≢◌, inl, inr, Bool, true, false, Option, none, some, ◌∷◌, arith, ◌==◌,
  Bool-cases, set, length-set,
}
use marpa_wrapper.Prelude.Int.{pos, sizeof_pointer}
use marpa_wrapper.World.{
  Ptr, null, malloc, MarpaCall, g_symbol_new, g_rule_new, g_sequence_new, Trace, Env,
}
use marpa_wrapper.Buf.{Buf, create}
use marpa_wrapper.Buf.Valid
use marpa_wrapper.Buf.Valid.{most_pointers, create-Creates, Creates}
use marpa_wrapper.Wrapper.{Wrapper, Symbol, Rule, SymbolOption, RuleOption, create_pointers}
use marpa_wrapper.Wrapper.Tables.{to_size-next}
use marpa_wrapper.Wrapper.Symbols.{sizeof_symbol, store_symbol, attach_symbol, fill_symbol_lem}
use marpa_wrapper.Wrapper.Rules.{sizeof_rule, store_rule, attach_rule}
use marpa_wrapper.Wrapper.Rules.Table.{fill_rule_lem}
use marpa_wrapper.Wrapper.Life.Sound.{IsSound}

-- What `manageBuf_createp` leaves is valid, and so it is with a pointer in the last slot that it was
-- asked for.
create-IsValid :
    (env : Env) (n : ℕ) (b : Buf) (t : Trace)
    → n + 1 < most_pointers
    → Valid.IsValid b
    → let (block, room, _) = create_pointers env (n + 1) b t in
      Valid.IsValid room
      × ((p : Ptr)
          → block ≢ null
          → Valid.IsValid (record room { slots = set room.slots n p; used = n + 1 }))
create-IsValid env n b t few v =
    go (create env (n + 1) sizeof_pointer b t).0 (create env (n + 1) sizeof_pointer b t).1
      (create-Creates env (n + 1) b t v (omega arith) few)
  where
    go :
        (result : Option Ptr) (room : Buf)
        → Creates (n + 1) b result room
        → Valid.IsValid room
          × ((p : Ptr)
              → (elim result as (λ _. Ptr) [ none ↦ null | some q ↦ q ]) ≢ null
              → Valid.IsValid (record room { slots = set room.slots n p; used = n + 1 }))
    go result room (inl (refused, same)) = (rw same v, λ p ne. absurd (ne (ground arith)))
    go result room (inr (answer, fresh, valid, enough, slots, used)) = (
      valid,
      λ p ne. record {
        held = omega (arith, valid.held, length-set room.slots n p);
        room = valid.room;
        within = enough;
        allocated = valid.allocated;
      },
    )

with_symbols :
    (w : Wrapper) (b : Buf) (at : Ptr → Symbol)
    → IsSound w
    → Valid.IsValid b
    → IsSound (record w { symbols = b; symbol_at = at })
with_symbols w b at s v = record {
  symbols = v;
  rules = s.rules;
  paired = record { together = s.paired.together; owned = s.paired.owned };
}

with_rules :
    (w : Wrapper) (b : Buf) (at : Ptr → Rule)
    → IsSound w
    → Valid.IsValid b
    → IsSound (record w { rules = b; rule_at = at })
with_rules w b at s v = record {
  symbols = s.symbols;
  rules = v;
  paired = record { together = s.paired.together; owned = s.paired.owned };
}

module _ (env : Env) where
  pub attach_symbol-IsSound :
      (n : ℕ) (option : Option SymbolOption) (w : Wrapper) (t : Trace)
      → n + 1 < most_pointers
      → IsSound w
      → IsSound (attach_symbol env (pos n) option w t).1
  unfolding attach_symbol store_symbol
  attach_symbol-IsSound n option w t few s =
      rw (to_size-next n few) (elim (Bool-cases (block == null)) [
        | inl refused ↦ rw refused (with_symbols w room w.symbol_at s valid.0)
        | inr made ↦ elim (Bool-cases (p == null)) [
          | inl none_left ↦ rw (made, none_left) (with_symbols w room w.symbol_at s valid.0)
          | inr allocated ↦
              rw (made, allocated)
                (filled _
                  (fill_symbol_lem env p (pos n) option (record w { symbols = room })
                    (malloc sizeof_symbol ∷ after)).0
                  (ground arith))
        ]
      ])
    where
      block : Ptr
      block = (create_pointers env (n + 1) w.symbols t).0

      room : Buf
      room = (create_pointers env (n + 1) w.symbols t).1

      after : Trace
      after = (create_pointers env (n + 1) w.symbols t).2

      valid :
          Valid.IsValid room
          × ((p : Ptr)
              → block ≢ null
              → Valid.IsValid (record room { slots = set room.slots n p; used = n + 1 }))
      valid = create-IsValid env n w.symbols t few s.symbols

      p : Ptr
      p = env.address after (malloc sizeof_symbol)

      stored : Wrapper
      stored = (store_symbol env p (pos n) option (record w { symbols = room }) after).1

      filled : (w' : Wrapper) → w' ≡ stored → block ≢ null → IsSound w'
      filled w' same made = rw (same, to_size-next n few) (with_symbols w _ _ s (valid.1 p made))

  pub attach_rule-IsSound :
      (n : ℕ) (o : RuleOption) (w : Wrapper) (t : Trace)
      → n + 1 < most_pointers
      → IsSound w
      → IsSound (attach_rule env (pos n) o w t).1
  unfolding attach_rule store_rule
  attach_rule-IsSound n o w t few s = rw (to_size-next n few) (elim (Bool-cases (block == null)) [
    | inl refused ↦ rw refused (with_rules w room w.rule_at s valid.0)
    | inr made ↦ elim (Bool-cases (p == null)) [
      | inl none_left ↦ rw (made, none_left) (with_rules w room w.rule_at s valid.0)
      | inr allocated ↦
          rw (made, allocated)
            (filled _
              (fill_rule_lem env p (pos n) o (record w { rules = room })
                (malloc sizeof_rule ∷ after)).0
              (ground arith))
    ]
  ])
    where
      block : Ptr
      block = (create_pointers env (n + 1) w.rules t).0

      room : Buf
      room = (create_pointers env (n + 1) w.rules t).1

      after : Trace
      after = (create_pointers env (n + 1) w.rules t).2

      valid :
          Valid.IsValid room
          × ((p : Ptr)
              → block ≢ null
              → Valid.IsValid (record room { slots = set room.slots n p; used = n + 1 }))
      valid = create-IsValid env n w.rules t few s.rules

      p : Ptr
      p = env.address after (malloc sizeof_rule)

      stored : Wrapper
      stored = (store_rule env p (pos n) o (record w { rules = room }) after).1

      filled : (w' : Wrapper) → w' ≡ stored → block ≢ null → IsSound w'
      filled w' same made = rw (same, to_size-next n few) (with_rules w _ _ s (valid.1 p made))

-- the calls that make a symbol or a rule
abbrev pub makes_id : MarpaCall → Bool
makes_id (g_symbol_new _) = true
makes_id (g_rule_new _ _ _) = true
makes_id (g_sequence_new _ _ _ _ _ _) = true
makes_id _ = false
