-- ===== src/Wrapper/Getters/Added.antt =====
-- What the getters of src/marpaWrapper.c read of a symbol and of a rule that were added.
use marpa_wrapper.Prelude.{
  ℕ, ◌+◌, ◌%◌, ◌<◌, ◌≡◌, ◌≢◌, inl, inr, refl, ap, false, Option, none, some, ◌∷◌, arith, get_or,
}
use marpa_wrapper.Prelude.Int.{pos, uint_mod, is_minus_two}
use marpa_wrapper.World.{null, marpa, g_symbol_new, Trace, Env}
use marpa_wrapper.Buf.Valid
use marpa_wrapper.Buf.Valid.{most_pointers}
use marpa_wrapper.Wrapper.{Wrapper, SymbolOption}
use marpa_wrapper.Wrapper.Symbols.{add_symbol, attach_symbol-Puts}
use marpa_wrapper.Wrapper.Valuation.{to_uint}
use marpa_wrapper.Wrapper.Life.Numbered.{IsNumbered}
use marpa_wrapper.Wrapper.Getters.{symbols_size, symbol_id, symbol_user}

-- An index below the size that a getter gives.
abbrev pub IsBelow : ℕ → Option ℕ → Type 0
IsBelow n none = ⊥
IsBelow n (some size) = n < size

not_minus_two : (n : ℕ) → is_minus_two (pos n) ≡ false
not_minus_two n = ground arith

uint_of : (n : ℕ) → n + 1 < most_pointers → to_uint (pos n) ≡ n % uint_mod
uint_of n few = omega arith

module _ (env : Env) where
  -- A symbol that `marpaWrapper_g_addSymbolp` returns for an option is where the getters say: below
  -- the size of the table there is a slot that holds it, the slot of the identifier that libmarpa
  -- gave it; its own getters give that identifier, as an `unsigned int`, and the user data of the
  -- option; for a valid table and identifiers that are -2 or below 2^59 - 1.
  pub added_symbol_getters :
      IsNumbered env
      → (o : SymbolOption) (w : Wrapper) (t : Trace) → Valid.IsValid w.symbols
      → (add_symbol env (some o) w t).0 ≢ null
      → let (p, w', _) = add_symbol env (some o) w t in
        (n : ℕ) × (env.value t (marpa (g_symbol_new w.grammar)) ≡ pos n)
        × IsBelow n (symbols_size (some w'))
        × (get_or w'.symbols.slots n null ≡ p)
        × (symbol_id (some (w'.symbol_at p)) ≡ some (n % uint_mod))
        × (symbol_user (some (w'.symbol_at p)) ≡ some o.user)
  unfolding add_symbol symbols_size symbol_id symbol_user
  added_symbol_getters numbered o w t v = elim (numbered.symbol t w.grammar) [
    | inl failed ↦ rw failed (λ ne. absurd (ne refl))
    | inr (n, few, e) ↦
        rw (e, not_minus_two n)
          (λ ne.
            let (puts, id, option) =
              attach_symbol-Puts env n (some o) w (marpa (g_symbol_new w.grammar) ∷ t) few v ne in
            (
              n,
              refl,
              omega (arith, puts.used, puts.valid.within),
              puts.placed,
              rw (id, uint_of n few) refl,
              ap (λ option. some option.user) option,
            ))
  ]
