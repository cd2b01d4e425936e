-- ===== src/Wrapper/Recognize.antt =====
-- The generic recognizer loop: `marpaWrapper_r_recognizeb` of src/marpaWrapper.c, and the comparison
-- by which it sorts the expected terminals.
pub mod Longest
pub mod Offers
pub mod Rearranged
pub mod Order
pub mod Rounds
pub mod Reads
pub mod Ends
pub mod Lockstep
use marpa_wrapper.Prelude.{
  ℕ, zero, suc, ◌+◌, Bool, true, false, not, ◌&&◌, ◌||◌, Option, none, some, List, [], ◌∷◌, ◌++◌,
  ltb, ◌==◌, if◌then◌else◌, take, drop,
}
use marpa_wrapper.Prelude.Int.{ℤ, pos, negsuc, pos_part, eqb_ℤ, ltb_ℤ, is_negative}
use marpa_wrapper.World.{
  Ptr, null, reader_callback, is_lexeme_callback, lexeme_value_callback, Trace, Env, M, pure, ◌>>=◌,
  ◌>>◌, get_state, put_state,
}
use marpa_wrapper.Wrapper.{Wrapper, Symbol, to_size, update}
use marpa_wrapper.Wrapper.Events.{Sorter}
use marpa_wrapper.Wrapper.Recognizer.{alternative, complete, start, terminals_expected}

-- `marpaWrapperRecognizerOption_t`, with its three callbacks set: the user data of the reader is an
-- address, and the other two are called with the user data of a symbol.
pub record RecognizerOption : Type 0 where
  pub remaining_is_ok : Bool
  pub longest : Bool
  pub share : Bool
  pub reader : Ptr

-- `_marpaWrapper_symbol_cmp_by_sizelDesc_firstCharDesc`
pub symbol_cmp : Symbol → Symbol → ℤ
symbol_cmp a b =
    if ltb a.option.size b.option.size
    then pos 1
    else if a.option.size == b.option.size
    then (if is_negative a.option.first_char
        then pos 1
        else if is_negative b.option.first_char
        then negsuc 0
        else if ltb_ℤ a.option.first_char b.option.first_char
        then pos 1
        else if ltb_ℤ b.option.first_char a.option.first_char
        then negsuc 0
        else pos 0)
    else negsuc 0

-- `qsort` of the C library on an array of pointers.
abbrev pub PtrSorter : Type 0
PtrSorter = (Ptr → Ptr → ℤ) → List Ptr → List Ptr

-- How the loop over the reader stands after some rounds.
pub data Reading : Type 0 where
  running : Reading
  failed : Reading
  ended : Bool → Reading

module _ (env : Env) where
  -- One round of the loop that checks the expected terminals: the symbol at `p`, with the longest
  -- match so far; the result is the longest match after it.
  unfoldable pub check_one : Bool → Ptr → ℕ → M Wrapper ℕ
  check_one latm p longest w t =
      let s = w.symbol_at p in
      let c = is_lexeme_callback s.option.user in
      let found = eqb_ℤ (env.value t c) (pos 1) in
      let length = pos_part (env.output t c 0) in
      if latm && (ltb 0 s.option.size && ltb s.option.size longest)
      then (longest, record w { symbol_at = update w.symbol_at p (record s { length = 0 }) }, t)
      else (if found
          then (
            if ltb longest length then length else longest,
            record w {
              symbol_at = update w.symbol_at p (record s { is_lexeme = true; length = length });
            },
            c ∷ t,
          )
          else (
            longest,
            record w {
              symbol_at = update w.symbol_at p (record s { is_lexeme = false; length = 0 });
            },
            c ∷ t,
          ))

  unfoldable pub check : Bool → List Ptr → ℕ → M Wrapper ℕ
  check latm [] longest = pure longest
  check latm (p ∷ ps) longest = do longer ← check_one latm p longest; check latm ps longer

  -- Whether a terminal is pushed.
  abbrev pub is_pushed : Bool → ℕ → Symbol → Bool
  is_pushed latm longest s = (latm && s.length == longest) || (not latm && ltb 0 s.length)

  -- One round of the loop that pushes terminals; `none` is the failure, else the value and the length
  -- for the next round.
  unfoldable pub push_one : RecognizerOption → ℕ → Ptr → ℤ × ℤ → M Wrapper (Option (ℤ × ℤ))
  push_one o longest p (value, length) w t =
      let s = w.symbol_at p in
      let c = lexeme_value_callback s.option.user in
      let fetches = (o.share && eqb_ℤ value (pos 0)) || not o.share in
      let lexeme = if fetches then (env.output t c 0, env.output t c 1) else (value, length) in
      let t' = if fetches then c ∷ t else t in
      let r = alternative env p lexeme.0 lexeme.1 w t' in
      if is_pushed o.longest longest s
      then (if fetches && eqb_ℤ (env.value t c) (pos 0)
          then (none, w, t')
          else (if r.0 then some lexeme else none, r.1, r.2))
      else (some (value, length), w, t)

  unfoldable pub push : RecognizerOption → ℕ → List Ptr → ℤ × ℤ → M Wrapper (Option (ℤ × ℤ))
  push o longest [] lexeme = pure (some lexeme)
  push o longest (p ∷ ps) lexeme = do
    pushed ← push_one o longest p lexeme
    elim pushed [ none ↦ pure none | some next ↦ push o longest ps next ]

module _ (env : Env) (qsort : Sorter) (qsort_ptr : PtrSorter) where
  -- The terminals in the order in which they are checked: sorted in place, in LATM mode.
  unfoldable pub sort_expected : RecognizerOption → ℕ → M Wrapper (List Ptr)
  sort_expected o n w t =
      let ps = take n w.expected in
      let sorted =
        if o.longest && ltb 1 n
        then qsort_ptr (λ a b. symbol_cmp (w.symbol_at a) (w.symbol_at b)) ps
        else ps in
      (sorted, record w { expected = sorted ++ drop n w.expected }, t)

  -- Checking the terminals, then pushing those that match; the results as for `push`.
  unfoldable pub push_matches : RecognizerOption → ℤ → List Ptr → M Wrapper (Option (ℤ × ℤ))
  push_matches o length ps = do
    longest ← check env o.longest ps 0
    if ltb 0 longest then push env o longest ps (pos 0, length) else pure (some (pos 0, length))

  -- What a round does with its terminals: `none` is the failure, else the length that the next round
  -- starts with.
  unfoldable pub feed : RecognizerOption → ℤ → List Ptr → M Wrapper (Option ℤ)
  feed o length ps = do
    pushed ← push_matches o length ps
    elim pushed [
      | none ↦ pure none
      | some lexeme ↦ do
        completed ← complete env qsort
        if completed then pure (some lexeme.1) else pure none
    ]

  -- The body of the loop, after the reader; the results as for `feed`.
  unfoldable pub round : RecognizerOption → ℤ → M Wrapper (Option ℤ)
  round o length = do
    count ← terminals_expected env
    elim count [ none ↦ pure none | some n ↦ do ps ← sort_expected o (to_size n); feed o length ps ]

  -- `while (readerCallbackp(readerDatavp, &endOfInputb) == MARPAWRAPPER_BOOL_TRUE)`, at most as many
  -- rounds as the first argument says.
  unfoldable pub read_all : ℕ → RecognizerOption → ℤ → M Wrapper Reading
  read_all zero o length = pure running
  read_all (suc rounds) o length = λ w t.
      let c = reader_callback o.reader in
      let more = eqb_ℤ (env.value t c) (pos 1) in
      let r = round o length w (c ∷ t) in
      let rest : Reading × Wrapper × Trace = elim r.0 [
        | none ↦ (failed, r.1, r.2)
        | some next ↦ read_all rounds o next r.1 r.2
      ] in
      if more then rest else (ended (not (eqb_ℤ (env.output t c 0) (pos 0))), w, c ∷ t)

  -- What follows the loop.
  pub verdict : RecognizerOption → Reading → Option Bool
  verdict o running = none
  verdict o failed = some false
  verdict o (ended end_of_input) = some (end_of_input || o.remaining_is_ok)

  -- `marpaWrapper_r_recognizeb` with its callbacks set; `none` means that the reader is still giving
  -- input. `length` is what the variable `lexemelengthi` happens to hold.
  unfoldable pub recognize : ℕ → RecognizerOption → ℤ → M Wrapper (Option Bool)
  recognize rounds o length = do
    started ← start env qsort
    if started
        then (do reading ← read_all rounds o length; pure (verdict o reading))
        else pure (some false)
