-- ===== src/Wrapper/Recognize/Longest.antt =====
-- The longest acceptable token match: skipping a terminal whose predicted size is below the longest
-- match so far changes neither the longest match nor the terminals that have it.
use marpa_wrapper.Prelude.{
  ℕ, ◌≤◌, ◌<◌, ◌≡◌, ◌≢◌, ◌↔◌, refl, sym, ap, ◌∙◌, ◌⊎◌, Bool, true, false, List, [], ◌∷◌, arith, ltb,
  if◌then◌else◌, Bool-cases, inl, inr,
}
use marpa_wrapper.Prelude.Int.{pos, pos_part, eqb_ℤ}
use marpa_wrapper.World.{Ptr, Trace, Env, is_lexeme_callback}
use marpa_wrapper.Wrapper.{Wrapper}
use marpa_wrapper.Wrapper.Recognize.{check_one, check}

-- The lexer of the application: for the user data of a symbol, the length that it matches, 0 for no
-- match.
pub record Lexes (env : Env) (match_of : Ptr → ℕ) : Type 0 where
  pub matches :
      (t : Trace) (u : Ptr)
      → eqb_ℤ (env.value t (is_lexeme_callback u)) (pos 1) ≡ true
      → pos_part (env.output t (is_lexeme_callback u) 0) ≡ match_of u
  pub misses :
      (t : Trace) (u : Ptr)
      → eqb_ℤ (env.value t (is_lexeme_callback u)) (pos 1) ≡ false
      → match_of u ≡ 0

module _ (match_of : Ptr → ℕ) where
  -- what the symbol at an address matches
  abbrev pub match_at : Wrapper → Ptr → ℕ
  match_at w p = match_of (w.symbol_at p).option.user

  -- A predicted size that is not 0 is no smaller than the match.
  abbrev pub IsHonest : Wrapper → Ptr → Type 0
  IsHonest w p = ((w.symbol_at p).option.size ≡ 0) ⊎ (match_at w p ≤ (w.symbol_at p).option.size)

  abbrev pub AllHonest : Wrapper → List Ptr → Type 0
  AllHonest w [] = Unit
  AllHonest w (p ∷ ps) = IsHonest w p × AllHonest w ps

  -- the longest match of some symbols, and of a match before them
  abbrev pub longest_of : Wrapper → ℕ → List Ptr → ℕ
  longest_of w n [] = n
  longest_of w n (p ∷ ps) = longest_of w (if ltb n (match_at w p) then match_at w p else n) ps

-- `p` is none of the pointers.
abbrev pub IsOther : Ptr → List Ptr → Type 0
IsOther p [] = Unit
IsOther p (q ∷ qs) = (q ≢ p) × IsOther p qs

abbrev pub AllDistinct : List Ptr → Type 0
AllDistinct [] = Unit
AllDistinct (p ∷ ps) = IsOther p ps × AllDistinct ps

module _ (env : Env) (match_of : Ptr → ℕ) (lexes : Lexes env match_of) (latm : Bool) where
  check_one_option :
      (p q : Ptr) (n : ℕ) (w : Wrapper) (t : Trace)
      → ((check_one env latm p n w t).1.symbol_at q).option ≡ (w.symbol_at q).option
  unfolding check_one
  check_one_option p q n w t = ground arith

  check_one_other :
      (p q : Ptr) (n : ℕ) (w : Wrapper) (t : Trace)
      → q ≢ p
      → (check_one env latm p n w t).1.symbol_at q ≡ w.symbol_at q
  unfolding check_one
  check_one_other p q n w t ne = ground arith

  check_one_longest :
      (p : Ptr) (n : ℕ) (w : Wrapper) (t : Trace)
      → IsHonest match_of w p
      → (check_one env latm p n w t).0
        ≡ (if ltb n (match_at match_of w p) then match_at match_of w p else n)
  unfolding check_one
  check_one_longest p n w t honest = ground (
    arith,
    lexes.matches t (w.symbol_at p).option.user,
    lexes.misses t (w.symbol_at p).option.user,
  )

  check_one_length :
      (p : Ptr) (n : ℕ) (w : Wrapper) (t : Trace)
      → IsHonest match_of w p
      → let s = (check_one env latm p n w t).1.symbol_at p in
        (s.length ≡ match_at match_of w p) ⊎ ((s.length ≡ 0) × (match_at match_of w p < n))
  unfolding check_one
  check_one_length p n w t honest = ground (
    arith,
    lexes.matches t (w.symbol_at p).option.user,
    lexes.misses t (w.symbol_at p).option.user,
  )

-- The symbols have the same options.
abbrev SameOptions : Wrapper → Wrapper → Type 0
SameOptions w w' = (q : Ptr) → (w'.symbol_at q).option ≡ (w.symbol_at q).option

module _ (match_of : Ptr → ℕ) where
  AllHonest-same :
      (w w' : Wrapper) (ps : List Ptr)
      → SameOptions w w'
      → AllHonest match_of w ps
      → AllHonest match_of w' ps
  AllHonest-same w w' [] same h = tt
  AllHonest-same w w' (p ∷ ps) same (h, hs) = (rw (same p) h, AllHonest-same w w' ps same hs)

  longest_of-same :
      (w w' : Wrapper) (n : ℕ) (ps : List Ptr)
      → SameOptions w w'
      → longest_of match_of w' n ps ≡ longest_of match_of w n ps
  longest_of-same w w' n [] same = refl
  longest_of-same w w' n (p ∷ ps) same = rw (same p) (
      longest_of-same w w' (if ltb n (match_at match_of w p) then match_at match_of w p else n) ps
        same)

  longest_of-le : (w : Wrapper) (n : ℕ) (ps : List Ptr) → n ≤ longest_of match_of w n ps
  longest_of-le w n [] = omega arith
  longest_of-le w n (p ∷ ps) = ground (arith, longest_of-le w longer ps)
    where
      longer : ℕ
      longer = if ltb n (match_at match_of w p) then match_at match_of w p else n

  -- The length of each symbol is its match, or 0 where its match is shorter than `final`.
  abbrev pub AllDecided : Wrapper → Wrapper → ℕ → List Ptr → Type 0
  AllDecided w w' final [] = Unit
  AllDecided w w' final (p ∷ ps) =
      (((w'.symbol_at p).length ≡ match_at match_of w p)
        ⊎ (((w'.symbol_at p).length ≡ 0) × (match_at match_of w p < final)))
      × AllDecided w w' final ps

  -- A symbol has the longest length exactly if it has the longest match.
  abbrev pub AllExact : Wrapper → Wrapper → ℕ → List Ptr → Type 0
  AllExact w w' final [] = Unit
  AllExact w w' final (p ∷ ps) =
      (((w'.symbol_at p).length ≡ final) ↔ (match_at match_of w p ≡ final)) × AllExact w w' final ps

  AllDecided-same :
      (w0 w w' : Wrapper) (final : ℕ) (ps : List Ptr)
      → SameOptions w0 w
      → AllDecided w w' final ps
      → AllDecided w0 w' final ps
  AllDecided-same w0 w w' final [] same d = tt
  AllDecided-same w0 w w' final (p ∷ ps) same (d, ds) =
      (rw (← same p) d, AllDecided-same w0 w w' final ps same ds)

  AllExact-of :
      (w w' : Wrapper) (final : ℕ) (ps : List Ptr)
      → 0 < final
      → AllDecided w w' final ps
      → AllExact w w' final ps
  AllExact-of w w' final [] some_match d = tt
  AllExact-of w w' final (p ∷ ps) some_match (d, ds) =
      (ground arith, AllExact-of w w' final ps some_match ds)

module _ (env : Env) (match_of : Ptr → ℕ) (lexes : Lexes env match_of) (latm : Bool) where
  check_other :
      (ps : List Ptr) (q : Ptr) (n : ℕ) (w : Wrapper) (t : Trace)
      → IsOther q ps
      → (check env latm ps n w t).1.symbol_at q ≡ w.symbol_at q
  unfolding check
  check_other [] q n w t other = refl
  check_other (p ∷ ps) q n w t (ne, other) =
      check_other ps q (check_one env latm p n w t).0 (check_one env latm p n w t).1
        (check_one env latm p n w t).2 other
      ∙ check_one_other env match_of lexes latm p q n w t (λ e. ne (sym e))

  pub check_longest :
      (ps : List Ptr) (n : ℕ) (w : Wrapper) (t : Trace)
      → AllHonest match_of w ps
      → (check env latm ps n w t).0 ≡ longest_of match_of w n ps
  unfolding check
  check_longest [] n w t honest = refl
  check_longest (p ∷ ps) n w t (h, hs) =
      check_longest ps r.0 r.1 r.2 (AllHonest-same match_of w r.1 ps same hs)
      ∙ longest_of-same match_of w r.1 r.0 ps same
      ∙ ap (λ k. longest_of match_of w k ps) (check_one_longest env match_of lexes latm p n w t h)
    where
      r : ℕ × Wrapper × Trace
      r = check_one env latm p n w t

      same : SameOptions w r.1
      same q = check_one_option env match_of lexes latm p q n w t

  check_decided :
      (ps : List Ptr) (n : ℕ) (w : Wrapper) (t : Trace)
      → AllHonest match_of w ps
      → AllDistinct ps
      → AllDecided match_of w (check env latm ps n w t).1 (longest_of match_of w n ps) ps
  unfolding check
  check_decided [] n w t honest distinct = tt
  check_decided (p ∷ ps) n w t (h, hs) (other, distinct) = (
    ground (
      arith,
      check_one_length env match_of lexes latm p n w t h,
      check_other ps p r.0 r.1 r.2 other,
      longest_of-le match_of w longer ps,
    ),
    AllDecided-same match_of w r.1 (check env latm ps r.0 r.1 r.2).1
        (longest_of match_of w longer ps) ps same
        (rw
          (
            ← check_one_longest env match_of lexes latm p n w t h,
            ← longest_of-same match_of w r.1 r.0 ps same,
          )
          (check_decided ps r.0 r.1 r.2 (AllHonest-same match_of w r.1 ps same hs) distinct)),
  )
    where
      r : ℕ × Wrapper × Trace
      r = check_one env latm p n w t

      same : SameOptions w r.1
      same q = check_one_option env match_of lexes latm p q n w t

      longer : ℕ
      longer = if ltb n (match_at match_of w p) then match_at match_of w p else n

  -- With a lexer that answers by the user data, distinct expected terminals and predicted sizes that
  -- are 0 or no smaller than the matches, in any order of the terminals, skipping or not: the loop
  -- that checks them finds the length of the longest match of all, 0 if none of them matches; and
  -- where it is not 0 a terminal has this length after the loop exactly if it matches with it.
  pub longest_match :
      (ps : List Ptr) (w : Wrapper) (t : Trace)
      → AllHonest match_of w ps
      → AllDistinct ps
      → let (found, w', _) = check env latm ps 0 w t in
        let longest = longest_of match_of w 0 ps in
        (found ≡ longest) × ((longest ≡ 0) ⊎ AllExact match_of w w' longest ps)
  longest_match ps w t honest distinct = (
    check_longest ps 0 w t honest,
    elim (Bool-cases (ltb 0 (longest_of match_of w 0 ps))) [
      | inl some_match ↦ inr (
          AllExact-of match_of w (check env latm ps 0 w t).1 (longest_of match_of w 0 ps) ps
            (ground arith) (check_decided ps 0 w t honest distinct))
      | inr no_match ↦ inl (ground arith)
    ],
  )
