-- ===== src/Wrapper/Recognize/Offers.antt =====
-- Which terminals a round of the generic recognizer of src/marpaWrapper.c offers to libmarpa.
use marpa_wrapper.Prelude.{
  ℕ, ◌≡◌, ◌≢◌, refl, sym, ◌∙◌, inl, inr, Bool, true, false, Option, none, some, List, [], ◌∷◌, ◌++◌,
  arith, ltb, ◌==◌, if◌then◌else◌, Bool-cases,
}
use marpa_wrapper.Prelude.Int.{ℤ, pos}
use mathlib.Core.List.{append-nil, append_assoc}
use marpa_wrapper.World.{Ptr, Call, Trace, Env, M, pure, marpa, r_alternative}
use marpa_wrapper.Wrapper.{Wrapper}
use marpa_wrapper.Wrapper.Events.{Sorter}
use marpa_wrapper.Wrapper.Recognizer.{alternative}
use marpa_wrapper.Wrapper.Recognize.{
  RecognizerOption, PtrSorter, check_one, check, is_pushed, push_one, push, push_matches,
}
use marpa_wrapper.Wrapper.Recognize.Longest.{
  Lexes, match_at, AllHonest, AllDistinct, AllExact, longest_of, check_longest, longest_match,
}

-- the symbols of the calls of `marpa_r_alternative`, the oldest first
abbrev pub with_offer : List ℤ → Call → List ℤ
with_offer ids (marpa (r_alternative r id value length)) = ids ++ (id ∷ [])
with_offer ids _ = ids

abbrev pub offered : Trace → List ℤ
offered [] = []
offered (c ∷ t) = with_offer (offered t) c

module _ (env : Env) where
  -- the symbols of the terminals that are pushed
  abbrev pub pushed_ids : Bool → ℕ → Wrapper → List Ptr → List ℤ
  pushed_ids latm longest w [] = []
  pushed_ids latm longest w (p ∷ ps) =
      let rest = pushed_ids latm longest w ps in
      if is_pushed env latm longest (w.symbol_at p) then (w.symbol_at p).id ∷ rest else rest

  push_one-offers :
      (o : RecognizerOption) (longest : ℕ) (p : Ptr) (lexeme : ℤ × ℤ) (w : Wrapper) (t : Trace)
      → let (result, w', t') = push_one env o longest p lexeme w t in
        (w' ≡ w)
        × (result ≢ none
            → offered t' ≡ (
                if is_pushed env o.longest longest (w.symbol_at p)
                then offered t ++ ((w.symbol_at p).id ∷ [])
                else offered t))
  unfolding push_one alternative
  push_one-offers o longest p lexeme w t = ground arith

  -- the pushes of `ps` offer what they should
  abbrev Offers :
      RecognizerOption → ℕ → List Ptr → Wrapper → List ℤ → Option (ℤ × ℤ) × Wrapper × Trace → Type 0
  Offers o longest ps w before (result, w', t') =
      (w' ≡ w) × (result ≢ none → offered t' ≡ before ++ pushed_ids o.longest longest w ps)

  pushed_on :
      (o : RecognizerOption) (longest : ℕ) (p : Ptr) (ps : List Ptr) (w w1 : Wrapper) (t t1 : Trace)
      (pushed : Option (ℤ × ℤ))
      → ((lexeme : ℤ × ℤ) (w1 : Wrapper) (t1 : Trace)
          → Offers o longest ps w1 (offered t1) (push env o longest ps lexeme w1 t1))
      → w1 ≡ w
      → (pushed ≢ none
          → offered t1 ≡ (
              if is_pushed env o.longest longest (w.symbol_at p)
              then offered t ++ ((w.symbol_at p).id ∷ [])
              else offered t))
      → Offers o longest (p ∷ ps) w (offered t) (
          (elim pushed as (λ _. M Wrapper (Option (ℤ × ℤ))) [
            | none ↦ pure none
            | some next ↦ push env o longest ps next
          ])
            w1 t1)
  pushed_on o longest p ps w w1 t t1 none rest same e = (same, λ ne. absurd (ne refl))
  pushed_on o longest p ps w w1 t t1 (some next) rest same e =
      let (same', e') = rest next w1 t1 in
      (
        same' ∙ same,
        λ ne.
            e' ne
            ∙ rw (same, e (λ none_now. ground arith))
                (joined (offered t) (is_pushed env o.longest longest (w.symbol_at p))),
      )
    where
      ids : List ℤ
      ids = pushed_ids o.longest longest w ps

      joined :
          (before : List ℤ) (b : Bool)
          → (if b then before ++ ((w.symbol_at p).id ∷ []) else before) ++ ids
            ≡ before ++ (if b then (w.symbol_at p).id ∷ ids else ids)
      joined before true = append_assoc before _ ids
      joined before false = refl

  push-Offers :
      (o : RecognizerOption) (longest : ℕ) (ps : List Ptr) (lexeme : ℤ × ℤ) (w : Wrapper)
      (t : Trace)
      → Offers o longest ps w (offered t) (push env o longest ps lexeme w t)
  unfolding push
  push-Offers o longest [] lexeme w t = (refl, λ ne. sym (append-nil _))
  push-Offers o longest (p ∷ ps) lexeme w t =
      let (pushed, w1, t1) = push_one env o longest p lexeme w t in
      let (same, e) = push_one-offers o longest p lexeme w t in
      pushed_on o longest p ps w w1 t t1 pushed (push-Offers o longest ps) same e

  check_one-offers :
      (latm : Bool) (p : Ptr) (n : ℕ) (w : Wrapper) (t : Trace)
      → let (_, w', t') = check_one env latm p n w t in
        (offered t' ≡ offered t) × ((q : Ptr) → (w'.symbol_at q).id ≡ (w.symbol_at q).id)
  unfolding check_one
  check_one-offers latm p n w t = (ground arith, λ q. ground arith)

  -- The check of the terminals offers none, and leaves their identifiers as they are.
  check-offers :
      (latm : Bool) (ps : List Ptr) (n : ℕ) (w : Wrapper) (t : Trace)
      → let (_, w', t') = check env latm ps n w t in
        (offered t' ≡ offered t) × ((q : Ptr) → (w'.symbol_at q).id ≡ (w.symbol_at q).id)
  unfolding check
  check-offers latm [] n w t = (refl, λ q. refl)
  check-offers latm (p ∷ ps) n w t =
      let (longer, w1, t1) = check_one env latm p n w t in
      let (none_first, ids_first) = check_one-offers latm p n w t in
      let (none_later, ids_later) = check-offers latm ps longer w1 t1 in
      (none_later ∙ none_first, λ q. ids_later q ∙ ids_first q)

module _ (match_of : Ptr → ℕ) where
  -- the symbols of the terminals that match with this length
  abbrev pub matched_ids : ℕ → Wrapper → List Ptr → List ℤ
  matched_ids length w [] = []
  matched_ids length w (p ∷ ps) =
      let rest = matched_ids length w ps in
      if match_at match_of w p == length then (w.symbol_at p).id ∷ rest else rest

  pushed-matched :
      (env : Env) (length : ℕ) (w w' : Wrapper) (ps : List Ptr)
      → ((q : Ptr) → (w'.symbol_at q).id ≡ (w.symbol_at q).id)
      → AllExact match_of w w' length ps
      → pushed_ids env true length w' ps ≡ matched_ids length w ps
  pushed-matched env length w w' [] same exact = refl
  pushed-matched env length w w' (p ∷ ps) same (exact, all) =
      ground (arith, exact, same p, pushed-matched env length w w' ps same all)

module _ (env : Env) (match_of : Ptr → ℕ) (lexes : Lexes env match_of) where
  -- In LATM mode, with a lexer that answers by the user data, distinct expected terminals and
  -- predicted sizes that are 0 or no smaller than the matches: where a round does not fail, what it
  -- offers to libmarpa is exactly the terminals that match with the longest match of all, each once
  -- and in the order in which they were checked, and nothing if none of them matches.
  pub push_matches-offers :
      (qsort : Sorter) (qsort_ptr : PtrSorter) (o : RecognizerOption) (length : ℤ) (ps : List Ptr)
      (w : Wrapper) (t : Trace)
      → o.longest ≡ true
      → AllHonest match_of w ps
      → AllDistinct ps
      → (push_matches env qsort qsort_ptr o length ps w t).0 ≢ none
      → let (_, _, t') = push_matches env qsort qsort_ptr o length ps w t in
        let longest = longest_of match_of w 0 ps in
        offered t'
        ≡ (if ltb 0 longest then offered t ++ matched_ids match_of longest w ps else offered t)
  unfolding push_matches
  push_matches-offers qsort qsort_ptr o length ps w t latm honest distinct =
      rw (latm, check_longest env match_of lexes true ps 0 w t honest)
        (elim (Bool-cases (ltb 0 (longest_of match_of w 0 ps))) [
          | inr no_match ↦ rw no_match (λ ne. (check-offers env true ps 0 w t).0)
          | inl some_match ↦ rw some_match (λ ne.
              let (_, w1, t1) = check env true ps 0 w t in
              let final = longest_of match_of w 0 ps in
              let (none_yet, same) = check-offers env true ps 0 w t in
              let (_, matched) = longest_match env match_of lexes true ps w t honest distinct in
              let exact : AllExact match_of w w1 final ps = elim matched [
                | inl none_matches ↦ absurd (ground arith)
                | inr exact ↦ exact
              ] in
              let (_, pushed) =
                push-Offers env (record o { longest = true }) final ps (pos 0, length) w1 t1 in
              pushed ne ∙ rw (none_yet, pushed-matched match_of env final w w1 ps same exact) refl)
        ])
