-- ===== src/Tests/Matches.antt =====
-- The theorems on the recognizer loop at two terminals that match three and five characters.
use marpa_wrapper.Prelude.{
  zero, suc, ◌≡◌, ◌≢◌, ◌↔◌, ◌⊎◌, none, inl, refl, [], ◌∷◌, true, false, arith,
}
use marpa_wrapper.Prelude.Int.{pos, negsuc, eqb_ℤ, is_negative}
use marpa_wrapper.World.{Ptr}
use marpa_wrapper.Wrapper.{Symbol}
use marpa_wrapper.Wrapper.Recognize.{RecognizerOption, PtrSorter, symbol_cmp, check, recognize}
use marpa_wrapper.Wrapper.Recognize.Longest.{
  Lexes, AllHonest, AllDistinct, AllExact, longest_of, longest_match,
}
use marpa_wrapper.Wrapper.Events.{Sorter}
use marpa_wrapper.Wrapper.Recognize.Ends.{EndsAfter, recognize-EndsAfter}
use marpa_wrapper.Wrapper.Recognize.Order.{IsOpposite, symbol_cmp-IsOpposite}
use marpa_wrapper.Tests.{world, small, match_of, found, symbol_of}

world-Lexes : Lexes world match_of
world-Lexes = record { matches = λ t u e. refl; misses = λ t u e. misses u e }
  where
    misses : (u : Ptr) → eqb_ℤ (found u) (pos 1) ≡ false → match_of u ≡ 0
    misses zero e = refl
    misses (suc u) e = ground arith

terminals-AllDistinct : AllDistinct (3 ∷ 5 ∷ [])
terminals-AllDistinct = ((omega arith, tt), (tt, tt))

terminals-AllHonest : AllHonest match_of small (3 ∷ 5 ∷ [])
terminals-AllHonest = (inl refl, (inl refl, tt))

longest_match_example :
    let (found, w', _) = check world true (3 ∷ 5 ∷ []) 0 small [] in
    let longest = longest_of match_of small 0 (3 ∷ 5 ∷ []) in
    (found ≡ longest) × ((longest ≡ 0) ⊎ AllExact match_of small w' longest (3 ∷ 5 ∷ []))
longest_match_example =
    longest_match world match_of world-Lexes true (3 ∷ 5 ∷ []) small [] terminals-AllHonest
      terminals-AllDistinct

-- a symbol that has no first character
abbrev no_first : Symbol
no_first = record (symbol_of 3) { option = record ((symbol_of 3).option) { first_char = negsuc 0 } }

symbol_cmp-IsOpposite_example :
    IsOpposite (symbol_cmp no_first (symbol_of 3)) (symbol_cmp (symbol_of 3) no_first)
    ↔ ¬ (
        ((no_first.option.size) ≡ (symbol_of 3).option.size)
        × (is_negative no_first.option.first_char ≡ true)
        × (is_negative (symbol_of 3).option.first_char ≡ true))
symbol_cmp-IsOpposite_example = symbol_cmp-IsOpposite no_first (symbol_of 3)

-- a reader that has no input, and a recognizer that starts
abbrev reading : RecognizerOption
reading = record { remaining_is_ok = true; longest = true; share = true; reader = 6 }

world-EndsAfter : EndsAfter world 6 0
world-EndsAfter = record { no_more = λ t asked. refl }

abbrev same_events : Sorter
same_events cmp events = events

abbrev same_pointers : PtrSorter
same_pointers cmp ps = ps

recognize-EndsAfter_example :
    (recognize world same_events same_pointers 1 reading (pos 0) small []).0 ≢ none
recognize-EndsAfter_example =
    recognize-EndsAfter world same_events same_pointers reading 0 1 (pos 0) small [] world-EndsAfter
      (omega arith) (omega arith)
