-- ===== src/Tests/Offers.antt =====
-- The theorem on what a round of the recognizer offers, where two terminals match.
use marpa_wrapper.Prelude.{
  zero, suc, ◌≡◌, ◌≢◌, none, inl, refl, [], ◌∷◌, ◌++◌, true, false, arith, ltb, ◌==◌, if◌then◌else◌,
}
use mathlib.Core.List.{Perm}
use mathlib.Core.List.Perm
use marpa_wrapper.Prelude.Int.{ℤ, pos, eqb_ℤ}
use marpa_wrapper.World.{Ptr, Trace, Call, lexeme_value_callback, reader_callback, Env}
use marpa_wrapper.Wrapper.{Wrapper}
use marpa_wrapper.Wrapper.Events.{Sorter}
use marpa_wrapper.Wrapper.Recognizer.{alternative}
use marpa_wrapper.Wrapper.Recognize.{
  RecognizerOption, PtrSorter, check_one, check, push_one, push, push_matches, sort_expected,
  read_all,
}
use marpa_wrapper.Wrapper.Recognize.Longest.{Lexes, AllHonest, AllDistinct, longest_of}
use marpa_wrapper.Wrapper.Recognize.Offers.{offered, matched_ids}
use marpa_wrapper.Wrapper.Recognize.Rearranged.{Rearranges, round-offers}
use marpa_wrapper.Wrapper.Recognize.Reads.{reads}
use marpa_wrapper.Wrapper.Recognize.Lockstep.{InStep, read_all-InStep}
use marpa_wrapper.Tests.{addresses, outputs, small, match_of, found}
use marpa_wrapper.Tests

-- A world in which the application has a value for every terminal, and one input.
abbrev given_values : Trace → Call → ℤ
given_values t (lexeme_value_callback u) = pos 1
given_values t (reader_callback u) = if reads t == 0 then pos 1 else pos 0
given_values t c = Tests.values t c

abbrev valued_world : Env
valued_world = record { address = addresses; value = given_values; output = outputs }

valued_world-Lexes : Lexes valued_world match_of
valued_world-Lexes = record { matches = λ t u e. refl; misses = λ t u e. misses u e }
  where
    misses : (u : Ptr) → eqb_ℤ (found u) (pos 1) ≡ false → match_of u ≡ 0
    misses zero e = refl
    misses (suc u) e = ground arith

terminals-AllDistinct : AllDistinct (3 ∷ 5 ∷ [])
terminals-AllDistinct = ((omega arith, tt), (tt, tt))

terminals-AllHonest : AllHonest match_of small (3 ∷ 5 ∷ [])
terminals-AllHonest = (inl refl, (inl refl, tt))

abbrev latm : RecognizerOption
latm = record { remaining_is_ok = true; longest = true; share = false; reader = 6 }

abbrev same_events : Sorter
same_events cmp events = events

abbrev same_order : PtrSorter
same_order cmp ps = ps

abbrev reading : Wrapper
reading = record small { recognizer = 9 }

pushed :
    (push_matches valued_world same_events same_order latm (pos 0) (3 ∷ 5 ∷ []) reading []).0 ≢ none
unfolding push_matches check check_one push push_one alternative
pushed = ground arith

abbrev expecting : Wrapper
expecting = record reading { expected = 3 ∷ 5 ∷ [] }

same_order-Rearranges : Rearranges same_order
same_order-Rearranges cmp ps consistent = Perm.rfl

sorted_pushed :
    let (sorted, w1, t1) = sort_expected valued_world same_events same_order latm 2 expecting [] in
    (push_matches valued_world same_events same_order latm (pos 0) sorted w1 t1).0 ≢ none
unfolding sort_expected push_matches check check_one push push_one alternative
sorted_pushed = ground arith

round-offers_example :
    let (sorted, w1, t1) = sort_expected valued_world same_events same_order latm 2 expecting [] in
    let (_, _, t') = push_matches valued_world same_events same_order latm (pos 0) sorted w1 t1 in
    let longest = longest_of match_of expecting 0 (3 ∷ 5 ∷ []) in
    Perm (offered t') (
      if ltb 0 longest
      then offered [] ++ matched_ids match_of longest expecting (3 ∷ 5 ∷ [])
      else offered [])
round-offers_example =
    round-offers valued_world match_of valued_world-Lexes same_events same_order
      same_order-Rearranges latm 2 (pos 0) expecting [] refl terminals-AllHonest
      terminals-AllDistinct (λ p here. refl) sorted_pushed

read_all-InStep_example :
    InStep
      (read_all valued_world same_events same_order 3 latm (pos 0) expecting []).0
      []
      (read_all valued_world same_events same_order 3 latm (pos 0) expecting []).2
read_all-InStep_example =
    read_all-InStep valued_world same_events same_order latm 3 (pos 0) expecting []
