-- ===== src/Wrapper/Recognize/Rearranged.antt =====
-- That the order into which the generic recognizer of src/marpaWrapper.c sorts the expected terminals
-- does not matter to what is offered to libmarpa.
use marpa_wrapper.Prelude.{
  ℕ, ◌≡◌, ◌≢◌, refl, sym, ap, ◌∙◌, inl, inr, Bool, true, false, ◌&&◌, none, List, ◌++◌, arith, ltb,
  ◌==◌, if◌then◌else◌, Bool-cases, take,
}
use marpa_wrapper.Prelude.Int.{ℤ, pos, is_negative, ltb_ℤ}
use mathlib.Core.Logic.{∥∥₁_elim}
use mathlib.Core.Path.{subst}
use mathlib.Core.List.{Memᴰ, Perm, Perm-prop, Permᴰ}
use mathlib.Core.List.Perm
use marpa_wrapper.World.{Ptr, Trace, Env}
use marpa_wrapper.Wrapper.{Wrapper}
use marpa_wrapper.Wrapper.Events.{Sorter}
use marpa_wrapper.Wrapper.Recognize.{
  RecognizerOption, PtrSorter, symbol_cmp, sort_expected, push_matches,
}
use marpa_wrapper.Wrapper.Recognize.Longest.{
  Lexes, match_at, AllHonest, IsOther, AllDistinct, longest_of,
}
use marpa_wrapper.Wrapper.Recognize.Order.{IsOpposite, symbol_cmp-IsOpposite, symbol_cmp_trans}
use marpa_wrapper.Wrapper.Recognize.Offers.{offered, matched_ids, push_matches-offers}

-- The comparison is an order on the elements: the answers for two of them are opposite to each other,
-- and it is transitive.
pub record IsConsistent (cmp : Ptr → Ptr → ℤ) (ps : List Ptr) : Type 0 where
  pub opposite : (a b : Ptr) → Memᴰ a ps → Memᴰ b ps → IsOpposite (cmp a b) (cmp b a)
  pub transitive :
      (a b c : Ptr)
      → Memᴰ a ps
      → Memᴰ b ps
      → Memᴰ c ps
      → ltb_ℤ (pos 0) (cmp a b) ≡ false
      → ltb_ℤ (pos 0) (cmp b c) ≡ false
      → ltb_ℤ (pos 0) (cmp a c) ≡ false

-- What `qsort` documents: by a comparison that is an order the elements are rearranged.
abbrev pub Rearranges : PtrSorter → Type 0
Rearranges qsort_ptr =
    (cmp : Ptr → Ptr → ℤ) (ps : List Ptr) → IsConsistent cmp ps → Perm ps (qsort_ptr cmp ps)

-- every terminal has a first character
abbrev pub HasFirstChars : Wrapper → List Ptr → Type 0
HasFirstChars w ps = (p : Ptr) → Memᴰ p ps → is_negative (w.symbol_at p).option.first_char ≡ false

symbol_cmp-IsConsistent :
    (w : Wrapper) (ps : List Ptr)
    → HasFirstChars w ps
    → IsConsistent (λ a b. symbol_cmp (w.symbol_at a) (w.symbol_at b)) ps
symbol_cmp-IsConsistent w ps has = record {
  opposite = λ a b in_a in_b.
      (symbol_cmp-IsOpposite (w.symbol_at a) (w.symbol_at b)).1
        (λ (same, no_a, no_b). ground (arith, has a in_a));
  transitive = λ a b c in_a in_b in_c first second.
      symbol_cmp_trans (w.symbol_at a) (w.symbol_at b) (w.symbol_at c) (has a in_a) (has b in_b)
        (has c in_c) first second;
}

IsOther-perm : {ps qs : List Ptr} (q : Ptr) → Permᴰ ps qs → IsOther q ps → IsOther q qs
IsOther-perm q Permᴰ.nil o = tt
IsOther-perm q (Permᴰ.cons e d) (ne, o) = (rw (sym e) ne, IsOther-perm q d o)
IsOther-perm q (Permᴰ.swap e1 e2) (ne1, (ne2, o)) = (rw (sym e2) ne2, (rw (sym e1) ne1, o))
IsOther-perm q (Permᴰ.trans d d') o = IsOther-perm q d' (IsOther-perm q d o)

AllDistinct-perm : {ps qs : List Ptr} → Permᴰ ps qs → AllDistinct ps → AllDistinct qs
AllDistinct-perm Permᴰ.nil a = tt
AllDistinct-perm (Permᴰ.cons {l₂ = qs} e d) (o, a) =
    (subst (λ q. IsOther q qs) e (IsOther-perm _ d o), AllDistinct-perm d a)
AllDistinct-perm (Permᴰ.swap {l = ps} e1 e2) ((ne, o1), (o2, a)) = (
  ((λ same. ne (e2 ∙ sym same ∙ sym e1)), subst (λ q. IsOther q ps) e2 o2),
  (subst (λ q. IsOther q ps) e1 o1, a),
)
AllDistinct-perm (Permᴰ.trans d d') a = AllDistinct-perm d' (AllDistinct-perm d a)

abbrev longer : ℕ → ℕ → ℕ
longer x y = if ltb x y then y else x

-- the longest of two matches with a third does not depend on their order
longer_comm : (a b n : ℕ) → longer (longer n b) a ≡ longer (longer n a) b
longer_comm a b n = ground arith

module _ (match_of : Ptr → ℕ) (w : Wrapper) where
  AllHonest-perm :
      {ps qs : List Ptr} → Permᴰ ps qs → AllHonest match_of w ps → AllHonest match_of w qs
  AllHonest-perm Permᴰ.nil h = tt
  AllHonest-perm (Permᴰ.cons e d) (h, hs) = (rw (sym e) h, AllHonest-perm d hs)
  AllHonest-perm (Permᴰ.swap e1 e2) (h1, (h2, hs)) = (rw (sym e2) h2, (rw (sym e1) h1, hs))
  AllHonest-perm (Permᴰ.trans d d') h = AllHonest-perm d' (AllHonest-perm d h)

  longest_of-perm :
      {ps qs : List Ptr} (n : ℕ)
      → Permᴰ ps qs
      → longest_of match_of w n ps ≡ longest_of match_of w n qs
  longest_of-perm n Permᴰ.nil = refl
  longest_of-perm n (Permᴰ.cons e d) = rw e (longest_of-perm _ d)
  longest_of-perm n (Permᴰ.swap {a' = p} {b' = q} {l = ps} e1 e2) =
      rw (e1, e2)
        (ap (λ k. longest_of match_of w k ps)
          (longer_comm (match_at match_of w p) (match_at match_of w q) n))
  longest_of-perm n (Permᴰ.trans d d') = longest_of-perm n d ∙ longest_of-perm n d'

  matched_ids-perm :
      {ps qs : List Ptr} (length : ℕ)
      → Permᴰ ps qs
      → Perm (matched_ids match_of length w ps) (matched_ids match_of length w qs)
  matched_ids-perm length Permᴰ.nil = Perm.rfl
  matched_ids-perm length (Permᴰ.cons {b = p} e d) =
      rw e (elim (Bool-cases (match_at match_of w p == length)) [
        | inl hit ↦ rw hit (Perm.cons _ (matched_ids-perm length d))
        | inr miss ↦ rw miss (matched_ids-perm length d)
      ])
  matched_ids-perm length (Permᴰ.swap {a' = p} {b' = q} e1 e2) =
      rw (e1, e2)
        (elim (Bool-cases (match_at match_of w p == length)) [
          | inl hit ↦ rw hit (elim (Bool-cases (match_at match_of w q == length)) [
            | inl other ↦ rw other (Perm.swap _ _ _)
            | inr miss ↦ rw miss Perm.rfl
          ])
          | inr miss ↦ rw miss Perm.rfl
        ])
  matched_ids-perm length (Permᴰ.trans d d') =
      Perm.trans (matched_ids-perm length d) (matched_ids-perm length d')

module _ (env : Env) (match_of : Ptr → ℕ) (lexes : Lexes env match_of) (qsort : Sorter)
    (qsort_ptr : PtrSorter) where
  -- what a round offers after the terminals were sorted
  offers_sorted :
      (o : RecognizerOption) (length : ℤ) (ps sorted : List Ptr) (w : Wrapper) (t : Trace)
      → Permᴰ ps sorted
      → o.longest ≡ true
      → AllHonest match_of w ps
      → AllDistinct ps
      → (push_matches env qsort qsort_ptr o length sorted w t).0 ≢ none
      → let (_, _, t') = push_matches env qsort qsort_ptr o length sorted w t in
        let longest = longest_of match_of w 0 ps in
        Perm
          (offered t')
          (if ltb 0 longest then offered t ++ matched_ids match_of longest w ps else offered t)
  offers_sorted o length ps sorted w t d latm honest distinct ne =
      rw
        (
          push_matches-offers env match_of lexes qsort qsort_ptr o length sorted w t latm
              (AllHonest-perm match_of w d honest) (AllDistinct-perm d distinct) ne,
          ← longest_of-perm match_of w 0 d,
        )
        (elim (Bool-cases (ltb 0 (longest_of match_of w 0 ps))) [
          | inl some_match ↦
              rw some_match
                (Perm.append_left (offered t) (Perm.symm (matched_ids-perm match_of w _ d)))
          | inr no_match ↦ rw no_match Perm.rfl
        ])

  -- In LATM mode, with a lexer that answers by the user data, distinct expected terminals and
  -- predicted sizes that are 0 or no smaller than the matches, and a first character for each, which
  -- makes the comparison of the code an order: whatever order `qsort` makes of the expected terminals,
  -- a round that does not fail offers to libmarpa, in some order, exactly the expected terminals that
  -- match with the longest match of all, and nothing if none of them matches.
  pub round-offers :
      Rearranges qsort_ptr
      → (o : RecognizerOption) (n : ℕ) (length : ℤ) (w : Wrapper) (t : Trace) → o.longest ≡ true
      → AllHonest match_of w (take n w.expected)
      → AllDistinct (take n w.expected)
      → HasFirstChars w (take n w.expected)
      → let (sorted, w1, t1) = sort_expected env qsort qsort_ptr o n w t in
        let (result, _, t') = push_matches env qsort qsort_ptr o length sorted w1 t1 in
        let ps = take n w.expected in
        let longest = longest_of match_of w 0 ps in
        result ≢ none
        → Perm
            (offered t')
            (if ltb 0 longest then offered t ++ matched_ids match_of longest w ps else offered t)
  unfolding sort_expected
  round-offers rearranges o n length w t latm honest distinct has ne =
      ∥∥₁_elim (rearranged (o.longest && ltb 1 n)) Perm-prop
        (λ d. offers_sorted o length (take n w.expected) _ _ t d latm honest distinct ne)
    where
      cmp : Ptr → Ptr → ℤ
      cmp a b = symbol_cmp (w.symbol_at a) (w.symbol_at b)

      rearranged :
          (sorts : Bool)
          → Perm
              (take n w.expected)
              (if sorts then qsort_ptr cmp (take n w.expected) else take n w.expected)
      rearranged true =
          rearranges cmp (take n w.expected) (symbol_cmp-IsConsistent w (take n w.expected) has)
      rearranged false = Perm.rfl
