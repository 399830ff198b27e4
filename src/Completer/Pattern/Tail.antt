-- ===== src/Completer/Pattern/Tail.antt =====
-- The patterns stand in the order of the line, and the previous words in the other.
use mathlib.Core.List.{reverse, reverse_aux}
use usql.Base.{
  ℕ, suc, ◌+◌, ◌≡◌, refl, ◌∙◌, ap, Bool, true, false, Option, some, List, [], ◌∷◌, if◌then◌else◌,
  arith, Runes, Bytes, length, le→ltb, ==_iff, utf8,
}
use usql.Completer.Casing.{Casing}
use usql.Completer.Pattern.{
  CaseType, word_matches, nth, test_word, and_then, match_loop, tail_matches, matches,
}

-- The words `line` against the patterns, in the order of the line.
abbrev pub in_order : ⦃k : Casing⦄ → CaseType → List Runes → List Bytes → Option Bool
in_order ct [] [] = some true
in_order ct (w ∷ ws) (p ∷ ps) = and_then (word_matches ct p (utf8 w)) (in_order ct ws ps)
in_order ct _ _ = some false

nth-reverse_aux :
    (ws acc : List Runes) (n : ℕ) → nth (reverse_aux ws acc) (length ws + n) ≡ nth acc n
unfolding nth
nth-reverse_aux [] acc n = ap (nth acc) (omega arith)
nth-reverse_aux (w ∷ ws) acc n =
    ap (nth (reverse_aux ws (w ∷ acc))) (omega arith) ∙ nth-reverse_aux ws (w ∷ acc) (suc n)

match_loop-in_order :
    ⦃k : Casing⦄ (ct : CaseType) (ws acc : List Runes) (ps : List Bytes)
    → length ws ≡ length ps
    → match_loop ct (reverse_aux ws acc) ps ≡ in_order ct ws ps
unfolding match_loop test_word
match_loop-in_order ct [] acc [] e = refl
match_loop-in_order ct [] acc (p ∷ ps) e = absurd (omega (arith, e))
match_loop-in_order ct (w ∷ ws) acc [] e = absurd (omega (arith, e))
match_loop-in_order ct (w ∷ ws) acc (p ∷ ps) e =
    let sizes : length ws ≡ length ps = omega (arith, e) in
    let found : nth (reverse_aux ws (w ∷ acc)) (length ps) ≡ some w =
      ap (nth (reverse_aux ws (w ∷ acc))) (omega (arith, sizes)) ∙ nth-reverse_aux ws (w ∷ acc) 0 in
    rw (found, match_loop-in_order ct ws (w ∷ acc) ps sizes) refl

length-reverse_aux : (ws acc : List Runes) → length (reverse_aux ws acc) ≡ length ws + length acc
length-reverse_aux [] acc = omega arith
length-reverse_aux (w ∷ ws) acc = omega (arith, length-reverse_aux ws (w ∷ acc))

-- TailMatches on the previous words, which are those of the line in the other order, tests its patterns in
-- the order of the line on as many last words; with no words before these, matches does the same.
pub tail_matches-in_order :
    ⦃k : Casing⦄ (ct : CaseType) (ws older : List Runes) (ps : List Bytes)
    → length ws ≡ length ps
    → (tail_matches ct (reverse_aux ws older) ps ≡ in_order ct ws ps)
      × (matches ct (reverse ws) ps ≡ in_order ct ws ps)
unfolding tail_matches matches
tail_matches-in_order ct ws older ps e = (
  ap (λ (b : Bool). if b then some false else match_loop ct (reverse_aux ws older) ps)
        (le→ltb _ _ (omega (arith, e, length-reverse_aux ws older)))
      ∙ match_loop-in_order ct ws older ps e,
  ap (λ (b : Bool). if b then match_loop ct (reverse ws) ps else some false)
        ((==_iff _ _).1 (omega (arith, e, length-reverse_aux ws [])))
      ∙ match_loop-in_order ct ws [] ps e,
)
