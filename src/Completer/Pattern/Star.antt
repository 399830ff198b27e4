-- ===== src/Completer/Pattern/Star.antt =====
-- A pattern with a star matches the words that begin and end with its two parts.
use mathlib.Core.Path.{ap₂}
use usql.Base.{
  ℕ, ◌+◌, ◌-◌, ◌≤◌, ◌<◌, ◌≡◌, ◌↔◌, refl, sym, ◌∙◌, ap, Bool, true, false, ◌&&◌, ◌||◌, some, [], ◌∷◌,
  ◌++◌, leb, ◌==◌, if◌then◌else◌, arith, Bytes, codes, same, same→≡, same_refl, length, take, drop,
  length-append, take-append-drop, take_append_length, drop_append_length, drop_append, drop-drop,
  Bool-cases, inl, inr, append-nil,
}
use usql.Completer.Casing.{Casing}
use usql.Completer.Pattern.{CaseType, split_bars, index_star, part_matches, any_part, word_matches}

-- A text in which a byte does not stand.
abbrev pub Without : ℕ → Bytes → Type 0
Without c [] = Unit {0}
Without c (d ∷ s) = ((d == c) ≡ false) × Without c s

index_star-append :
    (pre suf : Bytes) → Without b'*' pre → index_star (pre ++ b'*' ∷ suf) ≡ some (length pre)
unfolding index_star
index_star-append [] suf h = refl
index_star-append (c ∷ pre) suf (other, h) = rw (other, index_star-append pre suf h) refl

split_bars-append : (s : Bytes) → Without b'|' s → split_bars s ≡ (s, [])
unfolding split_bars
split_bars-append [] h = refl
split_bars-append (c ∷ s) (other, h) = rw (other, split_bars-append s h) refl

-- The beginning and the end of a word.
abbrev pub Encloses : Bytes → Bytes → Bytes → Type 0
Encloses pre suf word = (mid : Bytes) × (word ≡ pre ++ (mid ++ suf))

leb-false : (a b : ℕ) → b < a → leb a b ≡ false
leb-false a b h = ground arith

leb→le : (a b : ℕ) → leb a b ≡ true → a ≤ b
leb→le a b h = ground arith

le→leb : (a b : ℕ) → a ≤ b → leb a b ≡ true
le→leb a b h = ground arith

three : (a b c : Bool) → (a && b && c) ≡ true → (a ≡ true) × (b ≡ true) × (c ≡ true)
three a b c h = (ground (arith, h), ground (arith, h), ground (arith, h))

module _ ⦃k : Casing⦄ (pre suf word : Bytes) where
  abbrev star_pattern : Bytes
  star_pattern = pre ++ b'*' ∷ suf

  test : Bool
  test = part_matches CaseType.match_case (pre ++ b'*' ∷ suf) word (some (length pre))

  test-cut : test ≡ (
      leb (length pre + length suf) (length word)
      && same pre (take (length pre) word)
      && same suf (drop (length word - length suf) word))
  unfolding test part_matches
  test-cut =
      let whole : length (pre ++ b'*' ∷ suf) ≡ length pre + (length suf + 1) =
        length-append pre (b'*' ∷ suf) ∙ omega arith in
      let shorter : length (pre ++ b'*' ∷ suf) - 1 ≡ length pre + length suf =
        omega (arith, whole) in
      let longer = leb-false (length (pre ++ b'*' ∷ suf)) (length pre) (omega (arith, whole)) in
      let from : length word + length pre + 1 - length (pre ++ b'*' ∷ suf)
          ≡ length word - length suf =
        omega (arith, whole) in
      rw
        (shorter, longer, from, take_append_length pre (b'*' ∷ suf), drop_append pre (b'*' ∷ suf) 1)
        refl

  test_sound : test ≡ true → Encloses pre suf word
  test_sound h =
      let (enough, front, back) = three _ _ _ (sym test-cut ∙ h) in
      let n = length word - length suf - length pre in
      let after = drop (length pre) word in
      let fits : length pre + length suf ≤ length word = leb→le _ _ enough in
      let end : drop n after ≡ drop (length word - length suf) word =
        drop-drop word (length pre) n ∙ ap (λ (m : ℕ). drop m word) (omega (arith, fits)) in
      (
        take n after,
        sym (take-append-drop (length pre) word)
            ∙ ap₂ (λ (s t : Bytes). s ++ t) (sym (same→≡ pre _ front))
                (sym (take-append-drop n after)
                  ∙ ap (λ (t : Bytes). take n after ++ t) (end ∙ sym (same→≡ suf _ back))),
      )

  test_complete : Encloses pre suf word → test ≡ true
  test_complete (mid, is) =
      let size : length word ≡ length pre + (length mid + length suf) =
        ap length is ∙ length-append pre (mid ++ suf) ∙ omega (arith, length-append mid suf) in
      let front : take (length pre) word ≡ pre =
        ap (take (length pre)) is ∙ take_append_length pre (mid ++ suf) in
      let back : drop (length word - length suf) word ≡ suf =
        ap₂ (λ (n : ℕ) (s : Bytes). drop n s) (omega (arith, size)) is
        ∙ drop_append pre (mid ++ suf) (length mid)
        ∙ drop_append_length mid suf in
      let fits = le→leb (length pre + length suf) (length word) (omega (arith, size)) in
      test-cut ∙ rw (fits, front, back, same_refl pre, same_refl suf) refl

  nil_of : (s : Bytes) → length s ≡ 0 → s ≡ []
  nil_of [] h = refl
  nil_of (c ∷ s) h = absurd (omega (arith, h))

  only_star : star_pattern ≡ codes "*" → Encloses pre suf word
  only_star e =
      let size : length pre + (length suf + 1) ≡ 1 =
        omega (arith, length-append pre (b'*' ∷ suf), ap length e) in
      let no_pre = nil_of pre (omega (arith, size)) in
      let no_suf = nil_of suf (omega (arith, size)) in
      (
        word,
        sym (append-nil word) ∙ ap₂ (λ (s t : Bytes). s ++ (word ++ t)) (sym no_pre) (sym no_suf),
      )

  word_matches-cons :
      (c : ℕ) (s : Bytes)
      → (c == b'!') ≡ false
      → split_bars (c ∷ s) ≡ (c ∷ s, [])
      → word_matches CaseType.match_case (c ∷ s) word ≡ (
          if same (c ∷ s) (codes "*")
          then some true
          else some (part_matches CaseType.match_case (c ∷ s) word (index_star (c ∷ s)) || false))
  unfolding word_matches any_part
  word_matches-cons c s no_mark no_bar = rw (no_mark, no_bar) refl

  -- A pattern of two parts round a star, of which the first has no star, neither has a bar and the pattern
  -- does not begin with an exclamation mark, compared with case, gives an answer, which is that the word
  -- begins with the first part and ends with the second, one behind the other.
  pub word_matches-Encloses :
      Without b'*' pre
      → Without b'|' (pre ++ b'*' ∷ suf)
      → Without b'!' (take 1 pre)
      → (b : Bool) × (word_matches CaseType.match_case (pre ++ b'*' ∷ suf) word ≡ some b)
        × ((b ≡ true) ↔ Encloses pre suf word)
  unfolding test
  word_matches-Encloses plain no_bar no_mark = elim (Bool-cases (same star_pattern (codes "*"))) [
    | inl whole ↦
        (true, opened ∙ rw whole refl, (λ _. only_star (same→≡ star_pattern _ whole), λ _. refl))
    | inr more ↦ (
      test,
      opened
          ∙ rw more (
              ap some (
                or_false _
                ∙ ap (part_matches CaseType.match_case star_pattern word)
                    (index_star-append pre suf plain))),
      (test_sound, test_complete),
    )
  ]
    where
      at_cons :
          (p : Bytes)
          → (split_bars p ≡ (p, []))
          → Without b'!' (take 1 p)
          → 0 < length p
          → word_matches CaseType.match_case p word ≡ (
              if same p (codes "*")
              then some true
              else some (part_matches CaseType.match_case p word (index_star p) || false))
      at_cons [] bar mark some_bytes = absurd (omega (arith, some_bytes))
      at_cons (c ∷ s) bar mark some_bytes = word_matches-cons c s mark.0 bar

      or_false : (b : Bool) → (b || false) ≡ b
      or_false true = refl
      or_false false = refl

      first_mark : (s : Bytes) → Without b'!' (take 1 s) → Without b'!' (take 1 (s ++ b'*' ∷ suf))
      first_mark [] h = (refl, tt)
      first_mark (c ∷ s) h = h

      opened : word_matches CaseType.match_case star_pattern word ≡ (
          if same star_pattern (codes "*")
          then some true
          else some (
              part_matches CaseType.match_case star_pattern word (index_star star_pattern)
              || false))
      opened =
          at_cons star_pattern (split_bars-append star_pattern no_bar) (first_mark pre no_mark)
            (omega (arith, length-append pre (b'*' ∷ suf)))
