-- ===== src/Completer/Words/Placed.antt =====
-- Where the previous words stand in the line.
use mathlib.Core.Path.{subst}
use usql.Base.{
  ℕ, zero, suc, ◌+◌, ◌-◌, ◌≤◌, ◌<◌, ◌≡◌, refl, Bool, true, false, not, inl, inr, ◌⊎◌, List, [], ◌∷◌,
  ◌==◌, if◌then◌else◌, if_rule, leb, ==_iff, ◌&&◌, arith, Runes, get_or, Bool-cases,
}
use usql.Completer.Words.{
  is_break, back_to_break, back_to_text, word_start, words_loop, get_previous_words,
}
use usql.Stmt.Rune.{is_space}
use usql.Stmt.Scan.{slice}

not_zero : (n : ℕ) → (suc n == 0) ≡ false
not_zero n = ground arith

module _ (buf : Runes) where
  -- The runes from `i` up to `j` are spaces.
  abbrev pub AreSpaces : ℕ → ℕ → Type 0
  AreSpaces i j = (k : ℕ) → i ≤ k → k < j → is_space (get_or buf k 0) ≡ true

  -- What `back_to_text` returns for the position `p`.
  record IsEnd (p e : ℕ) : Type 0 where
    inside : e ≤ p
    text : (n : ℕ) → e ≡ suc n → is_space (get_or buf n 0) ≡ false
    behind : AreSpaces e p

  back_to_text-IsEnd : (p : ℕ) → IsEnd p (back_to_text buf p)
  unfolding back_to_text
  back_to_text-IsEnd zero = record {
    inside = omega arith;
    text = λ n h. absurd (omega (arith, h));
    behind = λ k a b. absurd (omega arith);
  }
  back_to_text-IsEnd (suc n) = elim (Bool-cases (is_space (get_or buf n 0))) [
    | inl space ↦
        let r = back_to_text-IsEnd n in
        rw space (record {
          inside = omega (arith, r.inside);
          text = r.text;
          behind = λ k a b. last_or_before n k space (r.behind k a) b;
        })
    | inr no! ↦ rw no! (record {
      inside = omega arith;
      text = λ m h. subst (λ (i : ℕ). is_space (get_or buf i 0) ≡ false) (omega (arith, h)) no!;
      behind = λ k a b. absurd (omega arith);
    })
  ]
    where
      last_or_before :
          (n k : ℕ)
          → is_space (get_or buf n 0) ≡ true
          → (k < n → is_space (get_or buf k 0) ≡ true)
          → k < suc n
          → is_space (get_or buf k 0) ≡ true
      last_or_before n k space before b = ground (arith, before)

  word_start-le :
      (n : ℕ) (inquotes : Bool) (parentheses : ℕ) → word_start buf n inquotes parentheses ≤ n
  unfolding word_start
  word_start-le zero inquotes parentheses = omega arith
  word_start-le (suc n) inquotes parentheses =
      let c = get_or buf (suc n) 0 in
      let quoted = if c == b'"' then not inquotes else inquotes in
      ground (
        arith,
        word_start-le n quoted parentheses,
        word_start-le n quoted (parentheses + 1),
        word_start-le n quoted (parentheses - 1),
      )

  -- A word starts where the line does, behind a word break, or at an opening parenthesis.
  pub data IsWordStart : ℕ → Type 0 where
    at_line_start : IsWordStart 0
    behind : {j : ℕ} → is_break (get_or buf j 0) ≡ true → IsWordStart (suc j)
    at_parenthesis : {i : ℕ} → get_or buf i 0 ≡ b'(' → IsWordStart i

  word_start-IsWordStart :
      (n : ℕ) (inquotes : Bool) (parentheses : ℕ)
      → IsWordStart (word_start buf n inquotes parentheses)
  unfolding word_start
  word_start-IsWordStart zero inquotes parentheses = at_line_start
  word_start-IsWordStart (suc n) inquotes parentheses =
      let c = get_or buf (suc n) 0 in
      let quoted = if c == b'"' then not inquotes else inquotes in
      if_rule IsWordStart quoted (λ _. word_start-IsWordStart n quoted parentheses)
        (λ _.
          if_rule IsWordStart (c == b')') (λ _. word_start-IsWordStart n quoted (parentheses + 1))
            (λ _.
              if_rule IsWordStart (c == b'(')
                (λ opens.
                  if_rule IsWordStart (leb parentheses 1)
                    (λ _. at_parenthesis ((==_iff c b'(').0 opens))
                    (λ _. word_start-IsWordStart n quoted (parentheses - 1)))
                (λ _.
                  if_rule IsWordStart (parentheses == 0 && is_break (get_or buf n 0))
                    (λ found. behind (second_of _ _ found))
                    (λ _. word_start-IsWordStart n quoted parentheses))))
    where
      second_of : (a b : Bool) → (a && b) ≡ true → b ≡ true
      second_of a b h = ground (arith, h)

  -- Words that stand one behind the other before the position `p`, the last one first. Each has a rune or
  -- more, starts as a word does and ends with no space, and between it and the word behind it, or `p`, there
  -- are spaces only, as before the first.
  pub data ArePlaced : ℕ → List Runes → Type 0 where
    none_left : {p : ℕ} → AreSpaces 0 p → ArePlaced p []
    word :
        {p : ℕ} {ws : List Runes} (start last : ℕ)
        → IsWordStart start
        → start ≤ last
        → last < p
        → is_space (get_or buf last 0) ≡ false
        → AreSpaces (suc last) p
        → ArePlaced start ws
        → ArePlaced p (slice buf start (suc last) ∷ ws)

  words_loop-ArePlaced : (fuel p : ℕ) → p ≤ fuel → ArePlaced p (words_loop buf fuel p)
  unfolding words_loop
  words_loop-ArePlaced zero p enough = none_left (λ k a b. absurd (omega arith))
  words_loop-ArePlaced (suc fuel) p enough =
      at_end (λ start h. words_loop-ArePlaced fuel start h) (back_to_text buf p)
        (back_to_text-IsEnd p)
    where
      at_end :
          ((start : ℕ) → start ≤ fuel → ArePlaced start (words_loop buf fuel start))
          → (e : ℕ) → IsEnd p e
          → ArePlaced p (
              if e == 0
              then []
              else slice buf (word_start buf (e - 1) false 0) e
                ∷ words_loop buf fuel (word_start buf (e - 1) false 0))
      at_end rest zero r = none_left r.behind
      at_end rest (suc last) r =
          let start = word_start buf (suc last - 1) false 0 in
          let early : start ≤ last = omega (arith, word_start-le (suc last - 1) false 0) in
          rw (not_zero last) (
            word start last (word_start-IsWordStart (suc last - 1) false 0) early
              (omega (arith, r.inside)) (r.text last refl) r.behind
              (rest start (omega (arith, r.inside, enough, early))))

  -- The position `p` is behind the last word break before `point`, or 0 if there is none.
  pub record IsLastBreak (point p : ℕ) : Type 0 where
    pub inside : p ≤ point
    pub behind_break : (p ≡ 0) ⊎ ((j : ℕ) × (p ≡ suc j) × (is_break (get_or buf j 0) ≡ true))
    pub no_break : (j : ℕ) → p ≤ j → j < point → is_break (get_or buf j 0) ≡ false

  back_to_break-IsLastBreak : (point : ℕ) → IsLastBreak point (back_to_break buf point)
  unfolding back_to_break
  back_to_break-IsLastBreak zero = record {
    inside = omega arith;
    behind_break = inl refl;
    no_break = λ j a b. absurd (omega arith);
  }
  back_to_break-IsLastBreak (suc n) = elim (Bool-cases (is_break (get_or buf n 0))) [
    | inl found ↦ rw found (record {
      inside = omega arith;
      behind_break = inr (n, refl, found);
      no_break = λ j a b. absurd (omega arith);
    })
    | inr no! ↦
        let r = back_to_break-IsLastBreak n in
        rw no! (record {
          inside = omega (arith, r.inside);
          behind_break = r.behind_break;
          no_break = λ j a b. last_or_before n j no! (r.no_break j a) b;
        })
  ]
    where
      last_or_before :
          (n j : ℕ)
          → is_break (get_or buf n 0) ≡ false
          → (j < n → is_break (get_or buf j 0) ≡ false)
          → j < suc n
          → is_break (get_or buf j 0) ≡ false
      last_or_before n j h before b = ground (arith, before)

-- The previous words of the line `buf` at a position stand one behind the other up to the last word break
-- before that position, or in nothing if there is no break, with nothing but spaces between them and before
-- the first; each starts where the line does, behind a break or at an opening parenthesis, and ends with no
-- space. The loop always comes to the start of the line.
pub get_previous_words-ArePlaced :
    (buf : Runes) (point : ℕ)
    → (p : ℕ) × IsLastBreak buf point p × ArePlaced buf p (get_previous_words point buf)
unfolding get_previous_words
get_previous_words-ArePlaced buf point =
    let p = back_to_break buf point in
    (p, back_to_break-IsLastBreak buf point, words_loop-ArePlaced buf p p (omega arith))
