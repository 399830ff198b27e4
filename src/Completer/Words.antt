-- ===== src/Completer/Words.antt =====
-- drivers/completer/completer.go: getPreviousWords, the words before the cursor.
pub mod Placed
use usql.Base.{
  ℕ, zero, suc, ◌+◌, ◌-◌, Bool, true, false, not, ◌&&◌, List, [], ◌∷◌, leb, ◌==◌, if◌then◌else◌,
  Runes, codes, get_or,
}
use usql.Stmt.Rune.{is_space}
use usql.Stmt.Scan.{slice}

-- `WORD_BREAKS`
abbrev word_breaks : Runes
word_breaks = codes "\t\n$><=;|&{() "

contains_rune : Runes → ℕ → Bool
contains_rune [] c = false
contains_rune (d ∷ s) c = if c == d then true else contains_rune s c

unfoldable pub is_break : ℕ → Bool
unfolding contains_rune
is_break c = contains_rune word_breaks c

-- The loops go down to the index -1; a position here is the index and 1.
module _ (buf : Runes) where
  -- The word break before a position.
  unfoldable pub back_to_break : ℕ → ℕ
  unfolding is_break
  back_to_break zero = 0
  back_to_break (suc n) =
      let before = back_to_break n in if is_break (get_or buf n 0) then suc n else before

  -- The last rune before a position that is no space.
  unfoldable pub back_to_text : ℕ → ℕ
  back_to_text zero = 0
  back_to_text (suc n) =
      let before = back_to_text n in if is_space (get_or buf n 0) then before else suc n

  -- The index at which the word that ends at an index starts. An opening parenthesis that nothing behind it closes
  -- makes the count of parentheses -1 and ends the loop, as 0 does.
  unfoldable pub word_start : ℕ → Bool → ℕ → ℕ
  unfolding is_break
  word_start zero inquotes parentheses = 0
  word_start (suc n) inquotes parentheses =
      let c = get_or buf (suc n) 0 in
      let quoted = if c == b'"' then not inquotes else inquotes in
      let same_depth = word_start n quoted parentheses in
      let deeper = word_start n quoted (parentheses + 1) in
      let shallower = word_start n quoted (parentheses - 1) in
      if quoted
      then same_depth
      else if c == b')'
      then deeper
      else if c == b'('
      then (if leb parentheses 1 then suc n else shallower)
      else if parentheses == 0 && is_break (get_or buf n 0)
      then suc n
      else same_depth

  -- The words before a position, the last one first, at most `fuel` of them.
  unfoldable pub words_loop : ℕ → ℕ → List Runes
  unfolding back_to_text word_start
  words_loop zero point = []
  words_loop (suc fuel) point =
      let end = back_to_text point in
      let start = word_start (end - 1) false 0 in
      let rest = words_loop fuel start in if end == 0 then [] else slice buf start end ∷ rest

unfoldable pub get_previous_words : ℕ → Runes → List Runes
unfolding back_to_break words_loop
get_previous_words point buf = let p = back_to_break buf point in words_loop buf p p
