-- ===== src/Completer/Pattern.antt =====
-- drivers/completer/completer.go: wordMatches, TailMatches and matches, the tests on the previous words.
pub mod Star
pub mod Tail
use mathlib.Core.Option
use usql.Base.{
  ℕ, zero, suc, ◌+◌, ◌-◌, Bool, true, false, not, ◌&&◌, ◌||◌, Option, none, some, List, [], ◌∷◌,
  ltb, leb, ◌==◌, if◌then◌else◌, Runes, Bytes, codes, same, length, take, drop, utf8,
}
use usql.Completer.Casing.{Casing}

pub data CaseType : Type 0 where
  ignore_case match_case : CaseType

-- `cmp`
abbrev pub cmp : ⦃k : Casing⦄ → CaseType → Bytes → Bytes → Bool
cmp ⦃k⦄ CaseType.ignore_case = k.equal_fold
cmp CaseType.match_case = same

-- `strings.Split(pattern, "|")`: the first part and the others.
unfoldable pub split_bars : Bytes → Bytes × List Bytes
split_bars [] = ([], [])
split_bars (c ∷ s) =
    let (part, parts) = split_bars s in if c == b'|' then ([], part ∷ parts) else (c ∷ part, parts)

-- `strings.IndexByte(p, '*')`
unfoldable pub index_star : Bytes → Option ℕ
index_star [] = none
index_star (c ∷ s) = let rest = index_star s in if c == b'*' then some 0 else Option.map suc rest

-- A part of a pattern, with its first star, if there is one.
pub part_matches : ⦃k : Casing⦄ → CaseType → Bytes → Bytes → Option ℕ → Bool
part_matches ct p word none = cmp ct p word
part_matches ct p word (some star) =
    leb (length p - 1) (length word)
    && cmp ct (take star p) (take star word)
    && (leb (length p) star
        || cmp ct (drop (star + 1) p) (drop (length word + star + 1 - length p) word))

pub any_part : ⦃k : Casing⦄ → CaseType → List Bytes → Bytes → Bool
unfolding part_matches index_star
any_part ct [] word = false
any_part ct (p ∷ ps) word = part_matches ct p word (index_star p) || any_part ct ps word

-- A word and a pattern are their bytes. `none` is the panic on the first byte of an empty pattern.
unfoldable pub word_matches : ⦃k : Casing⦄ → CaseType → Bytes → Bytes → Option Bool
unfolding any_part split_bars
word_matches ct [] word = none
word_matches ct (c ∷ pattern) word =
    let negated = Option.map not (word_matches ct pattern word) in
    let (part, parts) = split_bars (c ∷ pattern) in
    if same (c ∷ pattern) (codes "*")
    then some true
    else if c == b'!'
    then negated
    else some (any_part ct (part ∷ parts) word)

-- `words[n]`; `none` is the panic.
unfoldable pub nth : List Runes → ℕ → Option Runes
nth [] n = none
nth (w ∷ ws) zero = some w
nth (w ∷ ws) (suc n) = nth ws n

-- A word that is there is tested.
unfoldable pub test_word : ⦃k : Casing⦄ → CaseType → Bytes → Option Runes → Option Bool
unfolding word_matches
test_word ct p none = none
test_word ct p (some w) = word_matches ct p (utf8 w)

-- `&&` on results that may be panics; a false one is not followed by the other.
abbrev pub and_then : Option Bool → Option Bool → Option Bool
and_then none b = none
and_then (some false) b = some false
and_then (some true) b = b

-- The loop over the patterns; the last one is for the first word.
unfoldable pub match_loop : ⦃k : Casing⦄ → CaseType → List Runes → List Bytes → Option Bool
unfolding test_word nth
match_loop ct words [] = some true
match_loop ct words (p ∷ ps) =
    and_then (test_word ct p (nth words (length ps))) (match_loop ct words ps)

unfoldable pub tail_matches : ⦃k : Casing⦄ → CaseType → List Runes → List Bytes → Option Bool
unfolding match_loop
tail_matches ct words patterns =
    if ltb (length words) (length patterns) then some false else match_loop ct words patterns

unfoldable pub matches : ⦃k : Casing⦄ → CaseType → List Runes → List Bytes → Option Bool
unfolding match_loop
matches ct words patterns =
    if length words == length patterns then match_loop ct words patterns else some false
