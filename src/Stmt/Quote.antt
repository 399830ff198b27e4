-- ===== src/Stmt/Quote.antt =====
-- stmt/parse.go: dollar tags, quoted strings and multiline comments. A loop whose body may step over
-- a rune recurs on fuel: each round moves on by one at least, so that `end - i` rounds are enough,
-- and with no fuel left the result is the loop's at its end.
pub mod Bounds
pub mod RoundTrip
use usql.Base.{
  ℕ, zero, suc, ◌+◌, ◌-◌, Bool, true, false, not, ◌&&◌, ◌||◌, List, [], ◌∷◌, ltb, leb, ◌==◌,
  if◌then◌else◌, Runes, length, same,
}
use usql.Stmt.Rune.{within}
use usql.Stmt.Scan.{rune_at, slice, grab}

-- One rune of `(?i)[a-z0-9_]`. Go folds case by Unicode's simple folding, which takes U+017F to `s`
-- and U+212A to `k`.
identifier_start : ℕ → Bool
identifier_start c =
    within b'a' b'z' c || within b'A' b'Z' c || c == b'_' || c == 0x17f || c == 0x212a

identifier_part : ℕ → Bool
unfolding identifier_start
identifier_part c = identifier_start c || within b'0' b'9' c

identifier_parts : Runes → Bool
identifier_parts [] = true
identifier_parts (c ∷ s) = identifier_part c && identifier_parts s

-- `identifierRE.MatchString`.
unfoldable pub identifier_re : Runes → Bool
unfolding identifier_start identifier_part identifier_parts
identifier_re [] = false
identifier_re (c ∷ s) = identifier_start c && identifier_parts s && leb (length s) 127

-- What the loop of `readDollarAndTag` leaves: the position, and `found`.
pub dollar_loop : Runes → ℕ → ℕ → ℕ → ℕ × Bool
dollar_loop r start zero i = (i, false)
dollar_loop r start (suc n) i =
    if rune_at r i == b'$'
    then (i, true)
    else if ltb 128 (i - start)
    then (i, false)
    else dollar_loop r start n (i + 1)

-- The tag, the position, and whether they are valid.
pub record Dollar : Type 0 where
  pub id : Runes
  pub at : ℕ
  pub valid : Bool

dollar_tag : Runes → ℕ → ℕ × Bool → Dollar
dollar_tag r start (i, false) = record { id = []; at = i; valid = false }
dollar_tag r start (i, true) =
    let tag = slice r (start + 1) i in
    if not (same tag []) && not (identifier_re tag)
    then record { id = []; at = i; valid = false }
    else record { id = tag; at = i; valid = true }

unfoldable pub read_dollar_and_tag : Runes → ℕ → ℕ → Dollar
unfolding dollar_loop dollar_tag
read_dollar_and_tag r i end = dollar_tag r i (dollar_loop r i (end - (i + 1)) (i + 1))

-- What one round of `readString` does: return, or go on at a position with a `prev`.
pub data Reading : Type 0 where
  found : ℕ → Reading
  move : ℕ → ℕ → Reading

abbrev quote_char : ℕ
quote_char = b'\''

pub string_round : Runes → ℕ → ℕ → Runes → ℕ → ℕ → Reading
string_round r end quote tag i prev =
    let c = rune_at r i in
    let next = grab r (i + 1) end in
    let tagged = read_dollar_and_tag r i end in
    if quote == quote_char && c == b'\\'
    then move (i + 2) 0
    else if quote == quote_char && c == quote_char && next == quote_char
    then move (i + 2) prev
    else if (quote == quote_char && c == quote_char && not (prev == quote_char))
        || (quote == b'"' && c == b'"')
        || (quote == b'`' && c == b'`')
    then found i
    else if quote == b'$' && c == b'$' && tagged.valid && same tag tagged.id
    then found tagged.at
    else move (i + 1) c

pub string_loop : Runes → ℕ → ℕ → Runes → ℕ → ℕ → ℕ → ℕ × Bool
string_loop r end quote tag zero i prev = (end, false)
string_loop r end quote tag (suc n) i prev = elim (ltb i end) [
  | false ↦ (end, false)
  | true ↦ elim (string_round r end quote tag i prev) [
    | found pos ↦ (pos, true)
    | move j p ↦ string_loop r end quote tag n j p
  ]
]

unfoldable pub read_string : Runes → ℕ → ℕ → ℕ → Runes → ℕ × Bool
unfolding string_round string_loop
read_string r i end quote tag = string_loop r end quote tag (end - i) i 0

comment_loop : Runes → ℕ → ℕ → ℕ → ℕ × Bool
comment_loop r end zero i = (end, false)
comment_loop r end (suc n) i =
    if rune_at r (i - 1) == b'*' && rune_at r i == b'/'
    then (i, true)
    else comment_loop r end n (i + 1)

unfoldable pub read_multiline_comment : Runes → ℕ → ℕ → ℕ × Bool
unfolding comment_loop
read_multiline_comment r i end = comment_loop r end (end - (i + 1)) (i + 1)
