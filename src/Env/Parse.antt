-- ===== src/Env/Parse.antt =====
-- env/types.go: ParseBool, ParseKeywordBool and the patterns of values, and the numbers that `strconv.Atoi` reads.
pub mod Words
use usql.Base.{
  ℕ, zero, suc, ◌+◌, ◌-◌, ◌*◌, ◌/◌, ◌%◌, ◌^◌, Bool, true, false, ◌&&◌, Option, none, some, List, [],
  ◌∷◌, ltb, leb, ◌==◌, if◌then◌else◌, min, map, Runes, codes, among,
}

abbrev pub on : Runes
on = codes "on"

abbrev pub off : Runes
off = codes "off"

abbrev true_words : List Runes
true_words = map codes ("1" ∷ "t" ∷ "tr" ∷ "tru" ∷ "true" ∷ "on" ∷ [])

abbrev false_words : List Runes
false_words = map codes ("0" ∷ "f" ∷ "fa" ∷ "fal" ∷ "fals" ∷ "false" ∷ "of" ∷ "off" ∷ [])

-- `unicode.ToLower` on runes.
module _ (to_lower : ℕ → ℕ) where
  -- `none` is the error that the value is no Boolean.
  unfoldable pub parse_bool : Runes → Option Runes
  parse_bool value =
      let v = map to_lower value in
      if among v true_words then some on else if among v false_words then some off else none

  -- `none` is the error that the value is not valid.
  unfoldable pub parse_keyword_bool : Runes → List Runes → Option Runes
  parse_keyword_bool value keywords =
      let v = map to_lower value in
      if among v true_words
      then some on
      else if among v false_words
      then some off
      else if among v keywords
      then some v
      else none

-- `formatRE`, `linestlyeRE` and `borderRE`
abbrev pub formats : List Runes
formats = map codes (
    "unaligned" ∷ "aligned" ∷ "wrapped" ∷ "html" ∷ "asciidoc" ∷ "latex" ∷ "latex-longtable"
    ∷ "troff-ms" ∷ "csv" ∷ "json" ∷ "vertical" ∷ [])

abbrev pub line_styles : List Runes
line_styles = map codes ("ascii" ∷ "old-ascii" ∷ "unicode" ∷ [])

abbrev pub border_styles : List Runes
border_styles = map codes ("single" ∷ "double" ∷ [])

-- A value that must match a pattern.
abbrev pub matching : List Runes → Runes → Option Runes
matching words value = if among value words then some value else none

-- The numbers of `strconv.Atoi`, with `int` of 64 bits.
pub data ℤ : Type 0 where
  pos : ℕ → ℤ
  negsuc : ℕ → ℤ

abbrev max_uint64 : ℕ
max_uint64 = 2 ^ 64 - 1

abbrev is_digit : ℕ → Bool
is_digit c = leb b'0' c && leb c b'9'

-- The digits of a number behind `n`; `none` is a syntax error. Past 64 bits the rest is not read.
unfoldable pub parse_uint : Runes → ℕ → Option ℕ
parse_uint [] n = some n
parse_uint (c ∷ s) n =
    let m = n * 10 + (c - b'0') in
    let rest = parse_uint s m in
    if is_digit c then if ltb max_uint64 m then some max_uint64 else rest else none

abbrev negative : ℕ → ℤ
negative zero = ℤ.pos 0
negative (suc n) = ℤ.negsuc n

-- What `strconv.Atoi` returns beside its error: 0 for a syntax error, and the nearest `int` for a number out of range.
unfoldable pub atoi : Runes → ℤ
unfolding parse_uint
atoi [] = ℤ.pos 0
atoi (c ∷ s) =
    if c == b'-'
    then elim (digits s) [ none ↦ ℤ.pos 0 | some n ↦ negative (min n (2 ^ 63)) ]
    else if c == b'+'
    then positive (digits s)
    else positive (digits (c ∷ s))
  where
    digits : Runes → Option ℕ
    digits [] = none
    digits (d ∷ t) = parse_uint (d ∷ t) 0

    positive : Option ℕ → ℤ
    positive none = ℤ.pos 0
    positive (some n) = ℤ.pos (min n (2 ^ 63 - 1))

-- The decimal digits of `n`, the last `fuel` of them, before `s`.
unfoldable pub decimal_loop : ℕ → ℕ → Runes → Runes
decimal_loop zero n s = s
decimal_loop (suc fuel) n s =
    let t = (b'0' + n % 10) ∷ s in
    let rest = decimal_loop fuel (n / 10) t in if ltb n 10 then t else rest

-- `fmt.Sprintf("%d", i)` of an `int` of 64 bits, which has at most 19 digits.
unfoldable pub format_int : ℤ → Runes
unfolding decimal_loop
format_int (ℤ.pos n) = decimal_loop 19 n []
format_int (ℤ.negsuc n) = b'-' ∷ decimal_loop 19 (suc n) []
