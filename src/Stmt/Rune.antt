-- ===== src/Stmt/Rune.antt =====
-- stmt/stmt.go: `IsSpaceOrControl` and `RunesLastIndex`, and what the package `unicode` gives them.
use usql.Base.{
  ℕ, zero, suc, ◌-◌, ◌<◌, ◌≡◌, refl, Bool, ◌&&◌, ◌||◌, Option, none, some, leb, ◌==◌, if◌then◌else◌,
  Runes, length, get_or,
}

abbrev pub within : ℕ → ℕ → ℕ → Bool
within lo hi c = leb lo c && leb c hi

-- `unicode.IsControl`: the category Cc lies in Latin-1.
unfoldable pub is_control : ℕ → Bool
is_control c = within 0 31 c || within 127 159 c

-- `unicode.IsSpace`: Unicode's White_Space property.
unfoldable pub is_space : ℕ → Bool
is_space c =
    within 9 13 c
    || c == 32
    || c == 0x85
    || c == 0xa0
    || c == 0x1680
    || within 0x2000 0x200a c
    || within 0x2028 0x2029 c
    || c == 0x202f
    || c == 0x205f
    || c == 0x3000

unfoldable pub is_space_or_control : ℕ → Bool
unfolding is_space is_control
is_space_or_control c = is_space c || is_control c

abbrev pub ascii_letter : ℕ → Bool
ascii_letter c = within b'A' b'Z' c || within b'a' b'z' c

abbrev pub ascii_number : ℕ → Bool
ascii_number c = within b'0' b'9' c

abbrev pub ascii_upper : ℕ → ℕ
ascii_upper c = if within b'a' b'z' c then c - 32 else c

-- The tables of the package `unicode` that the statement buffer reads: `IsLetter`, `IsNumber` and
-- `ToUpper`, of which only the rows below 128 are fixed.
pub record Unicode : Type 0 where
  pub is_letter : ℕ → Bool
  pub is_number : ℕ → Bool
  pub to_upper : ℕ → ℕ
  pub letter_ascii : (c : ℕ) → c < 128 → is_letter c ≡ ascii_letter c
  pub number_ascii : (c : ℕ) → c < 128 → is_number c ≡ ascii_number c
  pub upper_ascii : (c : ℕ) → c < 128 → to_upper c ≡ ascii_upper c

-- The tables with no row above 127.
abbrev pub ascii_unicode : Unicode
ascii_unicode = record {
  is_letter = ascii_letter;
  is_number = ascii_number;
  to_upper = ascii_upper;
  letter_ascii = λ c h. refl;
  number_ascii = λ c h. refl;
  upper_ascii = λ c h. refl;
}

abbrev pub is_letter : ⦃u : Unicode⦄ → ℕ → Bool
is_letter ⦃u⦄ c = u.is_letter c

abbrev pub is_number : ⦃u : Unicode⦄ → ℕ → Bool
is_number ⦃u⦄ c = u.is_number c

abbrev pub to_upper : ⦃u : Unicode⦄ → ℕ → ℕ
to_upper ⦃u⦄ c = u.to_upper c

-- The loop of `RunesLastIndex` over the indices below `n`, from the last; `none` stands for -1.
runes_last_index_loop : Runes → ℕ → ℕ → Option ℕ
runes_last_index_loop r needle zero = none
runes_last_index_loop r needle (suc n) =
    if get_or r n 0 == needle then some n else runes_last_index_loop r needle n

unfoldable pub runes_last_index : Runes → ℕ → Option ℕ
unfolding runes_last_index_loop
runes_last_index r needle = runes_last_index_loop r needle (length r)
