-- ===== src/Completer/Casing.antt =====
-- What the packages `unicode` and `strings` give to completion: letters in upper and lower case.
use usql.Base.{ℕ, ◌+◌, ◌<◌, ◌≡◌, refl, Bool, [], ◌∷◌, if◌then◌else◌, same, map, Runes, Bytes}
use usql.Stmt.Rune.{ascii_upper, within}

abbrev pub ascii_lower : ℕ → ℕ
ascii_lower c = if within b'A' b'Z' c then c + 32 else c

abbrev pub AreAscii : Runes → Type 0
AreAscii [] = Unit {0}
AreAscii (c ∷ s) = (c < 128) × AreAscii s

-- `unicode.ToUpper`, `ToLower` and `IsLower`, and `strings.EqualFold`, with their values on ASCII.
pub record Casing : Type 0 where
  pub upper : ℕ → ℕ
  pub lower : ℕ → ℕ
  pub is_lower : ℕ → Bool
  pub equal_fold : Bytes → Bytes → Bool
  pub upper_ascii : (c : ℕ) → c < 128 → upper c ≡ ascii_upper c
  pub lower_ascii : (c : ℕ) → c < 128 → lower c ≡ ascii_lower c
  pub fold_ascii :
      (s t : Bytes)
      → AreAscii s
      → AreAscii t
      → equal_fold s t ≡ same (map ascii_upper s) (map ascii_upper t)

-- The tables with no row above 127.
abbrev pub ascii_casing : Casing
ascii_casing = record {
  upper = ascii_upper;
  lower = ascii_lower;
  is_lower = within b'a' b'z';
  equal_fold = λ s t. same (map ascii_upper s) (map ascii_upper t);
  upper_ascii = λ c h. refl;
  lower_ascii = λ c h. refl;
  fold_ascii = λ s t h k. refl;
}

abbrev pub to_upper : ⦃k : Casing⦄ → Runes → Runes
to_upper ⦃k⦄ s = map k.upper s

abbrev pub to_lower : ⦃k : Casing⦄ → Runes → Runes
to_lower ⦃k⦄ s = map k.lower s
