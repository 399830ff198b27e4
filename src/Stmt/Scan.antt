-- ===== src/Stmt/Scan.antt =====
-- stmt/parse.go: `grab` and the loops that look for one rune. A loop `for ; i < end; i++` recurs on
-- the rounds that are left, `end - i`.
pub mod Suffix
pub mod Find
use usql.Base.{
  ℕ, zero, suc, ◌+◌, ◌-◌, Bool, true, false, not, ltb, ◌==◌, if◌then◌else◌, Runes, get_or, take,
  drop,
}
use usql.Stmt.Rune.{is_space_or_control}

-- `r[i]`. Every caller has `i < end` and `end = len(r)`.
abbrev pub rune_at : Runes → ℕ → ℕ
rune_at r i = get_or r i 0

-- `r[i:j]`.
abbrev pub slice : Runes → ℕ → ℕ → Runes
slice r i j = take (j - i) (drop i r)

unfoldable pub grab : Runes → ℕ → ℕ → ℕ
grab r i end = if ltb i end then rune_at r i else 0

module _ (stop : ℕ → Bool) (r : Runes) where
  -- The shape of the three loops below: the first position at which `stop` holds.
  pub find_loop : ℕ → ℕ → ℕ × Bool
  find_loop zero i = (i, false)
  find_loop (suc n) i = if stop (rune_at r i) then (i, true) else find_loop n (i + 1)

unfoldable pub find_space : Runes → ℕ → ℕ → ℕ × Bool
unfolding find_loop
find_space r i end = find_loop is_space_or_control r (end - i) i

unfoldable pub find_non_space : Runes → ℕ → ℕ → ℕ × Bool
unfolding find_loop
find_non_space r i end = find_loop (λ c. not (is_space_or_control c)) r (end - i) i

unfoldable pub find_rune : Runes → ℕ → ℕ → ℕ → ℕ × Bool
unfolding find_loop
find_rune r i end c = find_loop (λ d. d == c) r (end - i) i

unfoldable pub is_empty_line : Runes → ℕ → ℕ → Bool
unfolding find_non_space
is_empty_line r i end = not (find_non_space r i end).1
