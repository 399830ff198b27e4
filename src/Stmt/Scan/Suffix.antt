-- ===== src/Stmt/Scan/Suffix.antt =====
-- What a position of a slice shows of the runes from there on.
use usql.Base.{
  ℕ, zero, suc, ◌+◌, ◌≤◌, ◌≡◌, refl, sym, ap, ◌∙◌, [], ◌∷◌, arith, Runes, length, get_or, drop,
  length-drop, get_or-drop, drop-drop,
}
use usql.Stmt.Scan.{rune_at, grab}

get_or_past : (r : Runes) (i : ℕ) → length r ≤ i → get_or r i 0 ≡ 0
get_or_past [] i h = refl
get_or_past (c ∷ r) zero h = absurd (omega arith)
get_or_past (c ∷ r) (suc i) h = get_or_past r i (omega arith)

pub rune_at_lem : (r : Runes) (i : ℕ) → rune_at r i ≡ get_or (drop i r) 0 0
rune_at_lem r i = ap (λ (k : ℕ). get_or r k 0) (plus i) ∙ sym (get_or-drop r i 0 0)
  where
    plus : (k : ℕ) → k ≡ k + 0
    plus k = omega arith

pub grab_lem : (r : Runes) (i : ℕ) → grab r i (length r) ≡ get_or (drop i r) 0 0
unfolding grab
grab_lem r i = ground (arith, rune_at_lem r i, get_or_past r i)

-- At a position with the rune `c`.
module _ (r : Runes) (i c : ℕ) (s : Runes) (here : drop i r ≡ c ∷ s) where
  pub rune_here : rune_at r i ≡ c
  rune_here = rune_at_lem r i ∙ ap (λ (x : Runes). get_or x 0 0) here

  pub drop_after : drop (i + 1) r ≡ s
  drop_after = sym (drop-drop r i 1) ∙ ap (drop 1) here

  pub grab_after : grab r (i + 1) (length r) ≡ get_or s 0 0
  grab_after = grab_lem r (i + 1) ∙ ap (λ (x : Runes). get_or x 0 0) drop_after

  pub inside : length r ≡ i + suc (length s)
  inside = omega (arith, length-drop i r, ap length here)

-- At two runes.
pub drop_after_two : (r : Runes) (i c d : ℕ) (s : Runes) → drop i r ≡ c ∷ d ∷ s → drop (i + 2) r ≡ s
drop_after_two r i c d s here = sym (drop-drop r i 2) ∙ ap (drop 2) here

-- In front of a suffix that is not empty, `i` is the length of what is cut off.
pub position : (r : Runes) (i : ℕ) → i ≤ length r → length (drop i r) + i ≡ length r
position r i h = omega (arith, length-drop i r)
