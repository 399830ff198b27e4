-- ===== src/Stmt/Scan/Find.antt =====
-- The search loops find the first rune that they look for.
use usql.Base.{
  ℕ, zero, suc, ◌+◌, ◌-◌, ◌≤◌, ◌<◌, ◌≡◌, Bool, true, false, not, inl, inr, ◌==◌, arith, Runes,
  Bool-cases,
}
use usql.Stmt.Rune.{is_space_or_control}
use usql.Stmt.Scan.{rune_at, find_loop, find_space, find_non_space, find_rune}

-- The position `j` is the first from `i` on, below `end`, at which `stop` holds, if `ok`;
-- otherwise there is none, and `j` is `end`.
pub record IsFirst (stop : ℕ → Bool) (r : Runes) (i end : ℕ) (j : ℕ) (ok : Bool) : Type 0 where
  pub from : i ≤ j
  pub upto : j ≤ end
  pub hit : ok ≡ true → (j < end) × (stop (rune_at r j) ≡ true)
  pub miss : ok ≡ false → j ≡ end
  pub before : (k : ℕ) → i ≤ k → k < j → stop (rune_at r k) ≡ false

module _ (stop : ℕ → Bool) (r : Runes) where
  pub find_loop-IsFirst :
      (n i end : ℕ)
      → i + n ≡ end
      → IsFirst stop r i end (find_loop stop r n i).0 (find_loop stop r n i).1
  unfolding find_loop
  find_loop-IsFirst zero i end h = record {
    from = omega arith;
    upto = omega arith;
    hit = λ e. cc;
    miss = λ e. omega arith;
    before = λ k a b. absurd (omega arith);
  }
  find_loop-IsFirst (suc n) i end h = elim (Bool-cases (stop (rune_at r i))) [
    | inl yes! ↦ rw yes! (record {
      from = omega arith;
      upto = omega arith;
      hit = λ e. (omega arith, yes!);
      miss = λ e. cc;
      before = λ k a b. absurd (omega arith);
    })
    | inr no! ↦
        let rest = find_loop-IsFirst n (i + 1) end (omega arith) in
        rw no! (record {
          from = omega (arith, rest.from);
          upto = rest.upto;
          hit = rest.hit;
          miss = rest.miss;
          before = λ k a b. ground (arith, rest.before k, no!);
        })
  ]

-- `findSpace`, `findNonSpace` and `findRune`, called with `i` no more than `end`.
pub find-IsFirst :
    (r : Runes) (i end c : ℕ)
    → i ≤ end
    → IsFirst is_space_or_control r i end (find_space r i end).0 (find_space r i end).1
      × IsFirst
          (λ d. not (is_space_or_control d))
          r
          i
          end
          (find_non_space r i end).0
          (find_non_space r i end).1
      × IsFirst (λ d. d == c) r i end (find_rune r i end c).0 (find_rune r i end c).1
unfolding find_space find_non_space find_rune
find-IsFirst r i end c h = (
  find_loop-IsFirst is_space_or_control r (end - i) i end (omega arith),
  find_loop-IsFirst (λ d. not (is_space_or_control d)) r (end - i) i end (omega arith),
  find_loop-IsFirst (λ d. d == c) r (end - i) i end (omega arith),
)
