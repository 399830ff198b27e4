-- ===== src/Stmt/Next/Loop.antt =====
-- The loop of `Next`, a round at a time.
use usql.Base.{ℕ, suc, ◌≡◌, refl, Bool, true, false, ◌⊎◌, inl, inr, some, Runes, ltb, []}
use usql.Stmt.Buffer.{Stmt}
use usql.Stmt.Next.{Unquoted, Round, move, break, round, parse_loop}
use usql.Stmt.Rune.{Unicode}

pub Round-cases :
    (x : Round)
    → ((b : Stmt) × (j : ℕ) × (x ≡ move b j))
      ⊎ ((b : Stmt) × (j : ℕ) × (cmd : Runes) × (params : Runes) × (x ≡ break b j cmd params))
Round-cases (move b j) = inl (b, j, refl)
Round-cases (break b j cmd params) = inr (b, j, cmd, params, refl)

module _ ⦃u : Unicode⦄ (unquote : Runes → Bool → Unquoted) (fuel : ℕ) (b : Stmt) (i : ℕ) where
  pub loop_move :
      (b' : Stmt) (j : ℕ)
      → ltb i b.rlen ≡ true
      → round unquote b i ≡ move b' j
      → parse_loop unquote (suc fuel) b i ≡ parse_loop unquote fuel b' j
  unfolding parse_loop
  loop_move b' j more is = rw (more, parse_loop, is)

  pub loop_break :
      (b' : Stmt) (j : ℕ) (cmd params : Runes)
      → ltb i b.rlen ≡ true
      → round unquote b i ≡ break b' j cmd params
      → parse_loop unquote (suc fuel) b i
        ≡ some (record { stmt = b'; i = j; cmd = cmd; params = params })
  unfolding parse_loop
  loop_break b' j cmd params more is = rw (more, parse_loop, is)

  pub loop_over :
      ltb i b.rlen ≡ false
      → parse_loop unquote (suc fuel) b i ≡ some (record { stmt = b; i = i; cmd = []; params = [] })
  unfolding parse_loop
  loop_over over = rw (over, parse_loop)
