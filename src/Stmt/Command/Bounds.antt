-- ===== src/Stmt/Command/Bounds.antt =====
-- `readCommand` stays in the line.
use usql.Base.{
  ℕ, zero, suc, ◌+◌, ◌-◌, ◌≤◌, ◌<◌, ◌≡◌, refl, false, ◌⊎◌, inl, inr, ◌==◌, arith, Runes, ltb,
  Bool-cases, ltb→lt, ◌≢◌,
}
use usql.Stmt.Command.{
  NameRound, name_round, ParamRound, param_round, params_loop, read_params, command_loop,
  read_command,
}
use usql.Stmt.Scan.{grab}

-- A position is inside the line, if a rune stands behind the one before it.
grab_inside : (r : Runes) (i end : ℕ) → (grab r i end == 0) ≡ false → i < end
unfolding grab
grab_inside r i end h = ground arith

-- A round of the loop over the parameters goes on inside the line, or one behind.
abbrev Within : ℕ → ℕ → ParamRound → Type 0
Within i end ParamRound.ends_line = i ≤ end
Within i end ParamRound.breaks = i ≤ end
Within i end (ParamRound.goes_on j q) = (i < j) × (j ≤ end)

param_round-Within :
    (r : Runes) (end quote i : ℕ) → i < end → Within i end (param_round r end quote i)
unfolding param_round
param_round-Within r end quote i h = ground (arith, grab_inside r (i + 1) end)

ParamRound-cases :
    (x : ParamRound)
    → ((x ≡ ParamRound.ends_line) ⊎ (x ≡ ParamRound.breaks))
      ⊎ ((j : ℕ) × (q : ℕ) × (x ≡ ParamRound.goes_on j q))
ParamRound-cases ParamRound.ends_line = inl (inl refl)
ParamRound-cases ParamRound.breaks = inl (inr refl)
ParamRound-cases (ParamRound.goes_on j q) = inr (j, q, refl)

params_loop_bounds :
    (r : Runes) (end cmd n quote i : ℕ)
    → cmd ≤ i
    → i ≤ end
    → (cmd ≤ (params_loop r end cmd n quote i).1)
      × ((params_loop r end cmd n quote i).0 ≡ cmd)
      × ((params_loop r end cmd n quote i).1 ≤ end)
unfolding params_loop
params_loop_bounds r end cmd zero quote i h k = (h, refl, k)
params_loop_bounds r end cmd (suc n) quote i h k = elim (Bool-cases (ltb i end)) [
  | inl more ↦
      let inner = param_round-Within r end quote i (ltb→lt i end more) in
      elim (ParamRound-cases (param_round r end quote i)) [
        | inl plain ↦ ground (arith, more, plain)
        | inr (j, q, on) ↦
            ground (arith, more, on, rw on at inner, params_loop_bounds r end cmd n q j)
      ]
  | inr over ↦ ground (arith, over)
]

read_params_bounds :
    (r : Runes) (end i : ℕ)
    → i ≤ end
    → (i ≤ (read_params r end i).1)
      × ((read_params r end i).0 ≡ i)
      × ((read_params r end i).1 ≤ end)
unfolding read_params
read_params_bounds r end i h = params_loop_bounds r end i (end - i) 0 i (omega arith) h

-- Where the command and its parameters lie.
abbrev pub Spans : ℕ → ℕ → ℕ × ℕ → Type 0
Spans i end (cend, pend) = (i < cend) × (cend ≤ pend) × (pend ≤ end)

name_round_inside : (r : Runes) (end i : ℕ) → name_round r end i ≢ NameRound.ends_line → i + 1 < end
unfolding name_round
name_round_inside r end i h = ground (arith, grab_inside r (i + 1) end)

command_loop-Spans :
    (r : Runes) (end n i : ℕ) → i < end → i + n ≡ end → Spans i end (command_loop r end n i)
unfolding command_loop
command_loop-Spans r end zero i h k = absurd (omega arith)
command_loop-Spans r end (suc n) i h k = ground (
  arith,
  name_round_inside r end i,
  read_params_bounds r end (i + 1),
  command_loop-Spans r end n (i + 1),
)

-- `readCommand` at a backslash in the line: the command is not empty, its parameters follow it, and both end
-- in the line.
pub read_command-Spans : (r : Runes) (i end : ℕ) → i < end → Spans i end (read_command r i end)
unfolding read_command
read_command-Spans r i end h = command_loop-Spans r end (end - i) i h (omega arith)
