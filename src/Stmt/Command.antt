-- ===== src/Stmt/Command.antt =====
-- stmt/parse.go: `readCommand`.
pub mod Bounds
use usql.Base.{
  ℕ, zero, suc, ◌+◌, ◌-◌, Bool, true, false, not, ◌&&◌, ◌||◌, ltb, ◌==◌, if◌then◌else◌, Runes,
}
use usql.Stmt.Rune.{is_control, is_space}
use usql.Stmt.Scan.{rune_at, grab}

-- One round of the loop over the command: it returns, breaks at a space, or goes on.
pub data NameRound : Type 0 where
  ends_line : NameRound
  ends_all : NameRound
  breaks : NameRound
  goes_on : NameRound

pub name_round : Runes → ℕ → ℕ → NameRound
name_round r end i =
    let next = grab r (i + 1) end in
    if next == 0
    then ends_line
    else if next == b'\\' || is_control next
    then ends_all
    else if is_space next
    then breaks
    else goes_on

-- One round of the loop over the parameters.
pub data ParamRound : Type 0 where
  ends_line : ParamRound
  breaks : ParamRound
  goes_on : ℕ → ℕ → ParamRound

-- `goes_on` holds the next position and quote.
pub param_round : Runes → ℕ → ℕ → ℕ → ParamRound
param_round r end quote i =
    let c = rune_at r i in
    let next = grab r (i + 1) end in
    if next == 0
    then ParamRound.ends_line
    else if quote == 0 && (c == b'\'' || c == b'"' || c == b'`')
    then ParamRound.goes_on (i + 1) c
    else if not (quote == 0) && c == quote
    then ParamRound.goes_on (i + 1) 0
    else if not (quote == 0) && c == b'\\' && (next == quote || next == b'\\')
    then ParamRound.goes_on (i + 2) quote
    else if quote == 0 && (c == b'\\' || is_control c)
    then ParamRound.breaks
    else ParamRound.goes_on (i + 1) quote

-- The loop over the parameters, from the end `cmd` of the command. The loop ends at `end`, or one
-- behind it where its last round stepped over a rune.
params_loop : Runes → ℕ → ℕ → ℕ → ℕ → ℕ → ℕ × ℕ
params_loop r end cmd zero quote i = (cmd, i)
params_loop r end cmd (suc n) quote i = elim (ltb i end) [
  | false ↦ (cmd, i)
  | true ↦ elim (param_round r end quote i) [
    | ParamRound.ends_line ↦ (cmd, end)
    | ParamRound.breaks ↦ (cmd, i)
    | ParamRound.goes_on j q ↦ params_loop r end cmd n q j
  ]
]

read_params : Runes → ℕ → ℕ → ℕ × ℕ
unfolding params_loop
read_params r end i = params_loop r end i (end - i) 0 i

command_loop : Runes → ℕ → ℕ → ℕ → ℕ × ℕ
unfolding read_params
command_loop r end zero i = read_params r end i
command_loop r end (suc n) i = elim (name_round r end i) [
  | NameRound.ends_line ↦ (end, end)
  | NameRound.ends_all ↦ (i + 1, i + 1)
  | NameRound.breaks ↦ read_params r end (i + 1)
  | NameRound.goes_on ↦ command_loop r end n (i + 1)
]

unfoldable pub read_command : Runes → ℕ → ℕ → ℕ × ℕ
unfolding name_round param_round command_loop
read_command r i end = command_loop r end (end - i) i
