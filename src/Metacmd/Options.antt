-- ===== src/Metacmd/Options.antt =====
-- metacmd/types.go: Option, with ParseParams.
pub mod Written
use usql.Base.{
  ℕ, Bool, true, false, not, ◌&&◌, ◌||◌, Option, none, some, List, [], ◌∷◌, ◌++◌, ◌==◌,
  if◌then◌else◌, Runes, codes, Table, no_entries, put,
}
use usql.Failure.{Error, invalid_format_option}
use usql.Metadata.Privileges.{join}

pub data ExecType : Type 0 where
  exec_none exec_only exec_pipe exec_set exec_exec exec_crosstab exec_watch : ExecType

pub record Options : Type 0 where
  pub quit : Bool
  pub exec : ExecType
  pub params : Table
  pub crosstab : List Runes
  -- in nanoseconds; what is below 0 is told apart by `watch_negative`
  pub watch : ℕ
  pub watch_negative : Bool

abbrev pub no_options : Options
no_options = record {
  quit = false;
  exec = ExecType.exec_none;
  params = no_entries;
  crosstab = [];
  watch = 0;
  watch_negative = false;
}

-- `strings.SplitN(param, "=", 2)`
unfoldable pub cut_equals : Runes → Option (Runes × Runes)
cut_equals [] = none
cut_equals (c ∷ s) =
    let rest = cut_equals s in
    if c == b'=' then some ([], s) else elim rest [ none ↦ none | some p ↦ some (c ∷ p.0, p.1) ]

-- `strings.TrimLeft(s, "(")`
unfoldable pub trim_open : Runes → Runes
trim_open [] = []
trim_open (c ∷ s) = let rest = trim_open s in if c == b'(' then rest else c ∷ s

unless_closing : ℕ → Runes → Runes
unless_closing c [] = if c == b')' then [] else c ∷ []
unless_closing c (d ∷ s) = c ∷ d ∷ s

-- `strings.TrimRight(s, ")")`
unfoldable pub trim_close : Runes → Runes
unfolding unless_closing
trim_close [] = []
trim_close (c ∷ s) = unless_closing c (trim_close s)

-- `param[len(param)-1] == ')'`
unfoldable pub ends_closing : Runes → Bool
ends_closing [] = false
ends_closing (c ∷ []) = c == b')'
ends_closing (c ∷ d ∷ s) = ends_closing (d ∷ s)

-- The map of options behind ParseParams, and its error.
pub record ParsedOptions : Type 0 where
  pub table : Table
  pub err : Option Error

unfoldable pub assign : Runes × Runes → Table → Table
unfolding trim_open trim_close
assign p t = put (trim_open p.0) (trim_close p.1) t

-- The loop over the parameters, with `formatOptions`.
unfoldable pub option_loop : Runes → Bool → List Runes → Table → ParsedOptions
unfolding cut_equals assign ends_closing
option_loop default_key format_options [] t = record { table = t; err = none }
option_loop default_key format_options ([] ∷ params) t =
    option_loop default_key format_options params t
option_loop default_key format_options ((c ∷ s) ∷ params) t =
    let next = λ (p : Runes × Runes).
      option_loop default_key (not (ends_closing (c ∷ s))) params (assign p t) in
    if not format_options && not (c == b'(')
    then record { table = put default_key (join (codes " ") ((c ∷ s) ∷ params)) t; err = none }
    else elim (cut_equals (c ∷ s)) [
      | none ↦ record { table = t; err = some invalid_format_option }
      | some p ↦ next p
    ]

unfoldable pub parse_params : Options → List Runes → Runes → ParsedOptions
unfolding option_loop
parse_params opt params default_key = option_loop default_key false params opt.params
