-- ===== src/Metacmd/Format.antt =====
-- metacmd/cmds.go: the processes that set print settings: \pset, \a, \C, \f, \H, \t, \T and \x.
pub mod Safe
use usql.Base.{
  ℕ, Bool, true, false, not, ◌&&◌, ◌||◌, Option, none, some, List, [], ◌∷◌, if◌then◌else◌, Runes,
  codes, same, Table,
}
use usql.Env.Settings.{Changed, pset, ptoggle}
use usql.Failure.{Error}
use usql.Metacmd.Args.{Args, Taken, get_ok}

-- What a process does: it lists the settings, returns the error of a parameter, or calls Pset or Ptoggle for
-- a setting and prints what they return.
pub data Formatted : Type 0 where
  lists : Formatted
  fails : Error → Formatted
  does : Runes → Changed → Formatted

-- The field and what to toggle with, of a command that is not \pset.
unfoldable pub field_of : Runes → Runes × Runes
field_of name =
    if same name (codes "a")
    then (codes "format", [])
    else if same name (codes "C")
    then (codes "title", [])
    else if same name (codes "f")
    then (codes "fieldsep", [])
    else if same name (codes "H")
    then (codes "format", codes "html")
    else if same name (codes "t")
    then (codes "tuples_only", [])
    else if same name (codes "T")
    then (codes "tableattr", [])
    else if same name (codes "x")
    then (codes "expanded", [])
    else ([], [])

module _ (to_lower : ℕ → ℕ) (t : Table) where
  unfoldable pub change : Runes × Runes → Bool × Runes → Formatted
  unfolding pset ptoggle
  change (field, extra) (true, val) = Formatted.does field (pset to_lower t field val)
  change (field, extra) (false, val) = Formatted.does field (ptoggle t field extra)

  -- \pset with a field and maybe a value.
  unfoldable pub pset_field : Runes → Taken (Bool × Runes) → Formatted
  unfolding change
  pset_field field (Taken.untaken e) = Formatted.fails e
  pset_field field (Taken.taken given args) = change (field, []) given

  unfoldable pub format_with : Runes → Taken (Bool × Runes) → Formatted
  unfolding change pset_field field_of
  format_with name (Taken.untaken e) = Formatted.fails e
  format_with name (Taken.taken (ok, val) args) =
      if same name (codes "pset")
      then (if ok then pset_field val (get_ok args) else Formatted.lists)
      else change (field_of name) (ok, val)

  unfoldable pub format_process : Runes → Args → Formatted
  unfolding change format_with field_of
  format_process name args =
      if same name (codes "a") || same name (codes "H")
      then change (field_of name) (false, [])
      else format_with name (get_ok args)
