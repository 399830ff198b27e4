-- ===== src/Metacmd/Variables.antt =====
-- metacmd/cmds.go: the processes of \set, \unset, \prompt, \timing, \echo, \qecho, \warn and \i.
use usql.Base.{
  ℕ, Bool, true, false, not, ◌||◌, Option, none, some, List, [], ◌∷◌, ◌++◌, if◌then◌else◌, Runes,
  codes, same, Table,
}
use usql.Env.Parse.{on, parse_bool}
use usql.Env.Variables.{Assigned, valid_identifier, set, unset}
use usql.Failure.{Error, invalid_identifier, missing_required_argument}
use usql.Metacmd.Args.{Args, Taken, get_ok, get_value, get_optional, get_all_values}
use usql.Metadata.Privileges.{join}
use usql.Stmt.Rune.{Unicode}

-- What \set does: it lists the variables, or sets one.
pub data SetVar : Type 0 where
  lists_vars : SetVar
  assigns : Assigned → SetVar

refused : Table → Error → Assigned
refused vars e = record { vars = vars; err = some e }

concat : List Runes → Runes
concat [] = []
concat (s ∷ ss) = s ++ concat ss

module _ ⦃u : Unicode⦄ (to_lower : ℕ → ℕ) (vars : Table) where
  set_all : Runes → Taken (List Runes) → Assigned
  unfolding set refused concat
  set_all n (Taken.untaken e) = refused vars e
  set_all n (Taken.taken vals args) = set to_lower vars n (concat vals)

  set_named : Taken (Bool × Runes) → SetVar
  unfolding set_all refused
  set_named (Taken.untaken e) = SetVar.assigns (refused vars e)
  set_named (Taken.taken (false, n) args) = SetVar.lists_vars
  set_named (Taken.taken (true, n) args) = SetVar.assigns (set_all n (get_all_values args))

  unfoldable pub set_process : Args → SetVar
  unfolding set_named
  set_process args = set_named (get_ok args)

  unset_named : Taken Runes → Assigned
  unfolding unset refused
  unset_named (Taken.untaken e) = refused vars e
  unset_named (Taken.taken n args) = unset vars n

  unfoldable pub unset_process : Args → Assigned
  unfolding unset_named
  unset_process args = unset_named (get_value args)

  -- `read_var` is the handler's ReadVar of a type and a prompt: a value or an error.
  module _ (read_var : Runes → Runes → Taken Runes) where
    set_read : Runes → Taken Runes → Assigned
    unfolding set refused
    set_read n (Taken.untaken e) = refused vars e
    set_read n (Taken.taken v args) = set to_lower vars n v

    ask : Runes → Runes → Taken (List Runes) → Assigned
    unfolding set_read refused
    ask type n (Taken.untaken e) = refused vars e
    ask type n (Taken.taken vals args) = set_read n (read_var type (join (codes " ") vals))

    ask_for : Runes → Runes → Args → Assigned
    unfolding ask refused
    ask_for type n args =
        if same n []
        then refused vars missing_required_argument
        else if not (valid_identifier n)
        then refused vars invalid_identifier
        else ask type n (get_all_values args)

    typed_name : Runes → Taken Runes → Assigned
    unfolding ask_for refused
    typed_name type (Taken.untaken e) = refused vars e
    typed_name type (Taken.taken n args) = ask_for type n args

    prompt_with : Taken (Bool × Runes) → Assigned
    unfolding typed_name ask_for refused
    prompt_with (Taken.untaken e) = refused vars e
    prompt_with (Taken.taken (true, type) args) = typed_name type (get_value args)
    prompt_with (Taken.taken (false, n) args) = ask_for (codes "string") n args

    unfoldable pub prompt_process : Args → Assigned
    unfolding prompt_with
    prompt_process args = prompt_with (get_optional args)

-- The timing behind \timing: toggled without a value, and off for a value that is not one of on.
timing_value : (ℕ → ℕ) → Bool → Runes → Bool
unfolding parse_bool
timing_value to_lower timing [] = not timing
timing_value to_lower timing (c ∷ s) = elim (parse_bool to_lower (c ∷ s)) [
  | none ↦ false
  | some v ↦ same v on
]

timing_with : (ℕ → ℕ) → Bool → Taken Runes → Bool × Option Error
unfolding timing_value
timing_with to_lower timing (Taken.untaken e) = (timing, some e)
timing_with to_lower timing (Taken.taken v args) = (timing_value to_lower timing v, none)

unfoldable pub timing_process : (ℕ → ℕ) → Bool → Args → Bool × Option Error
unfolding timing_with
timing_process to_lower timing args = timing_with to_lower timing (get_value args)

-- The text that \echo and its kin write.
echo_rest : Runes → List Runes → Taken (List Runes) → Taken Runes
echo_rest nl vals (Taken.untaken e) = Taken.untaken e
echo_rest nl vals (Taken.taken v args) = Taken.taken (join (codes " ") (vals ++ v) ++ nl) args

echo_with : Taken (Bool × Runes) → Taken Runes
unfolding echo_rest
echo_with (Taken.untaken e) = Taken.untaken e
echo_with (Taken.taken (false, n) args) = echo_rest (codes "\n") (n ∷ []) (get_all_values args)
echo_with (Taken.taken (true, n) args) =
    if same n (codes "n")
    then echo_rest [] [] (get_all_values args)
    else echo_rest (codes "\n") ((codes "-" ++ n) ∷ []) (get_all_values args)

unfoldable pub echo_process : Args → Taken Runes
unfolding echo_with
echo_process args = echo_with (get_optional args)

-- What \i includes: a path, and whether it is relative to the script.
include_path : Runes → Taken Runes → Taken (Runes × Bool)
include_path name (Taken.untaken e) = Taken.untaken e
include_path name (Taken.taken path args) =
    Taken.taken (path, same name (codes "ir") || same name (codes "include_relative")) args

unfoldable pub include_process : Runes → Args → Taken (Runes × Bool)
unfolding include_path
include_process name args = include_path name (get_value args)
