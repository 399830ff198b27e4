-- ===== src/Metacmd/Args.antt =====
-- metacmd/types.go: Params, the parameters of a backslash command.
use usql.Base.{Bool, true, false, List, [], ◌∷◌, ◌==◌, if◌then◌else◌, Runes}
use usql.Failure.{Error}

-- What `stmt.Params` gives next: a value, or the error of unquoting or running it.
pub data Arg : Type 0 where
  value : Runes → Arg
  bad : Error → Arg

abbrev pub Args : Type 0
Args = List Arg

-- What is read, with the parameters left, or the error.
pub data Taken (A : Type 0) : Type 0 where
  taken : A → Args → Taken A
  untaken : Error → Taken A

unfoldable pub get_ok : Args → Taken (Bool × Runes)
get_ok [] = Taken.taken (false, []) []
get_ok (Arg.value v ∷ args) = Taken.taken (true, v) args
get_ok (Arg.bad e ∷ args) = Taken.untaken e

unfoldable pub get_value : Args → Taken Runes
get_value [] = Taken.taken [] []
get_value (Arg.value v ∷ args) = Taken.taken v args
get_value (Arg.bad e ∷ args) = Taken.untaken e

-- Whether the value begins with a dash, and the value without it.
unfoldable pub undashed : Runes → Bool × Runes
undashed [] = (false, [])
undashed (c ∷ s) = if c == b'-' then (true, s) else (false, c ∷ s)

unfoldable pub get_optional : Args → Taken (Bool × Runes)
unfolding undashed
get_optional [] = Taken.taken (false, []) []
get_optional (Arg.value v ∷ args) = Taken.taken (undashed v) args
get_optional (Arg.bad e ∷ args) = Taken.untaken e

and_value : Runes → Taken (List Runes) → Taken (List Runes)
and_value v (Taken.taken vs args) = Taken.taken (v ∷ vs) args
and_value v (Taken.untaken e) = Taken.untaken e

unfoldable pub get_all_values : Args → Taken (List Runes)
unfolding and_value
get_all_values [] = Taken.taken [] []
get_all_values (Arg.value v ∷ args) = and_value v (get_all_values args)
get_all_values (Arg.bad e ∷ args) = Taken.untaken e
