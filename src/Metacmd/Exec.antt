-- ===== src/Metacmd/Exec.antt =====
-- metacmd/cmds.go: the processes of \g, \gexec, \gset, \G, \gx, \crosstabview and \watch, and of \q.
pub mod Runnable
use usql.Base.{
  ℕ, zero, suc, Bool, true, false, not, ◌&&◌, Option, none, some, List, [], ◌∷◌, ◌++◌, ◌==◌,
  if◌then◌else◌, Runes, codes, same, put,
}
use usql.Failure.{Error, invalid_watch_duration}
use usql.Metacmd.Args.{Arg, Args, Taken, get_ok, get_all_values}
use usql.Metacmd.Options.{ExecType, Options, no_options, parse_params}

-- What a process leaves: the options and the error.
pub record Processed : Type 0 where
  pub option : Options
  pub err : Option Error

abbrev pub fine : Options → Processed
fine o = record { option = o; err = none }

abbrev pub failed : Options → Error → Processed
failed o e = record { option = o; err = some e }

unfoldable pub quit_process : Processed
quit_process = fine (record no_options { quit = true })

-- All parameters as options, and another one. The error of ParseParams is dropped.
unfoldable pub with_params :
    Options → Runes → Option (Runes × Runes) → Taken (List Runes) → Processed
unfolding parse_params
with_params o key extra (Taken.untaken e) = failed o e
with_params o key none (Taken.taken params args) =
    fine (record o { params = (parse_params o params key).table })
with_params o key (some (k, v)) (Taken.taken params args) =
    fine (record o { params = put k v (parse_params o params key).table })

-- The loop over the columns of \crosstabview, with the rounds left; the column behind the last parameter is empty.
unfoldable pub crosstab_loop : ℕ → Options → Args → Processed
crosstab_loop zero o args = fine o
crosstab_loop (suc n) o [] = fine (record o { crosstab = o.crosstab ++ [] ∷ [] })
crosstab_loop (suc n) o (Arg.bad e ∷ args) = failed o e
crosstab_loop (suc n) o (Arg.value col ∷ args) =
    crosstab_loop n (record o { crosstab = o.crosstab ++ col ∷ [] }) args

-- A duration of nanoseconds, with its sign.
pub record Duration : Type 0 where
  pub nanoseconds : ℕ
  pub negative : Bool

-- `time.ParseDuration`, or else `strconv.ParseFloat` in seconds; 0 where neither parses.
unfoldable pub watch_for : (Runes → Duration) → Options → Taken (Bool × Runes) → Processed
watch_for duration o (Taken.untaken e) = failed o e
watch_for duration o (Taken.taken (false, s) args) = fine o
watch_for duration o (Taken.taken (true, s) args) =
    let d = duration s in
    if d.nanoseconds == 0
    then failed o invalid_watch_duration
    else fine (record o { watch = d.nanoseconds; watch_negative = d.negative })

abbrev pub running : ExecType → Options
running t = record no_options { exec = t }

unfoldable pub exec_process : (Runes → Duration) → Runes → Args → Processed
unfolding with_params crosstab_loop watch_for
exec_process duration name args =
    if same name (codes "g")
    then with_params (running ExecType.exec_only) (codes "pipe") none (get_all_values args)
    else if same name (codes "gexec")
    then fine (running ExecType.exec_exec)
    else if same name (codes "gset")
    then with_params (running ExecType.exec_set) (codes "prefix") none (get_all_values args)
    else if same name (codes "G")
    then with_params (running ExecType.exec_only) (codes "pipe")
        (some (codes "format", codes "vertical")) (get_all_values args)
    else if same name (codes "gx")
    then with_params (running ExecType.exec_only) (codes "pipe")
        (some (codes "expanded", codes "on")) (get_all_values args)
    else if same name (codes "crosstabview")
    then crosstab_loop 4 (running ExecType.exec_crosstab) args
    else if same name (codes "watch")
    then watch_for duration (record (running ExecType.exec_watch) { watch = 2000000000 })
        (get_ok args)
    else fine (running ExecType.exec_only)
