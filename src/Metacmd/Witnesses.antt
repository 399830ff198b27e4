-- ===== src/Metacmd/Witnesses.antt =====
-- The theorems about the backslash commands, applied at concrete inputs.
use usql.Base.{◌≡◌, refl, true, false, [], ◌∷◌, ◌++◌, Runes, codes, Table}
use usql.Env.Settings.{initial_pvars}
use usql.Env.Settings.Reached.{initial}
use usql.Metacmd.Args.{Args, value}
use usql.Metacmd.Exec.{Duration, exec_process}
use usql.Metacmd.Exec.Runnable.{IsRunnable, exec_process-IsRunnable}
use usql.Metacmd.Format.{format_process}
use usql.Metacmd.Format.Safe.{EndsWell, format_process-EndsWell}
use usql.Metacmd.Options.{no_options, parse_params}
use usql.Metacmd.Options.Written.{closed, opened, put_options, parse_params-written}

abbrev some_args : Args
some_args = value (codes "html") ∷ []

abbrev ten_seconds : Runes → Duration
ten_seconds s = record { nanoseconds = 10000000000; negative = false }

exec_process-IsRunnable_example : IsRunnable (exec_process ten_seconds (codes "watch") some_args)
exec_process-IsRunnable_example = exec_process-IsRunnable ten_seconds (codes "watch") some_args

abbrev first_settings : Table
first_settings = initial_pvars (codes "en-US") true

format_process-EndsWell_example :
    EndsWell first_settings
      (codes "H")
      some_args
      (format_process (λ c. c) first_settings (codes "H") some_args)
format_process-EndsWell_example =
    format_process-EndsWell (λ c. c) first_settings (initial (codes "en-US") true) (codes "H")
      some_args refl

parse_params-written_example :
    parse_params no_options
      (opened (closed (codes "format", codes "csv") ((codes "title", codes "t") ∷ []))
        ++ codes "out.csv" ∷ [])
      (codes "pipe")
    ≡ parse_params
        (record no_options {
          params =
              put_options
                ((codes "format", codes "csv") ∷ (codes "title", codes "t") ∷ [])
                no_options.params;
        })
        (codes "out.csv" ∷ [])
        (codes "pipe")
parse_params-written_example =
    parse_params-written no_options (codes "pipe") (codes "format", codes "csv")
      ((codes "title", codes "t") ∷ []) (codes "out.csv" ∷ [])
      (
        (
          (refl, (refl, (refl, (refl, (refl, (refl, tt)))))),
          (refl, refl, (refl, refl, (refl, refl, (refl, refl, (refl, refl, (refl, refl, tt)))))),
          (refl, refl, (refl, refl, (refl, refl, tt))),
        ),
        (
          (
            (refl, (refl, (refl, (refl, (refl, tt))))),
            (refl, refl, (refl, refl, (refl, refl, (refl, refl, (refl, refl, tt))))),
            (refl, refl, tt),
          ),
          tt,
        ),
      )
