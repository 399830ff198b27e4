-- ===== src/Metacmd/Exec/Runnable.antt =====
-- What the commands that run a statement ask the handler for.
use usql.Base.{
  ℕ, zero, suc, ◌<◌, ◌≡◌, refl, Bool, true, false, Option, none, some, List, [], ◌∷◌, ◌++◌, ◌==◌,
  Runes, codes, same, arith, if_rule,
}
use usql.Metacmd.Args.{Arg, Args, Taken, get_ok, get_all_values}
use usql.Metacmd.Exec.{
  Processed, Duration, running, with_params, crosstab_loop, watch_for, exec_process,
}
use usql.Metacmd.Options.{
  ExecType, exec_only, exec_set, exec_exec, exec_crosstab, exec_watch, Options,
}

-- A kind of execution, with an interval that is not 0 where the statement is watched.
pub data Runs : ExecType → ℕ → Type 0 where
  runs_only : {w : ℕ} → Runs exec_only w
  runs_set : {w : ℕ} → Runs exec_set w
  runs_exec : {w : ℕ} → Runs exec_exec w
  runs_crosstab : {w : ℕ} → Runs exec_crosstab w
  runs_watch : {w : ℕ} → 0 < w → Runs exec_watch w

pub record IsRunnable (p : Processed) : Type 0 where
  pub runs : Runs p.option.exec p.option.watch
  pub stays : p.option.quit ≡ false

with_params-IsRunnable :
    (o : Options) (key : Runes) (extra : Option (Runes × Runes)) (t : Taken (List Runes))
    → Runs o.exec o.watch
    → o.quit ≡ false
    → IsRunnable (with_params o key extra t)
unfolding with_params
with_params-IsRunnable o key extra (Taken.untaken e) r q = record { runs = r; stays = q }
with_params-IsRunnable o key none (Taken.taken params args) r q = record { runs = r; stays = q }
with_params-IsRunnable o key (some (k, v)) (Taken.taken params args) r q = record {
  runs = r;
  stays = q;
}

crosstab_loop-IsRunnable :
    (n : ℕ) (o : Options) (args : Args)
    → Runs o.exec o.watch
    → o.quit ≡ false
    → IsRunnable (crosstab_loop n o args)
unfolding crosstab_loop
crosstab_loop-IsRunnable zero o args r q = record { runs = r; stays = q }
crosstab_loop-IsRunnable (suc n) o [] r q = record { runs = r; stays = q }
crosstab_loop-IsRunnable (suc n) o (Arg.bad e ∷ args) r q = record { runs = r; stays = q }
crosstab_loop-IsRunnable (suc n) o (Arg.value col ∷ args) r q =
    crosstab_loop-IsRunnable n (record o { crosstab = o.crosstab ++ col ∷ [] }) args r q

more_than_zero : (n : ℕ) → (n == 0) ≡ false → 0 < n
more_than_zero n h = ground arith

module _ (duration : Runes → Duration) where
  watch_for-IsRunnable :
      (t : Taken (Bool × Runes))
      → IsRunnable (watch_for duration (record (running exec_watch) { watch = 2000000000 }) t)
  unfolding watch_for
  watch_for-IsRunnable (Taken.untaken e) = record { runs = runs_watch (omega arith); stays = refl }
  watch_for-IsRunnable (Taken.taken (false, s) args) = record {
    runs = runs_watch (omega arith);
    stays = refl;
  }
  watch_for-IsRunnable (Taken.taken (true, s) args) =
      if_rule IsRunnable ((duration s).nanoseconds == 0)
        (λ e. record { runs = runs_watch (omega arith); stays = refl })
        (λ e. record {
          runs = runs_watch (more_than_zero (duration s).nanoseconds e);
          stays = refl;
        })

  -- Whatever the command's name and parameters are, and even where it fails, \g and its kin ask for an
  -- execution of some kind, never to quit, and the interval of \watch is not 0.
  pub exec_process-IsRunnable :
      (name : Runes) (args : Args) → IsRunnable (exec_process duration name args)
  unfolding exec_process
  exec_process-IsRunnable name args =
      if_rule IsRunnable (same name (codes "g"))
        (λ e.
          with_params-IsRunnable (running exec_only) (codes "pipe") none (get_all_values args)
            runs_only refl)
        (λ e.
          if_rule IsRunnable (same name (codes "gexec"))
            (λ e. record { runs = runs_exec; stays = refl })
            (λ e.
              if_rule IsRunnable (same name (codes "gset"))
                (λ e.
                  with_params-IsRunnable (running exec_set) (codes "prefix") none
                    (get_all_values args) runs_set refl)
                (λ e.
                  if_rule IsRunnable (same name (codes "G"))
                    (λ e.
                      with_params-IsRunnable (running exec_only) (codes "pipe")
                        (some (codes "format", codes "vertical")) (get_all_values args) runs_only
                        refl)
                    (λ e.
                      if_rule IsRunnable (same name (codes "gx"))
                        (λ e.
                          with_params-IsRunnable (running exec_only) (codes "pipe")
                            (some (codes "expanded", codes "on")) (get_all_values args) runs_only
                            refl)
                        (λ e.
                          if_rule IsRunnable (same name (codes "crosstabview"))
                            (λ e.
                              crosstab_loop-IsRunnable 4 (running exec_crosstab) args runs_crosstab
                                refl)
                            (λ e.
                              if_rule IsRunnable (same name (codes "watch"))
                                (λ e. watch_for-IsRunnable (get_ok args))
                                (λ e. record { runs = runs_only; stays = refl })))))))
