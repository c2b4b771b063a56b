-- ===== src/Hooks/Success.antt =====
-- What `HaHooks::run` of src/gruezi/hooks.rs runs, and when it succeeds.
use gruezi.Base.{ℕ, ◌≡◌, ◌↔◌, refl, true, false, Option, none, some, List}
use gruezi.Base.Result.{ok}
use gruezi.Hooks.{
  HaHooks, HookEvent, HookContext, Command, Exit, not_run, exited, script_for, hook_command,
  finish_hook, run_script, run,
}
use gruezi.Text.{Text}

module _ {W : Type 0} (exec_within : ℕ → Command → W → Option Exit × W) where
  -- The command of a script ended with success, in time.
  abbrev pub Succeeds : HaHooks → HookEvent → HookContext → W → Text → Type 0
  Succeeds h event c w script =
      (stderr : List ℕ) × ((exec_within h.timeout_ms (hook_command script event c) w).0
        ≡ some (exited true stderr))

  finish_hook-ok :
      (script : Text) (limit : ℕ) (e : Option Exit)
      → finish_hook exec_within script limit e ≡ ok tt
      → (stderr : List ℕ) × (e ≡ some (exited true stderr))
  unfolding finish_hook
  finish_hook-ok script limit none h = absurd (cc h)
  finish_hook-ok script limit (some not_run) h = absurd (cc h)
  finish_hook-ok script limit (some (exited true stderr)) h = (stderr, refl)
  finish_hook-ok script limit (some (exited false stderr)) h = absurd (cc h)

  -- No process is run where no script is set.
  pub run-no_script :
      (h : HaHooks) (event : HookEvent) (c : HookContext) (w : W)
      → script_for h event ≡ none
      → run exec_within h event c w ≡ (ok tt, w)
  unfolding run run_script
  run-no_script h event c w e = rw e refl

  -- Otherwise the command of the script is, and the result is a success exactly if it is one.
  pub run-script :
      (h : HaHooks) (event : HookEvent) (c : HookContext) (w : W) (script : Text)
      → script_for h event ≡ some script
      → ((run exec_within h event c w).1
          ≡ (exec_within h.timeout_ms (hook_command script event c) w).1)
        × (((run exec_within h event c w).0 ≡ ok tt) ↔ Succeeds h event c w script)
  unfolding run run_script finish_hook
  run-script h event c w script e =
      rw e (refl, (λ x. finish_hook-ok script h.timeout_ms _ x, λ x. rw (x.1) refl))
