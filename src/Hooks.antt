-- ===== src/Hooks.antt =====
-- src/gruezi/hooks.rs: hook scripts, their environment, and how a run ends.
pub mod Success
use gruezi.Base.{
  ℕ, ◌-◌, Bool, true, false, ◌&&◌, Option, none, some, List, [], ◌∷◌, ◌++◌, map, leb, if◌then◌else◌,
}
use gruezi.Base.Result.{Result, ok, err}
use gruezi.Text.{Text, codes}
use gruezi.Text.Decimal.{display}
use gruezi.Ha.State.{HaState, HaDecisionReason, as_str, debug_state}

pub record HaHooks : Type 0 where
  pub on_promote : Option Text
  pub on_demote : Option Text
  pub on_backup : Option Text
  pub on_fault : Option Text
  pub timeout_ms : ℕ

-- `impl Default for HaHooks`
pub default_hooks : HaHooks
default_hooks = record {
  on_promote = none;
  on_demote = none;
  on_backup = none;
  on_fault = none;
  timeout_ms = 5_000;
}

pub data HookEvent : Type 0 where
  promote demote backup fault : HookEvent

-- `HookEvent::as_env_value`
unfoldable pub as_env_value : HookEvent → Text
as_env_value promote = codes "promote"
as_env_value demote = codes "demote"
as_env_value backup = codes "backup"
as_env_value fault = codes "fault"

pub record HookContext : Type 0 where
  pub node_id : Text
  pub group_id : Text
  pub interface : Text
  pub state : HaState
  pub previous_state : HaState
  pub reason : Option HaDecisionReason
  pub priority : ℕ
  pub peer_id : Option Text
  pub peer_state : Option HaState
  pub peer_priority : Option ℕ
  pub last_peer_seen_ms_ago : Option ℕ

-- `HaHooks::script_for`
unfoldable pub script_for : HaHooks → HookEvent → Option Text
script_for h promote = h.on_promote
script_for h demote = h.on_demote
script_for h backup = h.on_backup
script_for h fault = h.on_fault

-- `str::to_ascii_uppercase`
unfoldable pub to_ascii_uppercase : Text → Text
to_ascii_uppercase = map λ c. if leb b'a' c && leb c b'z' then c - 32 else c

-- A process to run: the program, its environment, its arguments.
pub record Command : Type 0 where
  pub program : Text
  pub args : List Text
  pub env : List (Text × Text)

-- A variable that is set only where there is a value.
abbrev env_var : {A : Type 0} → Text → (A → Text) → Option A → List (Text × Text)
env_var name show none = []
env_var name show (some a) = (name, show a) ∷ []

-- `hook_command`
unfoldable pub hook_command : Text → HookEvent → HookContext → Command
hook_command script event c = record {
  program = script;
  args = [];
  env =
      (codes "GRUEZI_EVENT", as_env_value event)
      ∷ (codes "GRUEZI_NODE_ID", c.node_id)
      ∷ (codes "GRUEZI_GROUP_ID", c.group_id)
      ∷ (codes "GRUEZI_INTERFACE", c.interface)
      ∷ (codes "GRUEZI_PRIORITY", display c.priority)
      ∷ (codes "GRUEZI_STATE", to_ascii_uppercase (debug_state c.state))
      ∷ (codes "GRUEZI_PREVIOUS_STATE", to_ascii_uppercase (debug_state c.previous_state))
      ∷ (env_var (codes "GRUEZI_REASON") (λ r. to_ascii_uppercase (as_str r)) c.reason
          ++ (env_var (codes "GRUEZI_PEER_ID") (λ p. p) c.peer_id
              ++ (env_var (codes "GRUEZI_PEER_STATE") (λ s. to_ascii_uppercase (debug_state s))
                    c.peer_state
                  ++ (env_var (codes "GRUEZI_PEER_PRIORITY") display c.peer_priority
                      ++ env_var (codes "GRUEZI_LAST_PEER_SEEN_MS") display
                          c.last_peer_seen_ms_ago))));
}

-- How a process ends: it could not be run, or it exits with success or not, and its stderr.
pub data Exit : Type 0 where
  not_run : Exit
  exited : Bool → List ℕ → Exit

pub data HookError : Type 0 where
  timed_out : Text → ℕ → HookError
  not_executed : Text → HookError
  failed : Text → List ℕ → HookError

-- The system runs a command under a time limit; `none` is a timeout.
module _ {W : Type 0} (exec_within : ℕ → Command → W → Option Exit × W) where
  unfoldable finish_hook : Text → ℕ → Option Exit → Result HookError (Unit {0})
  finish_hook script limit none = err (timed_out script limit)
  finish_hook script limit (some not_run) = err (not_executed script)
  finish_hook script limit (some (exited true stderr)) = ok tt
  finish_hook script limit (some (exited false stderr)) = err (failed script stderr)

  unfoldable run_script :
      HaHooks → HookEvent → HookContext → Option Text → W → Result HookError (Unit {0}) × W
  unfolding finish_hook
  run_script h event c none w = (ok tt, w)
  run_script h event c (some script) w =
      let (r, w') = exec_within h.timeout_ms (hook_command script event c) w in
      (finish_hook script h.timeout_ms r, w')

  -- `HaHooks::run`
  unfoldable pub run : HaHooks → HookEvent → HookContext → W → Result HookError (Unit {0}) × W
  unfolding run_script
  run h event c w = run_script h event c (script_for h event) w
