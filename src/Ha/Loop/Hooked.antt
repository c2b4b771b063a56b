-- ===== src/Ha/Loop/Hooked.antt =====
-- The hooks that a refresh of src/gruezi/ha.rs asks for, and what src/gruezi/hooks.rs runs for them.
use gruezi.Base.{ℕ, ◌≡◌, ◌≢◌, ◌↔◌, true, Option, none, some, List, [], ◌∷◌, if◌then◌else◌}
use gruezi.Base.Result.{ok}
use gruezi.Text.{Text, codes, text_eq}
use gruezi.Text.Decimal.{display}
use gruezi.Ha.Loop.{
  Effect, published, address_spawned, hook_spawned, datagram, address_applied, hook_run,
}
use gruezi.Ha.Receive.{PeerObservation}
use gruezi.Ha.Runtime.{HaRuntimeConfig}
use gruezi.Ha.State.{HaState, init, standby, active, HaDecisionReason, as_str}
use gruezi.Hooks.{HookEvent, HookContext, HaHooks, Command, Exit, exited, to_ascii_uppercase, run}
use mathlib.Core.Option

-- The value of a variable in the environment.
abbrev pub lookup : Text → List (Text × Text) → Option Text
lookup name [] = none
lookup name ((x, value) ∷ env) =
    let rest = lookup name env in if text_eq x name then some value else rest

abbrev pub state_name : HaState → Text
state_name init = codes "INIT"
state_name standby = codes "STANDBY"
state_name active = codes "ACTIVE"

-- Which script a change of the state calls, and under which name.
pub data Calls (r : HaRuntimeConfig) (previous current : HaState)
    : Text → Option Text → Type 0 where
  on_promote : current ≡ active → Calls r previous current (codes "promote") r.hooks.on_promote
  on_demote :
      previous ≡ active
      → current ≡ standby
      → Calls r previous current (codes "demote") r.hooks.on_demote
  on_backup :
      previous ≢ active
      → current ≡ standby
      → Calls r previous current (codes "backup") r.hooks.on_backup

-- What the environment of a script tells it.
pub record Informs (r : HaRuntimeConfig) (previous current : HaState) (reason : HaDecisionReason)
    (seen : Option PeerObservation) (name : Text) (env : List (Text × Text)) : Type 0 where
  pub event : lookup (codes "GRUEZI_EVENT") env ≡ some name
  pub node_id : lookup (codes "GRUEZI_NODE_ID") env ≡ some r.node_id
  pub group_id : lookup (codes "GRUEZI_GROUP_ID") env ≡ some r.group_id
  pub interface : lookup (codes "GRUEZI_INTERFACE") env ≡ some r.interface
  pub priority : lookup (codes "GRUEZI_PRIORITY") env ≡ some (display r.priority)
  pub state : lookup (codes "GRUEZI_STATE") env ≡ some (state_name current)
  pub previous_state : lookup (codes "GRUEZI_PREVIOUS_STATE") env ≡ some (state_name previous)
  pub told_reason : lookup (codes "GRUEZI_REASON") env ≡ some (to_ascii_uppercase (as_str reason))
  pub peer_id : lookup (codes "GRUEZI_PEER_ID") env ≡ Option.map (λ o. o.node_id) seen
  pub peer_state :
      lookup (codes "GRUEZI_PEER_STATE") env ≡ Option.map (λ o. state_name o.state) seen
  pub peer_priority :
      lookup (codes "GRUEZI_PEER_PRIORITY") env ≡ Option.map (λ o. display o.priority) seen

module _ {W : Type 0} (exec_within : ℕ → Command → W → Option Exit × W) (r : HaRuntimeConfig)
    (previous current : HaState) (reason : HaDecisionReason) (seen : Option PeerObservation)
    (w : W) where
  -- The run of a hook: nothing where there is no script, else its process, which is told about
  -- the change, and of which a success is a success of the hook.
  abbrev pub Runs : HaHooks → HookEvent → HookContext → Text → Option Text → Type 0
  Runs h event c name none = run exec_within h event c w ≡ (ok tt, w)
  Runs h event c name (some script) =
      (command : Command) × (command.program ≡ script)
      × (command.args ≡ [])
      × Informs r previous current reason seen name command.env
      × ((run exec_within h event c w).1 ≡ (exec_within r.hooks.timeout_ms command w).1)
      × (((run exec_within h event c w).0 ≡ ok tt) ↔ (
          (stderr : List ℕ) × ((exec_within r.hooks.timeout_ms command w).0
            ≡ some (exited true stderr))))

  -- An effect, if it is a hook, is the one that the change calls for.
  abbrev pub IsCalled : Effect → Type 0
  IsCalled (published _) = Unit {0}
  IsCalled (address_spawned _ _ _) = Unit {0}
  IsCalled (hook_spawned h event c) =
      (name : Text) × (script : Option Text) × Calls r previous current name script
      × Runs h event c name script
  IsCalled (datagram _ _) = Unit {0}
  IsCalled (address_applied _ _) = Unit {0}
  IsCalled (hook_run _ _ _) = Unit {0}
