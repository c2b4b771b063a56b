-- ===== src/Addresses.antt =====
-- src/gruezi/addresses.rs: the virtual addresses on the interface. The system that runs the
-- commands is the argument `exec` over its states `W`, and `parse_ip` is the standard library's
-- `IpAddr::from_str`.
pub mod Present
use gruezi.Base.{ℕ, Bool, true, false, ◌||◌, Option, none, some, List, [], ◌∷◌, if◌then◌else◌, ◌==◌}
use gruezi.Base.Result.{Result, ok, err}
use gruezi.Base.Word.{Bytes}
use gruezi.Hooks.{HaHooks, HookContext, fault, Command, Exit, not_run, exited, run}
use gruezi.Ha.State.{address_action_failed}
use gruezi.Net.{IpAddr, v4, v6, display_ip}
use gruezi.Text.{Text, codes, is_blank, contains}

pub record AddressManager : Type 0 where
  pub ip_command : Text
  pub arping_command : Text
  pub ndsend_command : Text
  pub interface : Text
  pub addresses : List Text

pub data AddressAction : Type 0 where
  add remove : AddressAction

-- `AddressAction::ip_subcommand`
pub ip_subcommand : AddressAction → Text
ip_subcommand add = codes "add"
ip_subcommand remove = codes "del"

pub data AddressError : Type 0 where
  empty_command : AddressError
  not_executed : Text → AddressError
  command_failed : Text → Bytes → AddressError
  invalid_address : Text → AddressError

-- `is_ignorable_ip_error`. The message is ASCII, so it stands in the lossy text of the bytes
-- exactly if it stands in the bytes.
unfoldable pub is_ignorable_ip_error : AddressAction → Bytes → Bool
is_ignorable_ip_error add stderr = contains stderr (codes "File exists")
is_ignorable_ip_error remove stderr = contains stderr (codes "Cannot assign requested address")

abbrev command : Text → List Text → Command
command program args = record { program = program; args = args; env = [] }

-- The call of `ip` for one address.
unfoldable pub ip_call : AddressManager → Text → AddressAction → Command
unfolding ip_subcommand
ip_call m address action =
    command m.ip_command
      (codes "address" ∷ ip_subcommand action ∷ address ∷ codes "dev" ∷ m.interface ∷ [])

-- What an exit of `ip` means.
unfoldable pub address_result : Text → AddressAction → Exit → Result AddressError (Unit {0})
unfolding is_ignorable_ip_error
address_result address action not_run = err (not_executed address)
address_result address action (exited success stderr) =
    if success || is_ignorable_ip_error action stderr
    then ok tt
    else err (command_failed address stderr)

announcement_result : Text → Exit → Result AddressError (Unit {0})
announcement_result program not_run = err (not_executed program)
announcement_result program (exited true stderr) = ok tt
announcement_result program (exited false stderr) = err (command_failed program stderr)

-- The part before the first slash: `split('/').next()`
unfoldable pub before_slash : Text → Text
before_slash [] = []
before_slash (c ∷ cs) = if c == b'/' then [] else c ∷ before_slash cs

-- Goes on only after a success.
abbrev on_ok :
    {W : Type 0}
    → Result AddressError (Unit {0}) × W
    → (W → Result AddressError (Unit {0}) × W)
    → Result AddressError (Unit {0}) × W
on_ok (ok u, w) next = next w
on_ok (err e, w) next = (err e, w)

module _ {W : Type 0} (exec : Command → W → Exit × W) (parse_ip : Text → Option IpAddr) where
  -- `run_address_command`
  unfoldable pub run_address_command :
      AddressManager → Text → AddressAction → W → Result AddressError (Unit {0}) × W
  unfolding address_result ip_call
  run_address_command m address action w =
      if is_blank m.ip_command
      then (err empty_command, w)
      else let (exit, w') = exec (ip_call m address action) w in
        (address_result address action exit, w')

  -- `run_announcement_command`
  unfoldable run_announcement_command : Text → List Text → W → Result AddressError (Unit {0}) × W
  unfolding announcement_result
  run_announcement_command program args w =
      if is_blank program
      then (err empty_command, w)
      else let (exit, w') = exec (command program args) w in (announcement_result program exit, w')

  unfoldable announce_ip :
      AddressManager → Text → Option IpAddr → W → Result AddressError (Unit {0}) × W
  unfolding run_announcement_command
  announce_ip m address none w = (err (invalid_address address), w)
  announce_ip m address (some (v4 a b c d)) w =
      run_announcement_command m.arping_command
        (codes "-U"
          ∷ codes "-I"
          ∷ m.interface
          ∷ codes "-c"
          ∷ codes "1"
          ∷ display_ip (v4 a b c d)
          ∷ [])
        w
  announce_ip m address (some (v6 s)) w =
      run_announcement_command m.ndsend_command (display_ip (v6 s) ∷ m.interface ∷ []) w

  -- `announce_address`, with `parse_address_ip`
  unfoldable pub announce_address : AddressManager → Text → W → Result AddressError (Unit {0}) × W
  unfolding announce_ip before_slash
  announce_address m address w = announce_ip m address (parse_ip (before_slash address)) w

  -- An announcement that fails is logged, and no more.
  unfoldable announce_added : AddressManager → AddressAction → Text → W → W
  unfolding announce_address
  announce_added m add address w = (announce_address m address w).1
  announce_added m remove address w = w

  unfoldable pub apply_all :
      AddressManager → AddressAction → List Text → W → Result AddressError (Unit {0}) × W
  unfolding run_address_command announce_added
  apply_all m action [] w = (ok tt, w)
  apply_all m action (a ∷ rest) w =
      on_ok (run_address_command m a action w)
        (λ w'. apply_all m action rest (announce_added m action a w'))

  -- `AddressManager::apply`
  unfoldable pub apply : AddressManager → AddressAction → W → Result AddressError (Unit {0}) × W
  unfolding apply_all
  apply m action w = apply_all m action m.addresses w

  module _ (exec_within : ℕ → Command → W → Option Exit × W) where
    fault_hook_run : Option (HaHooks × HookContext) → W → W
    fault_hook_run none w = w
    fault_hook_run (some (hooks, context)) w =
        (run exec_within hooks fault (record context { reason = some address_action_failed }) w).1

    after_apply :
        Option (HaHooks × HookContext)
        → Result AddressError (Unit {0}) × W
        → Result AddressError (Unit {0}) × W
    unfolding fault_hook_run
    after_apply fault_hook (ok u, w) = (ok u, w)
    after_apply fault_hook (err e, w) = (err e, fault_hook_run fault_hook w)

    -- The task of `spawn_address_action`, with the result that it logs.
    unfoldable pub address_task :
        AddressManager
        → AddressAction
        → Option (HaHooks × HookContext)
        → W
        → Result AddressError (Unit {0}) × W
    unfolding after_apply apply
    address_task m action fault_hook w = after_apply fault_hook (apply m action w)
