-- ===== src/Ha/Loop/Actions.antt =====
-- The address actions among the effects of the loop of src/gruezi/ha.rs, in their order.
use gruezi.Base.{ℕ, ◌≡◌, refl, ap, Bool, true, false, List, [], ◌∷◌, ◌++◌}
use gruezi.Addresses.{AddressAction}
use gruezi.Ha.Loop.{
  Effect, published, address_spawned, hook_spawned, datagram, address_applied, hook_run,
  publish_loop_status,
}
use gruezi.Ha.Loop.Transitions.{replay}
use gruezi.Ha.Runtime.{HaRuntimeConfig}
use gruezi.Ha.Status.{HaLoopState}

abbrev pub actions : List Effect → List AddressAction
actions [] = []
actions (published _ ∷ es) = actions es
actions (address_spawned _ action _ ∷ es) = action ∷ actions es
actions (hook_spawned _ _ _ ∷ es) = actions es
actions (datagram _ _ ∷ es) = actions es
actions (address_applied _ action ∷ es) = action ∷ actions es
actions (hook_run _ _ _ ∷ es) = actions es

pub actions-++ : (es fs : List Effect) → actions (es ++ fs) ≡ actions es ++ actions fs
actions-++ [] fs = refl
actions-++ (published _ ∷ es) fs = actions-++ es fs
actions-++ (address_spawned _ action _ ∷ es) fs = ap (λ x. action ∷ x) (actions-++ es fs)
actions-++ (hook_spawned _ _ _ ∷ es) fs = actions-++ es fs
actions-++ (datagram _ _ ∷ es) fs = actions-++ es fs
actions-++ (address_applied _ action ∷ es) fs = ap (λ x. action ∷ x) (actions-++ es fs)
actions-++ (hook_run _ _ _ ∷ es) fs = actions-++ es fs

-- Effects without an address action leave the addresses as they are.
pub replay-actions : (b : Bool) (es : List Effect) → actions es ≡ [] → replay b es ≡ b
unfolding replay
replay-actions b [] h = refl
replay-actions b (published _ ∷ es) h = replay-actions b es h
replay-actions b (address_spawned _ action _ ∷ es) h = absurd (cc)
replay-actions b (hook_spawned _ _ _ ∷ es) h = replay-actions b es h
replay-actions b (datagram _ _ ∷ es) h = replay-actions b es h
replay-actions b (address_applied _ action ∷ es) h = absurd (cc)
replay-actions b (hook_run _ _ _ ∷ es) h = replay-actions b es h

pub actions-publish :
    (r : HaRuntimeConfig) (has_tx : Bool) (s : HaLoopState) (now : ℕ)
    → actions (publish_loop_status r has_tx s now) ≡ []
actions-publish r true s now = refl
actions-publish r false s now = refl
