-- ===== src/Cluster.antt =====
-- Two nodes that run the loop of src/gruezi/ha.rs, and the network between them. The network keeps
-- every datagram that either node handed to its socket: it may deliver each of them to either node,
-- any number of times, late, in any order, or never. Nobody else sends.
pub mod Emits
pub mod Rounds
pub mod Knowledge
pub mod Safety
pub mod Silent
pub mod Numbers
pub mod Stable
pub mod Refreshed
pub mod Exchange
pub mod Healing
pub mod Settles
pub mod Replay
use gruezi.Base.{ℕ, ◌≡◌, ◌⊎◌, Bool, List, [], ◌∷◌, ◌++◌, take}
use gruezi.Base.Result.{ok, err}
use gruezi.Base.Word.{Bytes}
use gruezi.Net.{SocketAddr}
use gruezi.Ha.Loop.{
  Effect, published, address_spawned, hook_spawned, datagram, address_applied, hook_run,
  initial_state,
}
use gruezi.Ha.Loop.Run.{Event, shutdown, receive, timer, Round, running, round}
use gruezi.Ha.Runtime.{HaRuntimeConfig}
use gruezi.Ha.Status.{HaLoopState}

-- The datagrams among the effects.
abbrev pub sent : List Effect → List Bytes
sent [] = []
sent (published _ ∷ es) = sent es
sent (address_spawned _ _ _ ∷ es) = sent es
sent (hook_spawned _ _ _ ∷ es) = sent es
sent (datagram bs _ ∷ es) = bs ∷ sent es
sent (address_applied _ _ ∷ es) = sent es
sent (hook_run _ _ _ ∷ es) = sent es

abbrev pub In : Bytes → List Bytes → Type 0
In x [] = ⊥
In x (y ∷ ys) = (x ≡ y) ⊎ In x ys

-- What an event receives comes from the network.
abbrev pub Delivers : List Bytes → Event → Type 0
Delivers network (shutdown _) = Unit {0}
Delivers network (receive (ok (n, from)) buffer _ _) = In (take n buffer) network
Delivers network (receive (err _) buffer _ _) = Unit {0}
Delivers network (timer _ _ _ _) = Unit {0}

pub record Cluster : Type 0 where
  pub state_a : HaLoopState
  pub state_b : HaLoopState
  pub network : List Bytes

module _ (hash : Bytes → ℕ) (a b : HaRuntimeConfig) (tx_a tx_b : Bool)
    (addr_a addr_b : SocketAddr) where
  -- One of the nodes runs a round of its loop, and goes on running.
  pub data Step : Cluster → Cluster → Type 0 where
    step_a :
        (c : Cluster) (i : Round) (s : HaLoopState) (es : List Effect)
        → Delivers c.network i.event
        → round hash a tx_a addr_b c.state_a i ≡ (running s, es)
        → Step c (record c { state_a = s; network = sent es ++ c.network })
    step_b :
        (c : Cluster) (i : Round) (s : HaLoopState) (es : List Effect)
        → Delivers c.network i.event
        → round hash b tx_b addr_a c.state_b i ≡ (running s, es)
        → Step c (record c { state_b = s; network = sent es ++ c.network })

  -- The states from the start of both nodes, each at its own time.
  pub data Reachable : Cluster → Type 0 where
    start :
        (startup_a tokio_a startup_b tokio_b : ℕ)
        → Reachable (record {
          state_a = initial_state a startup_a tokio_a;
          state_b = initial_state b startup_b tokio_b;
          network = [];
        })
    step : (c d : Cluster) → Reachable c → Step c d → Reachable d
