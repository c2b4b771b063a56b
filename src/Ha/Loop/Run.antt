-- ===== src/Ha/Loop/Run.antt =====
-- `run_with_status` of src/gruezi/ha.rs, behind the socket: one round of the loop for each event
-- that `select!` picks. The events and the times are the environment's, so a run is a list of
-- rounds; `select!` may pick any of the branches that are ready, and every such order is a list.
use gruezi.Base.{ℕ, Bool, true, false, Option, List, [], ◌∷◌, ◌++◌}
use gruezi.Base.Result.{Result, ok, err}
use gruezi.Base.Word.{Bytes}
use gruezi.Net.{SocketAddr}
use gruezi.Ha.Error.{Error, ErrorKind}
use gruezi.Ha.Loop.{Effect, refresh_local_state, initialize_loop_state}
use gruezi.Ha.Loop.Handlers.{Recv, handle_receive_event, handle_send_event, cleanup_before_exit}
use gruezi.Ha.Runtime.{HaRuntimeConfig}
use gruezi.Ha.Status.{HaLoopState}

-- The branches of `select!`, each with the times at which its code reads the clocks.
pub data Event : Type 0 where
  -- The shutdown future resolves.
  shutdown : ℕ → Event
  -- `recv_from` returns, with what the buffer then holds; the time of the handler and, should it
  -- fail, of the cleanup.
  receive : Recv → Bytes → ℕ → ℕ → Event
  -- The timer fires: what `send_to` gives, and the times.
  timer : Option ErrorKind → ℕ → ℕ → ℕ → Event

pub record Round : Type 0 where
  pub refreshed_at : ℕ
  pub event : Event

pub data Outcome : Type 0 where
  running : HaLoopState → Outcome
  stopped : HaLoopState → Outcome
  failed : HaLoopState → Error → Outcome

module _ (hash : Bytes → ℕ) (r : HaRuntimeConfig) (has_tx : Bool) (peer_addr : SocketAddr) where
  -- A handler that fails is followed by the cleanup, and the loop returns the error.
  unfoldable pub or_cleanup :
      HaLoopState → ℕ → Result Error (HaLoopState × List Effect) → Outcome × List Effect
  or_cleanup s now (ok (s', effects)) = (running s', effects)
  or_cleanup s now (err e) =
      let (s', effects) = cleanup_before_exit hash r has_tx s true now in (failed s' e, effects)

  unfoldable pub handle : HaLoopState → Event → Outcome × List Effect
  unfolding or_cleanup
  handle s (shutdown now) =
      let (s', effects) = cleanup_before_exit hash r has_tx s false now in (stopped s', effects)
  handle s (receive recv buffer now cleanup_at) =
      or_cleanup s cleanup_at (handle_receive_event hash r has_tx s recv buffer now)
  handle s (timer sent tokio_now now cleanup_at) =
      let (before, result) = handle_send_event hash r has_tx peer_addr s sent tokio_now now in
      let (outcome, after) = or_cleanup s cleanup_at result in (outcome, before ++ after)

  -- The body of the loop.
  unfoldable pub round : HaLoopState → Round → Outcome × List Effect
  unfolding handle
  round s i =
      let (s', refreshed) = refresh_local_state r has_tx s i.refreshed_at in
      let (outcome, effects) = handle s' i.event in (outcome, refreshed ++ effects)

  -- The loop: it ends with the first round that does not leave it running.
  unfoldable pub rounds : Outcome → List Round → Outcome × List Effect
  unfolding round
  rounds (running s) (i ∷ is) =
      let (outcome, effects) = round s i in
      let (final, more) = rounds outcome is in (final, effects ++ more)
  rounds outcome _ = (outcome, [])

  -- `run_with_status` once the socket is bound.
  unfoldable pub run_with_status : ℕ → ℕ → List Round → Outcome × List Effect
  unfolding rounds initialize_loop_state
  run_with_status startup_at tokio_now is =
      let (s, first) = initialize_loop_state r has_tx startup_at tokio_now in
      let (final, effects) = rounds (running s) is in (final, first ++ effects)
