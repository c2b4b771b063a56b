-- ===== src/Ha/Loop/Vip.antt =====
-- The virtual addresses over a run of the loop of src/gruezi/ha.rs: what the address actions of
-- its effects leave, in the order in which they are asked for.
use gruezi.Ha.Loop.Quiet.{Quiet, receive-Quiet, cleanup-replay, cleanup-inactive, send_event-Quiet}
use gruezi.Base.{ℕ, ◌≡◌, refl, sym, ap, ◌∙◌, Bool, true, false, List, [], ◌∷◌}
use gruezi.Base.Result.{Result, ok, err}
use gruezi.Base.Word.{Bytes}
use gruezi.Net.{SocketAddr}
use gruezi.Ha.Error.{Error}
use gruezi.Ha.Loop.{Effect, refresh_local_state, initialize_loop_state, initial_state}
use gruezi.Ha.Loop.Actions.{replay-actions}
use gruezi.Ha.Loop.Handlers.{handle_send_event, cleanup_before_exit}
use gruezi.Ha.Loop.Run.{
  Event, shutdown, receive, timer, Round, Outcome, running, stopped, failed, or_cleanup, handle,
  round, rounds, run_with_status,
}
use gruezi.Ha.Loop.Transitions.{replay, replay-++, replay-publish, refresh-replay}
use gruezi.Ha.Runtime.{HaRuntimeConfig}
use gruezi.Ha.State.{init, active, state_eq}
use gruezi.Ha.Status.{HaLoopState}

abbrev pub final_state : Outcome → HaLoopState
final_state (running s) = s
final_state (stopped s) = s
final_state (failed s e) = s

-- The loop has ended.
abbrev pub Ended : Outcome → Type 0
Ended (running s) = ⊥
Ended (stopped s) = Unit {0}
Ended (failed s e) = Unit {0}

module _ (hash : Bytes → ℕ) (r : HaRuntimeConfig) (has_tx : Bool) where
  or_cleanup-replay :
      (s : HaLoopState) (now : ℕ) (peer_addr : SocketAddr)
      (res : Result Error (HaLoopState × List Effect))
      → Quiet s res
      → replay (state_eq s.state active) (or_cleanup hash r has_tx peer_addr s now res).1
        ≡ state_eq (final_state (or_cleanup hash r has_tx peer_addr s now res).0).state active
  unfolding Quiet or_cleanup
  or_cleanup-replay s now peer_addr (ok (s', es)) q =
      replay-actions (state_eq s.state active) es q.0 ∙ ap (λ x. state_eq x active) (sym q.1)
  or_cleanup-replay s now peer_addr (err x) q =
      cleanup-replay hash r has_tx s true now (state_eq s.state active)
      ∙ cleanup-inactive hash r has_tx s true now

  handle-replay :
      (peer_addr : SocketAddr) (s : HaLoopState) (e : Event)
      → replay (state_eq s.state active) (handle hash r has_tx peer_addr s e).1
        ≡ state_eq (final_state (handle hash r has_tx peer_addr s e).0).state active
  unfolding handle
  handle-replay peer_addr s (shutdown now) =
      cleanup-replay hash r has_tx s false now (state_eq s.state active)
      ∙ cleanup-inactive hash r has_tx s false now
  handle-replay peer_addr s (receive recv buffer now cleanup_at) =
      or_cleanup-replay s cleanup_at peer_addr _ (receive-Quiet hash r has_tx s recv buffer now)
  handle-replay peer_addr s (timer sent tokio_now now cleanup_at) =
      let sent_result = handle_send_event hash r has_tx peer_addr s sent tokio_now now in
      let quiet = send_event-Quiet hash r has_tx peer_addr s sent tokio_now now in
      replay-++ (state_eq s.state active) sent_result.0 _
      ∙ ap (λ b. replay b (or_cleanup hash r has_tx peer_addr s cleanup_at sent_result.1).1)
          (replay-actions _ sent_result.0 quiet.0)
      ∙ or_cleanup-replay s cleanup_at peer_addr sent_result.1 quiet.1

  pub round-replay :
      (peer_addr : SocketAddr) (s : HaLoopState) (i : Round)
      → replay (state_eq s.state active) (round hash r has_tx peer_addr s i).1
        ≡ state_eq (final_state (round hash r has_tx peer_addr s i).0).state active
  unfolding round
  round-replay peer_addr s i =
      let refreshed = refresh_local_state r has_tx s i.refreshed_at in
      let handled = handle hash r has_tx peer_addr refreshed.0 i.event in
      replay-++ (state_eq s.state active) refreshed.1 handled.1
      ∙ ap (λ b. replay b handled.1) (refresh-replay r has_tx s i.refreshed_at)
      ∙ handle-replay peer_addr refreshed.0 i.event

  pub rounds-replay :
      (peer_addr : SocketAddr) (o : Outcome) (is : List Round)
      → replay (state_eq (final_state o).state active) (rounds hash r has_tx peer_addr o is).1
        ≡ state_eq (final_state (rounds hash r has_tx peer_addr o is).0).state active
  unfolding rounds replay
  rounds-replay peer_addr (running s) [] = refl
  rounds-replay peer_addr (running s) (i ∷ is) =
      let first = round hash r has_tx peer_addr s i in
      let rest = rounds hash r has_tx peer_addr first.0 is in
      replay-++ (state_eq s.state active) first.1 rest.1
      ∙ ap (λ b. replay b rest.1) (round-replay peer_addr s i)
      ∙ rounds-replay peer_addr first.0 is
  rounds-replay peer_addr (stopped s) is = refl
  rounds-replay peer_addr (failed s e) is = refl

  pub initialize-replay :
      (startup_at tokio_now : ℕ)
      → replay false (initialize_loop_state r has_tx startup_at tokio_now).1
        ≡ state_eq (initialize_loop_state r has_tx startup_at tokio_now).0.state active
  unfolding initialize_loop_state initial_state
  initialize-replay startup_at tokio_now = replay-publish false r has_tx _ startup_at

  -- Over any run of the loop from the start of the node, with any datagrams, socket errors,
  -- times and shutdown, replaying the address actions of its effects in order, from a node
  -- without the addresses, leaves the addresses with the node exactly if its state at the end
  -- is active.
  pub run_with_status-replay :
      (peer_addr : SocketAddr) (startup_at tokio_now : ℕ) (is : List Round)
      → let (outcome, effects) = run_with_status hash r has_tx peer_addr startup_at tokio_now is in
        replay false effects ≡ state_eq (final_state outcome).state active
  unfolding run_with_status
  run_with_status-replay peer_addr startup_at tokio_now is =
      let initial = initialize_loop_state r has_tx startup_at tokio_now in
      let rest = rounds hash r has_tx peer_addr (running initial.0) is in
      replay-++ false initial.1 rest.1
      ∙ ap (λ b. replay b rest.1) (initialize-replay startup_at tokio_now)
      ∙ rounds-replay peer_addr (running initial.0) is

  or_cleanup-Ended :
      (s : HaLoopState) (now : ℕ) (peer_addr : SocketAddr)
      (res : Result Error (HaLoopState × List Effect))
      → Ended (or_cleanup hash r has_tx peer_addr s now res).0
      → (final_state (or_cleanup hash r has_tx peer_addr s now res).0).state ≡ init
  unfolding or_cleanup cleanup_before_exit
  or_cleanup-Ended s now peer_addr (ok x) h = absurd h
  or_cleanup-Ended s now peer_addr (err e) h = refl

  pub handle-Ended :
      (peer_addr : SocketAddr) (s : HaLoopState) (e : Event)
      → Ended (handle hash r has_tx peer_addr s e).0
      → (final_state (handle hash r has_tx peer_addr s e).0).state ≡ init
  unfolding handle cleanup_before_exit
  handle-Ended peer_addr s (shutdown now) h = refl
  handle-Ended peer_addr s (receive recv buffer now cleanup_at) h =
      or_cleanup-Ended s cleanup_at peer_addr _ h
  handle-Ended peer_addr s (timer sent tokio_now now cleanup_at) h =
      or_cleanup-Ended s cleanup_at peer_addr _ h

  rounds-Ended :
      (peer_addr : SocketAddr) (o : Outcome) (is : List Round)
      → (Ended o → (final_state o).state ≡ init)
      → Ended (rounds hash r has_tx peer_addr o is).0
      → (final_state (rounds hash r has_tx peer_addr o is).0).state ≡ init
  unfolding rounds round
  rounds-Ended peer_addr (running s) [] before h = absurd h
  rounds-Ended peer_addr (running s) (i ∷ is) before h =
      rounds-Ended peer_addr (round hash r has_tx peer_addr s i).0 is
        (handle-Ended peer_addr (refresh_local_state r has_tx s i.refreshed_at).0 i.event) h
  rounds-Ended peer_addr (stopped s) is before h = before h
  rounds-Ended peer_addr (failed s e) is before h = before h

  Ended-state :
      (peer_addr : SocketAddr) (startup_at tokio_now : ℕ) (is : List Round)
      → Ended (run_with_status hash r has_tx peer_addr startup_at tokio_now is).0
      → (final_state (run_with_status hash r has_tx peer_addr startup_at tokio_now is).0).state
        ≡ init
  unfolding run_with_status
  Ended-state peer_addr startup_at tokio_now is h =
      rounds-Ended peer_addr (running (initialize_loop_state r has_tx startup_at tokio_now).0) is
        (λ e. absurd e) h

  -- If the loop ends, by a shutdown or by any error of a handler, then its state is `init`, and
  -- replaying the address actions of the whole run, from a node without the addresses, leaves
  -- the node without them.
  pub run_with_status-Ended :
      (peer_addr : SocketAddr) (startup_at tokio_now : ℕ) (is : List Round)
      → Ended (run_with_status hash r has_tx peer_addr startup_at tokio_now is).0
      → ((final_state (run_with_status hash r has_tx peer_addr startup_at tokio_now is).0).state
          ≡ init)
        × (replay false (run_with_status hash r has_tx peer_addr startup_at tokio_now is).1 ≡ false)
  run_with_status-Ended peer_addr startup_at tokio_now is h =
      let state = Ended-state peer_addr startup_at tokio_now is h in
      (
        state,
        run_with_status-replay peer_addr startup_at tokio_now is
            ∙ ap (λ x. state_eq x active) state,
      )
