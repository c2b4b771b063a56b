-- ===== src/Ha/Loop/Follower.antt =====
-- A node that may not preempt follows an active peer in the loop of src/gruezi/ha.rs, as long as it
-- hears it.
use gruezi.Base.{
  ℕ, ◌≡◌, ◌≢◌, refl, sym, ◌∙◌, subst, Bool, true, false, Option, List, [], ◌∷◌, ◌++◌, All,
  All-append,
}
use gruezi.Base.Result.{Result, ok, err}
use gruezi.Base.Word.{Bytes}
use gruezi.Addresses.{AddressAction, remove}
use gruezi.Net.{SocketAddr}
use gruezi.Ha.Decision.{has_live_active_peer}
use gruezi.Ha.Error.{Error}
use gruezi.Ha.Loop.{
  Effect, refresh_local_state, decision_of, decided, trigger_state_hooks, hooks_for,
  publish_loop_status,
}
use gruezi.Ha.Loop.Actions.{actions, actions-++, actions-publish}
use gruezi.Ha.Loop.Handlers.{handle_send_event, cleanup_before_exit}
use gruezi.Ha.Loop.Refine.{cleanup-actions}
use gruezi.Ha.Loop.Run.{
  Event, shutdown, receive, timer, Round, Outcome, running, stopped, failed, or_cleanup, handle,
  round, rounds,
}
use gruezi.Ha.Loop.Transitions.{refresh-no_preempt, decided-state}
use gruezi.Ha.Loop.Vip.{final_state}
use gruezi.Ha.Loop.Quiet.{Quiet, receive-Quiet, send_event-Quiet}
use gruezi.Ha.Receive.{PeerObservation}
use gruezi.Ha.Runtime.{HaRuntimeConfig}
use gruezi.Ha.State.{HaState, init, standby, active, HaDecisionReason}
use gruezi.Ha.Status.{HaLoopState}

-- No address is added.
abbrev pub OnlyRemoves : List AddressAction → Type 0
OnlyRemoves xs = All (λ x. x ≡ remove) xs

-- The effects add no address, and the node is not active.
abbrev Follows : HaLoopState → List Effect → Type 0
Follows s es = OnlyRemoves (actions es) × (s.state ≢ active)

Follows-++ :
    (s : HaLoopState) (es fs : List Effect)
    → OnlyRemoves (actions es)
    → Follows s fs
    → Follows s (es ++ fs)
Follows-++ s es fs a b =
    (subst OnlyRemoves (sym (actions-++ es fs)) (All-append _ (actions es) (actions fs) a b.0), b.1)

standby-ne-active : standby ≢ active
standby-ne-active e = cc

init-ne-active : init ≢ active
init-ne-active e = cc

trigger-OnlyRemoves :
    (r : HaRuntimeConfig) (previous current : HaState) (reason : HaDecisionReason)
    (seen : Option PeerObservation) (now : ℕ)
    → current ≡ standby
    → OnlyRemoves (actions (trigger_state_hooks r previous current reason seen now))
unfolding trigger_state_hooks hooks_for
trigger-OnlyRemoves r init standby reason seen now e = (refl, tt)
trigger-OnlyRemoves r standby standby reason seen now e = tt
trigger-OnlyRemoves r active standby reason seen now e = (refl, tt)
trigger-OnlyRemoves r previous init reason seen now e = absurd (cc)
trigger-OnlyRemoves r previous active reason seen now e = absurd (cc)

module _ (hash : Bytes → ℕ) (r : HaRuntimeConfig) (has_tx : Bool) where
  refresh-Follows :
      (s : HaLoopState) (now : ℕ)
      → r.preempt ≡ false
      → has_live_active_peer r s.peer_observation now ≡ true
      → let (s', es) = refresh_local_state r has_tx s now in Follows s' es
  unfolding refresh_local_state
  refresh-Follows s now p live =
      let d = decision_of r s now in
      let s' = decided r s d now in
      let follows : s'.state ≡ standby = refresh-no_preempt r has_tx s now p live in
      let hooks = trigger_state_hooks r s.state d.state d.reason s.peer_observation now in
      Follows-++ s' hooks (publish_loop_status r has_tx s' now)
        (trigger-OnlyRemoves r s.state d.state d.reason s.peer_observation now
          (sym (decided-state r s d now) ∙ follows))
        (
          subst OnlyRemoves (sym (actions-publish r has_tx s' now)) tt,
          λ e. standby-ne-active (sym follows ∙ e),
        )

  cleanup-Follows :
      (s : HaLoopState) (faulted : Bool) (now : ℕ)
      → let (s', es) = cleanup_before_exit hash r has_tx s faulted now in Follows s' es
  unfolding cleanup_before_exit
  cleanup-Follows s faulted now = (
    subst OnlyRemoves (sym (cleanup-actions hash r has_tx s faulted now)) (refl, tt),
    init-ne-active,
  )

  or_cleanup-Follows :
      (peer_addr : SocketAddr) (s : HaLoopState) (now : ℕ)
      (res : Result Error (HaLoopState × List Effect))
      → s.state ≢ active
      → Quiet s res
      → let (o, es) = or_cleanup hash r has_tx peer_addr s now res in Follows (final_state o) es
  unfolding or_cleanup Quiet
  or_cleanup-Follows peer_addr s now (ok (s', es)) ne q =
      (subst OnlyRemoves (sym q.0) tt, λ e. ne (sym q.1 ∙ e))
  or_cleanup-Follows peer_addr s now (err x) ne q = cleanup-Follows s true now

  handle-Follows :
      (peer_addr : SocketAddr) (s : HaLoopState) (e : Event)
      → s.state ≢ active
      → let (o, es) = handle hash r has_tx peer_addr s e in Follows (final_state o) es
  unfolding handle
  handle-Follows peer_addr s (shutdown now) ne = cleanup-Follows s false now
  handle-Follows peer_addr s (receive recv buffer now cleanup_at) ne =
      or_cleanup-Follows peer_addr s cleanup_at _ ne (receive-Quiet hash r has_tx s recv buffer now)
  handle-Follows peer_addr s (timer sent tokio_now now cleanup_at) ne =
      let quiet = send_event-Quiet hash r has_tx peer_addr s sent tokio_now now in
      let (before, result) = handle_send_event hash r has_tx peer_addr s sent tokio_now now in
      let (o, after) = or_cleanup hash r has_tx peer_addr s cleanup_at result in
      Follows-++ (final_state o) before after (subst OnlyRemoves (sym quiet.0) tt)
        (or_cleanup-Follows peer_addr s cleanup_at result ne quiet.1)

  -- At the start of every round of the run, the peer that was seen last is alive and active.
  abbrev pub Hears : SocketAddr → Outcome → List Round → Type 0
  Hears peer_addr (running s) (i ∷ is) =
      (has_live_active_peer r s.peer_observation i.refreshed_at ≡ true)
      × Hears peer_addr (round hash r has_tx peer_addr s i).0 is
  Hears peer_addr (running s) [] = Unit {0}
  Hears peer_addr (stopped s) is = Unit {0}
  Hears peer_addr (failed s e) is = Unit {0}

  round-Follows :
      (peer_addr : SocketAddr) (s : HaLoopState) (i : Round)
      → r.preempt ≡ false
      → has_live_active_peer r s.peer_observation i.refreshed_at ≡ true
      → let (o, es) = round hash r has_tx peer_addr s i in Follows (final_state o) es
  unfolding round
  round-Follows peer_addr s i p live =
      let (s', refreshed) = refresh_local_state r has_tx s i.refreshed_at in
      let (o, handled) = handle hash r has_tx peer_addr s' i.event in
      let first = refresh-Follows s i.refreshed_at p live in
      Follows-++ (final_state o) refreshed handled first.0
        (handle-Follows peer_addr s' i.event first.1)

  outcome-Follows :
      (peer_addr : SocketAddr) (o : Outcome) (is : List Round)
      → r.preempt ≡ false
      → (final_state o).state ≢ active
      → Hears peer_addr o is
      → let (final, es) = rounds hash r has_tx peer_addr o is in Follows (final_state final) es
  unfolding rounds
  outcome-Follows peer_addr (running s) [] p ne h = (tt, ne)
  outcome-Follows peer_addr (running s) (i ∷ is) p ne h =
      let (o, first) = round hash r has_tx peer_addr s i in
      let (final, more) = rounds hash r has_tx peer_addr o is in
      let now = round-Follows peer_addr s i p h.0 in
      Follows-++ (final_state final) first more now.0 (outcome-Follows peer_addr o is p now.1 h.1)
  outcome-Follows peer_addr (stopped s) is p ne h = (tt, ne)
  outcome-Follows peer_addr (failed s e) is p ne h = (tt, ne)

  -- The node may not preempt and is not active. Over any rounds, at the start of each of which
  -- the peer that it saw last is alive and active, whatever arrives and fails meanwhile, also
  -- to the end of the loop, its effects add no address, and it is not active after them.
  pub rounds-follow :
      (peer_addr : SocketAddr) (s : HaLoopState) (is : List Round)
      → r.preempt ≡ false
      → s.state ≢ active
      → Hears peer_addr (running s) is
      → let (o, es) = rounds hash r has_tx peer_addr (running s) is in
        All (λ x. x ≡ remove) (actions es) × ((final_state o).state ≢ active)
  rounds-follow peer_addr s is p ne h = outcome-Follows peer_addr (running s) is p ne h
