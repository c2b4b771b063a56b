-- ===== src/Ha/Loop/Refine.antt =====
-- What the loop of src/gruezi/ha.rs promises about the virtual addresses, as a machine of its own:
-- its states forget the timers, the counters, the peer and the hooks, and its steps are the address
-- actions that a promotion, a demotion and the end of the loop ask for.
use gruezi.Base.{
  ℕ, ◌≡◌, ◌≢◌, refl, sym, ap, ◌∙◌, subst, Bool, true, false, Option, List, [], ◌∷◌, ◌++◌,
  append_assoc, append-nil,
}
use gruezi.Base.Result.{Result, ok, err}
use gruezi.Base.Word.{Bytes}
use gruezi.Addresses.{AddressAction, add, remove}
use gruezi.Net.{SocketAddr}
use gruezi.Ha.Decision.Failover.{desired_state-ne-init}
use gruezi.Ha.Error.{Error}
use gruezi.Ha.Loop.{
  Effect, refresh_local_state, initialize_loop_state, initial_state, trigger_state_hooks, hooks_for,
  decision_of, decided, publish_loop_status,
}
use gruezi.Ha.Loop.Actions.{actions, actions-++, actions-publish}
use gruezi.Ha.Loop.Handlers.{cleanup_before_exit, handle_send_event}
use gruezi.Ha.Loop.Run.{
  Event, shutdown, receive, timer, Round, Outcome, running, stopped, failed, or_cleanup, handle,
  round, rounds, run_with_status,
}
use gruezi.Ha.Loop.Transitions.{decided-state}
use gruezi.Ha.Loop.Quiet.{Quiet, receive-Quiet, send_event-Quiet}
use gruezi.Ha.Receive.{PeerObservation}
use gruezi.Ha.Runtime.{HaRuntimeConfig}
use gruezi.Ha.State.{HaState, init, standby, active, HaDecisionReason}
use gruezi.Ha.Status.{HaLoopState}

pub data Role : Type 0 where
  starting waiting holding ended : Role

-- One step, with the address actions that it asks for.
pub data RoleStep : Role → List AddressAction → Role → Type 0 where
  waits : RoleStep starting (remove ∷ []) waiting
  starts_as_holder : RoleStep starting (add ∷ []) holding
  takes_over : RoleStep waiting (add ∷ []) holding
  gives_up : RoleStep holding (remove ∷ []) waiting
  ends : (p : Role) → p ≢ ended → RoleStep p (remove ∷ []) ended

pub data Trace (p : Role) : List AddressAction → Role → Type 0 where
  rest : Trace p [] p
  go :
      (q q' : Role) (before now : List AddressAction)
      → Trace p before q
      → RoleStep q now q'
      → Trace p (before ++ now) q'

-- The view of the loop's state.
abbrev pub role : HaState → Role
role init = starting
role standby = waiting
role active = holding

abbrev pub view : Outcome → Role
view (running s) = role s.state
view (stopped s) = ended
view (failed s e) = ended

one : (p q : Role) (now : List AddressAction) → RoleStep p now q → Trace p now q
one p q now s = go p q [] now rest s

Trace-++ :
    (p q t : Role) (xs ys : List AddressAction) → Trace p xs q → Trace q ys t → Trace p (xs ++ ys) t
Trace-++ p q _ xs _ a rest = subst (λ l. Trace p l q) (sym (append-nil xs)) a
Trace-++ p q _ xs _ a (go u u' before now b s) =
    subst (λ l. Trace p l u') (append_assoc xs before now)
      (go u u' (xs ++ before) now (Trace-++ p q u xs before a b) s)

role-ne-ended : (s : HaState) → role s ≢ ended
role-ne-ended init e = cc
role-ne-ended standby e = cc
role-ne-ended active e = cc

trigger-Trace :
    (r : HaRuntimeConfig) (previous current : HaState) (reason : HaDecisionReason)
    (seen : Option PeerObservation) (now : ℕ)
    → current ≢ init
    → Trace
        (role previous)
        (actions (trigger_state_hooks r previous current reason seen now))
        (role current)
unfolding trigger_state_hooks hooks_for
trigger-Trace r previous init reason seen now ne = absurd (ne refl)
trigger-Trace r init standby reason seen now ne = one _ _ _ waits
trigger-Trace r standby standby reason seen now ne = rest
trigger-Trace r active standby reason seen now ne = one _ _ _ gives_up
trigger-Trace r init active reason seen now ne = one _ _ _ starts_as_holder
trigger-Trace r standby active reason seen now ne = one _ _ _ takes_over
trigger-Trace r active active reason seen now ne = rest

-- Followed by effects without an address action.
then_quiet :
    (p q : Role) (es fs : List Effect)
    → actions fs ≡ []
    → Trace p (actions es) q
    → Trace p (actions (es ++ fs)) q
then_quiet p q es fs h t =
    subst (λ l. Trace p l q)
      (sym (actions-++ es fs ∙ ap (λ l. actions es ++ l) h ∙ append-nil (actions es))) t

then_Trace :
    (p q t : Role) (es fs : List Effect)
    → Trace p (actions es) q
    → Trace q (actions fs) t
    → Trace p (actions (es ++ fs)) t
then_Trace p q t es fs a b =
    subst (λ l. Trace p l t) (sym (actions-++ es fs)) (Trace-++ p q t (actions es) (actions fs) a b)

module _ (hash : Bytes → ℕ) (r : HaRuntimeConfig) (has_tx : Bool) where
  refresh-Trace :
      (s : HaLoopState) (now : ℕ)
      → let (s', effects) = refresh_local_state r has_tx s now in
        Trace (role s.state) (actions effects) (role s'.state)
  unfolding refresh_local_state
  refresh-Trace s now =
      let d = decision_of r s now in
      let s' = decided r s d now in
      let ne : d.state ≢ init =
        unfold decision_of in
        desired_state-ne-init r s.state s.peer_observation s.startup_at now
          s.active_peer_conflict in
      then_quiet (role s.state) (role s'.state)
        (trigger_state_hooks r s.state d.state d.reason s.peer_observation now)
        (publish_loop_status r has_tx s' now) (actions-publish r has_tx s' now)
        (subst
          (λ x.
            Trace (role s.state)
              (actions (trigger_state_hooks r s.state d.state d.reason s.peer_observation now))
              (role x))
          (sym (decided-state r s d now))
          (trigger-Trace r s.state d.state d.reason s.peer_observation now ne))

  pub cleanup-actions :
      (s : HaLoopState) (faulted : Bool) (now : ℕ)
      → actions (cleanup_before_exit hash r has_tx s faulted now).1 ≡ remove ∷ []
  unfolding cleanup_before_exit
  cleanup-actions s true now = ap (λ l. remove ∷ l) (actions-publish r has_tx _ now)
  cleanup-actions s false now = ap (λ l. remove ∷ l) (actions-publish r has_tx _ now)

  cleanup-Trace :
      (s : HaLoopState) (faulted : Bool) (now : ℕ)
      → Trace (role s.state) (actions (cleanup_before_exit hash r has_tx s faulted now).1) ended
  cleanup-Trace s faulted now =
      subst (λ l. Trace (role s.state) l ended) (sym (cleanup-actions s faulted now))
        (one _ _ _ (ends (role s.state) (role-ne-ended s.state)))

  or_cleanup-Trace :
      (s : HaLoopState) (now : ℕ) (peer_addr : SocketAddr)
      (res : Result Error (HaLoopState × List Effect))
      → Quiet s res
      → let (outcome, effects) = or_cleanup hash r has_tx peer_addr s now res in
        Trace (role s.state) (actions effects) (view outcome)
  unfolding Quiet or_cleanup
  or_cleanup-Trace s now peer_addr (ok (s', es)) q =
      subst (λ x. Trace (role s.state) x (role s'.state)) (sym q.0)
        (subst (λ x. Trace (role s.state) [] (role x)) (sym q.1) rest)
  or_cleanup-Trace s now peer_addr (err x) q = cleanup-Trace s true now

  handle-Trace :
      (peer_addr : SocketAddr) (s : HaLoopState) (e : Event)
      → let (outcome, effects) = handle hash r has_tx peer_addr s e in
        Trace (role s.state) (actions effects) (view outcome)
  unfolding handle
  handle-Trace peer_addr s (shutdown now) = cleanup-Trace s false now
  handle-Trace peer_addr s (receive recv buffer now cleanup_at) =
      or_cleanup-Trace s cleanup_at peer_addr _ (receive-Quiet hash r has_tx s recv buffer now)
  handle-Trace peer_addr s (timer sent tokio_now now cleanup_at) =
      let quiet = send_event-Quiet hash r has_tx peer_addr s sent tokio_now now in
      let before = (handle_send_event hash r has_tx peer_addr s sent tokio_now now).0 in
      then_Trace _ (role s.state) _ before _
        (subst (λ l. Trace (role s.state) l (role s.state)) (sym quiet.0) rest)
        (or_cleanup-Trace s cleanup_at peer_addr _ quiet.1)

  round-Trace :
      (peer_addr : SocketAddr) (s : HaLoopState) (i : Round)
      → let (outcome, effects) = round hash r has_tx peer_addr s i in
        Trace (role s.state) (actions effects) (view outcome)
  unfolding round
  round-Trace peer_addr s i =
      let (s', refreshed) = refresh_local_state r has_tx s i.refreshed_at in
      then_Trace _ (role s'.state) _ refreshed _ (refresh-Trace s i.refreshed_at)
        (handle-Trace peer_addr s' i.event)

  rounds-Trace :
      (peer_addr : SocketAddr) (o : Outcome) (is : List Round)
      → let (final, effects) = rounds hash r has_tx peer_addr o is in
        Trace (view o) (actions effects) (view final)
  unfolding rounds
  rounds-Trace peer_addr (running s) [] = rest
  rounds-Trace peer_addr (running s) (i ∷ is) =
      let (outcome, effects) = round hash r has_tx peer_addr s i in
      then_Trace _ (view outcome) _ effects _ (round-Trace peer_addr s i)
        (rounds-Trace peer_addr outcome is)
  rounds-Trace peer_addr (stopped s) is = rest
  rounds-Trace peer_addr (failed s e) is = rest

  -- The loop refines the machine of roles. Over any run of the loop from the start of the node,
  -- the address actions of its effects, in order, are those of a path of that machine from
  -- `starting` to the view of the final state: a node waits after a removal, holds after an
  -- addition, adds only when it does not hold, removes when it gives up, and removes once more
  -- as it ends.
  pub run_with_status-Trace :
      (peer_addr : SocketAddr) (startup_at tokio_now : ℕ) (is : List Round)
      → let (outcome, effects) = run_with_status hash r has_tx peer_addr startup_at tokio_now is in
        Trace starting (actions effects) (view outcome)
  unfolding run_with_status initialize_loop_state initial_state
  run_with_status-Trace peer_addr startup_at tokio_now is =
      let (s, first) = initialize_loop_state r has_tx startup_at tokio_now in
      then_Trace _ starting _ first _
        (subst (λ l. Trace starting l starting) (sym (actions-publish r has_tx s startup_at)) rest)
        (rounds-Trace peer_addr (running s) is)
