-- ===== src/Service/Sound/Steps.antt =====
-- Every step of `start_ha_service` of src/gruezi/start.rs and of its tasks keeps the invariant.
use gruezi.Base.{ℕ, ◌≡◌, refl, ap, ◌∙◌, subst, Bool, true, false, ◌||◌, none, some, List}
use gruezi.Base.Result.{Result, ok, err}
use gruezi.Base.Word.{Bytes}
use gruezi.Net.{SocketAddr}
use gruezi.Ha.Loop.{Effect, refresh_local_state}
use gruezi.Ha.Loop.Run.{
  Event, shutdown, receive, timer, Round, running, stopped, failed, or_cleanup, handle, round,
}
use gruezi.Ha.Loop.Transitions.{replay, replay-++}
use gruezi.Ha.Loop.Vip.{round-replay, initialize-replay, handle-Ended}
use gruezi.Ha.Runtime.{HaRuntimeConfig}
use gruezi.Ha.State.{active, state_eq}
use gruezi.Ha.Status.{HaLoopState}
use gruezi.Service.{
  Joined, ha_runtime, ha_status_api, signal_failed, handle_task_result, HaTask, unbound, refused,
  bound, panicked, joined_outcome, joined_ha, Main, selecting, awaiting_ha, awaiting_api, returned,
  Service, has_returned, wait_for_shutdown, by_signal, by_ha, by_api, Selected, select, after_ha,
  Ready, Allows, loop_started, loop_ran, Step, ha_refused, ha_started, ha_ran, ha_panicked,
  api_ended, selected, ha_awaited, api_awaited, Reachable, start, step,
}
use gruezi.Service.Sound.{
  StopsTold, HaSound, ApiSound, MainSound, Sound, raise_ha, raise_api, main_task, main_api,
  true-ne-false, or_true, true_or, joined_unbound, joined_running, api_sound,
}

module _ (hash : Bytes → ℕ) (r : HaRuntimeConfig) (peer_addr : SocketAddr) where
  or_cleanup-running :
      (s : HaLoopState) (now : ℕ) (told : Bool) (res : Result _ _)
      → StopsTold told (or_cleanup hash r true peer_addr s now res).0
  unfolding or_cleanup
  or_cleanup-running s now told (ok x) = tt
  or_cleanup-running s now told (err e) = tt

  handle-told :
      (v : Service) (s : HaLoopState) (e : Event)
      → Allows v e
      → StopsTold (wait_for_shutdown v) (handle hash r true peer_addr s e).0
  unfolding handle
  handle-told v s (shutdown now) a = a
  handle-told v s (receive recv buffer now cleanup_at) a = or_cleanup-running s cleanup_at _ _
  handle-told v s (timer sent tokio_now now cleanup_at) a = or_cleanup-running s cleanup_at _ _

  loop_ran_sound :
      (v : Service) (s : HaLoopState) (effects : List Effect) (i : Round)
      → replay false effects ≡ state_eq s.state active
      → Allows v i.event
      → HaSound (wait_for_shutdown v) (loop_ran hash r peer_addr s effects i)
  unfolding loop_ran round
  loop_ran_sound v s effects i h a =
      let s' = (refresh_local_state r true s i.refreshed_at).0 in
      let more = (round hash r true peer_addr s i).1 in
      (
        replay-++ false effects more
            ∙ ap (λ b. replay b more) h
            ∙ round-replay hash r true peer_addr s i,
        handle-Ended hash r true peer_addr s' i.event,
        handle-told v s' i.event a,
      )

  loop_started_sound :
      (told : Bool) (startup_at tokio_now : ℕ) → HaSound told (loop_started r startup_at tokio_now)
  unfolding loop_started
  loop_started_sound told startup_at tokio_now =
      (initialize-replay hash r true startup_at tokio_now, (λ e. absurd e), tt)

joined_ha-told :
    (told : Bool) (task : HaTask)
    → HaSound told task
    → joined_ha task ≡ some (some (ok tt))
    → told ≡ true
unfolding joined_ha joined_outcome
joined_ha-told told unbound h j = absurd (cc)
joined_ha-told told (refused e) h j = absurd (cc)
joined_ha-told told (bound (running s) effects) h j = absurd (cc)
joined_ha-told told (bound (stopped s) effects) h j = h.2
joined_ha-told told (bound (failed s e) effects) h j = absurd (cc)
joined_ha-told told panicked h j = absurd (cc)

module _ (hash : Bytes → ℕ) (r : HaRuntimeConfig) (peer_addr : SocketAddr) where
  task_step :
      (v : Service) (task : HaTask)
      → joined_ha v.ha_task ≡ none
      → HaSound (wait_for_shutdown v) task
      → Sound v
      → Sound (record v { ha_task = task })
  unfolding wait_for_shutdown
  task_step v task j t h =
      (t, h.1, main_task v.shutdown_sent v.ha_task task v.api_task v.main j h.2)

  -- `start_ha_service` goes on, and the tasks are told.
  main_step :
      (v : Service) (sent : Bool) (m : Main)
      → (sent || has_returned m) ≡ true
      → MainSound sent v.ha_task v.api_task m
      → Sound v
      → Sound (record v { shutdown_sent = sent; main = m })
  unfolding wait_for_shutdown
  main_step v sent m told t h = (
    raise_ha (wait_for_shutdown v) _ v.ha_task told h.0,
    raise_api (wait_for_shutdown v) _ v.api_task told h.1,
    t,
  )

  selected_main : (v : Service) → v.main ≡ selecting → Sound v → wait_for_shutdown v ≡ false
  unfolding wait_for_shutdown has_returned
  selected_main v m h =
      let sent : v.shutdown_sent ≡ false = subst (MainSound _ _ _) m h.2 in
      ap (λ x. v.shutdown_sent || has_returned x) m ∙ ap (λ x. x || false) sent

  -- While the service selects, no task has ended well.
  selected_ha :
      (v : Service) (result : Joined)
      → v.main ≡ selecting
      → joined_ha v.ha_task ≡ some result
      → Sound v
      → MainSound true v.ha_task v.api_task (returned (handle_task_result result ha_runtime))
  unfolding handle_task_result
  selected_ha v none m ready h = tt
  selected_ha v (some (err e)) m ready h = ready
  selected_ha v (some (ok tt)) m ready h =
      absurd (true-ne-false _ (joined_ha-told _ v.ha_task h.0 ready) (selected_main v m h))

  selected_api :
      (v : Service) (result : Joined)
      → v.main ≡ selecting
      → v.api_task ≡ some result
      → Sound v
      → MainSound true v.ha_task v.api_task (returned (handle_task_result result ha_status_api))
  unfolding handle_task_result
  selected_api v none m ready h = tt
  selected_api v (some (err e)) m ready h = tt
  selected_api v (some (ok tt)) m ready h =
      let told : wait_for_shutdown v ≡ true = subst (ApiSound (wait_for_shutdown v)) ready h.1 in
      absurd (true-ne-false _ told (selected_main v m h))

  selected-Sound :
      (v : Service) (branch : Selected)
      → v.main ≡ selecting
      → Ready v branch
      → Sound v
      → Sound (select v branch)
  unfolding select has_returned
  selected-Sound v (by_signal (ok done)) m ready h = main_step v true awaiting_ha refl refl h
  selected-Sound v (by_signal (err e)) m ready h =
      main_step v v.shutdown_sent (returned (err (signal_failed e))) (or_true v.shutdown_sent) tt h
  selected-Sound v (by_ha result) m ready h =
      main_step v true (returned _) refl (selected_ha v result m ready h) h
  selected-Sound v (by_api result) m ready h =
      main_step v true (returned _) refl (selected_api v result m ready h) h

  awaited_ha :
      (v : Service) (result : Joined)
      → v.shutdown_sent ≡ true
      → joined_ha v.ha_task ≡ some result
      → MainSound v.shutdown_sent v.ha_task v.api_task
          (after_ha (handle_task_result result ha_runtime))
  unfolding handle_task_result after_ha
  awaited_ha v none sent j = tt
  awaited_ha v (some (err e)) sent j = j
  awaited_ha v (some (ok tt)) sent j = (sent, j)

  awaited_api :
      (v : Service) (result : Joined)
      → v.shutdown_sent ≡ true
      → joined_ha v.ha_task ≡ some (some (ok tt))
      → v.api_task ≡ some result
      → MainSound v.shutdown_sent v.ha_task v.api_task
          (returned (handle_task_result result ha_status_api))
  unfolding handle_task_result
  awaited_api v none sent j a = tt
  awaited_api v (some (err e)) sent j a = tt
  awaited_api v (some (ok tt)) sent j a = (sent, j, a)

  Step-Sound : (v w : Service) → Step hash r peer_addr v w → Sound v → Sound w
  unfolding wait_for_shutdown
  Step-Sound v _ (ha_refused _ e u) h = task_step v (refused e) (joined_unbound v u) tt h
  Step-Sound v _ (ha_started _ startup_at tokio_now u) h =
      task_step v _ (joined_unbound v u)
        (loop_started_sound hash r peer_addr _ startup_at tokio_now) h
  Step-Sound v _ (ha_ran _ s effects i b a) h =
      let before : HaSound (wait_for_shutdown v) (bound (running s) effects) =
        subst (HaSound _) b h.0 in
      task_step v _ (joined_running v s effects b)
        (loop_ran_sound hash r peer_addr v s effects i before.0 a) h
  Step-Sound v _ (ha_panicked _ j) h = task_step v panicked j tt h
  Step-Sound v _ (api_ended _ result a allowed) h = (
    h.0,
    api_sound result v allowed,
    main_api v.shutdown_sent v.ha_task (some result) v.api_task v.main a h.2,
  )
  Step-Sound v _ (selected _ branch m ready) h = selected-Sound v branch m ready h
  Step-Sound v _ (ha_awaited _ result m j) h =
      let sent : v.shutdown_sent ≡ true = subst (MainSound _ _ _) m h.2 in
      main_step v v.shutdown_sent (after_ha (handle_task_result result ha_runtime))
        (true_or v.shutdown_sent _ sent) (awaited_ha v result sent j) h
  Step-Sound v _ (api_awaited _ result m a) h =
      let before : MainSound v.shutdown_sent v.ha_task v.api_task awaiting_api =
        subst (MainSound _ _ _) m h.2 in
      main_step v v.shutdown_sent (returned (handle_task_result result ha_status_api))
        (true_or v.shutdown_sent _ before.0) (awaited_api v result before.0 before.1 a) h

  pub Reachable-Sound : (v : Service) → Reachable hash r peer_addr v → Sound v
  Reachable-Sound _ start = (tt, tt, refl)
  Reachable-Sound _ (step v w before s) = Step-Sound v w s (Reachable-Sound v before)
