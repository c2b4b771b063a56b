-- ===== src/Service/Progress.antt =====
-- How many steps `start_ha_service` of src/gruezi/start.rs has left, and which; and what it leaves
-- behind where the API ends first.
use gruezi.Base.{
  arith, ◌+◌, ◌≤◌, ◌⊎◌, inl, inr, suc, ℕ, ◌≡◌, refl, ap, ◌∙◌, true, false, Option, none, some, List,
  subst,
}
use gruezi.Base.Result.{Result, ok, err}
use gruezi.Base.Word.{Bytes}
use gruezi.Net.{SocketAddr}
use gruezi.Ha.Loop.{Effect}
use gruezi.Ha.Loop.Run.{
  Event, Outcome, receive, timer, shutdown, running, stopped, failed, handle, round,
}
use gruezi.Ha.Loop.Transitions.{replay}
use gruezi.Ha.Runtime.{HaRuntimeConfig}
use gruezi.Ha.State.{active, state_eq}
use gruezi.Ha.Status.{HaLoopState}
use gruezi.Service.{
  Failure, Joined, ha_runtime, ha_status_api, returned_an_error, handle_task_result, HaTask,
  unbound, refused, bound, panicked, joined_outcome, joined_ha, Main, ServiceError, Selected, by_ha,
  started, start, ha_refused, ha_panicked, selecting, awaiting_ha, awaiting_api, returned, Service,
  has_returned, wait_for_shutdown, by_signal, by_api, select, after_ha, loop_started, loop_ran,
  Step, ha_started, ha_ran, api_ended, selected, ha_awaited, api_awaited, Reachable, step,
}
use gruezi.Service.Sound.{Sound, HaSound, MainSound, true_or}
use gruezi.Service.Sound.Steps.{Reachable-Sound}

outcome_weight : Outcome → ℕ
outcome_weight (running s) = 1
outcome_weight (stopped s) = 0
outcome_weight (failed s e) = 0

task_weight : HaTask → ℕ
unfolding outcome_weight
task_weight unbound = 2
task_weight (refused e) = 0
task_weight (bound outcome effects) = outcome_weight outcome
task_weight panicked = 0

api_weight : Option Joined → ℕ
api_weight none = 1
api_weight (some result) = 0

main_weight : Main → ℕ
main_weight selecting = 3
main_weight awaiting_ha = 2
main_weight awaiting_api = 1
main_weight (returned result) = 0

-- How many steps can be left, beside the rounds of the loop.
weight : Service → ℕ
weight v = task_weight v.ha_task + api_weight v.api_task + main_weight v.main

ended_weight : (o : Outcome) → ((s : HaLoopState) × (o ≡ running s) → ⊥) → outcome_weight o ≡ 0
unfolding outcome_weight
ended_weight (running s) h = absurd (h (s, refl))
ended_weight (stopped s) h = refl
ended_weight (failed s e) h = refl

going_weight : (o : Outcome) → outcome_weight o ≤ 1
unfolding outcome_weight
going_weight (running s) = omega arith
going_weight (stopped s) = omega arith
going_weight (failed s e) = omega arith

not_joined_weight : (t : HaTask) → joined_ha t ≡ none → 1 ≤ task_weight t
unfolding joined_ha joined_outcome task_weight outcome_weight
not_joined_weight unbound h = omega arith
not_joined_weight (refused e) h = absurd (cc h)
not_joined_weight (bound (running s) effects) h = omega arith
not_joined_weight (bound (stopped s) effects) h = absurd (cc h)
not_joined_weight (bound (failed s e) effects) h = absurd (cc h)
not_joined_weight panicked h = absurd (cc h)

weight-select :
    (v : Service) (branch : Selected) → v.main ≡ selecting → weight (select v branch) + 1 ≤ weight v
unfolding weight select main_weight
weight-select v (by_signal (ok tt)) m = rw m (omega arith)
weight-select v (by_signal (err e)) m = rw m (omega arith)
weight-select v (by_ha result) m = rw m (omega arith)
weight-select v (by_api result) m = rw m (omega arith)

after_ha_weight : (res : Result ServiceError (Unit {0})) → main_weight (after_ha res) ≤ 1
unfolding after_ha main_weight
after_ha_weight (ok done) = omega arith
after_ha_weight (err e) = omega arith

abbrev IsShutdown : Event → Type 0
IsShutdown (shutdown now) = Unit {0}
IsShutdown (receive recv buffer now cleanup_at) = ⊥
IsShutdown (timer tried tokio_now now cleanup_at) = ⊥

abbrev IsDone : Joined → Type 0
IsDone none = ⊥
IsDone (some (err e)) = ⊥
IsDone (some (ok done)) = Unit {0}

abbrev IsSignal : Selected → Type 0
IsSignal (by_signal (ok done)) = Unit {0}
IsSignal (by_signal (err e)) = ⊥
IsSignal (by_ha result) = ⊥
IsSignal (by_api result) = ⊥

module _ (hash : Bytes → ℕ) (r : HaRuntimeConfig) (peer_addr : SocketAddr) where
  -- A round of the loop after which it goes on.
  abbrev pub IsRound : {v w : Service} → Step hash r peer_addr v w → Type 0
  IsRound (ha_refused v e t) = ⊥
  IsRound (ha_started v startup_at tokio_now t) = ⊥
  IsRound (ha_ran v s effects i t allowed) =
      (s' : HaLoopState) × ((round hash r true peer_addr s i).0 ≡ running s')
  IsRound (ha_panicked v j) = ⊥
  IsRound (api_ended v result t allowed) = ⊥
  IsRound (selected v branch m ready) = ⊥
  IsRound (ha_awaited v result m j) = ⊥
  IsRound (api_awaited v result m j) = ⊥

  -- A step in which nothing fails or panics: the HA task starts, the loop sees the shutdown,
  -- the server ends well, the signal comes, or a task that ended is awaited.
  abbrev pub IsGraceful : {v w : Service} → Step hash r peer_addr v w → Type 0
  IsGraceful (ha_refused v e t) = ⊥
  IsGraceful (ha_started v startup_at tokio_now t) = Unit {0}
  IsGraceful (ha_ran v s effects i t allowed) = IsShutdown i.event
  IsGraceful (ha_panicked v j) = ⊥
  IsGraceful (api_ended v result t allowed) = IsDone result
  IsGraceful (selected v branch m ready) = IsSignal branch
  IsGraceful (ha_awaited v result m j) = Unit {0}
  IsGraceful (api_awaited v result m j) = Unit {0}

  -- A run of the service from its start, with so many steps that are no such rounds.
  pub data Run : ℕ → Service → Type 0 where
    begin : Run 0 started
    goes_on :
        (k : ℕ) (v w : Service) → Run k v → (s : Step hash r peer_addr v w) → IsRound s → Run k w
    moves_on :
        (k : ℕ) (v w : Service)
        → Run k v
        → (s : Step hash r peer_addr v w) → (IsRound s → ⊥)
        → Run (suc k) w

  Run-Reachable : (k : ℕ) (v : Service) → Run k v → Reachable hash r peer_addr v
  Run-Reachable _ _ begin = start
  Run-Reachable _ _ (goes_on k v w run s i) = step v w (Run-Reachable k v run) s
  Run-Reachable _ _ (moves_on k v w run s i) = step v w (Run-Reachable k v run) s

  round_weight : (v w : Service) (s : Step hash r peer_addr v w) → IsRound s → weight w ≤ weight v
  unfolding weight task_weight loop_ran outcome_weight
  round_weight _ _ (ha_ran v s effects i t allowed) goes =
      let le = going_weight (round hash r true peer_addr s i).0 in rw t (omega arith)
  round_weight _ _ (ha_refused v e t) goes = absurd goes
  round_weight _ _ (ha_started v startup_at tokio_now t) goes = absurd goes
  round_weight _ _ (ha_panicked v j) goes = absurd goes
  round_weight _ _ (api_ended v result t allowed) goes = absurd goes
  round_weight _ _ (selected v branch m ready) goes = absurd goes
  round_weight _ _ (ha_awaited v result m j) goes = absurd goes
  round_weight _ _ (api_awaited v result m j) goes = absurd goes

  Step-weight :
      (v w : Service) (s : Step hash r peer_addr v w) → (IsRound s → ⊥) → weight w + 1 ≤ weight v
  unfolding weight task_weight api_weight main_weight loop_ran loop_started outcome_weight
  Step-weight _ _ (ha_refused v e t) h = rw t (omega arith)
  Step-weight _ _ (ha_started v startup_at tokio_now t) h = rw t (omega arith)
  Step-weight _ _ (ha_ran v s effects i t allowed) h =
      let ended = ended_weight (round hash r true peer_addr s i).0 h in rw (t, ended) (omega arith)
  Step-weight _ _ (ha_panicked v j) h = let le = not_joined_weight v.ha_task j in omega arith
  Step-weight _ _ (api_ended v result t allowed) h = rw t (omega arith)
  Step-weight _ _ (selected v branch m ready) h = weight-select v branch m
  Step-weight _ _ (ha_awaited v result m j) h =
      let le = after_ha_weight (handle_task_result result ha_runtime) in rw m (omega arith)
  Step-weight _ _ (api_awaited v result m j) h = rw m (omega arith)

  Run-weight : (k : ℕ) (v : Service) → Run k v → k + weight v ≤ 6
  Run-weight _ _ begin = unfold weight task_weight api_weight main_weight in omega arith
  Run-weight _ _ (goes_on k v w run s i) =
      let le = Run-weight k v run in let less = round_weight v w s i in omega arith
  Run-weight _ _ (moves_on k v w run s i) =
      let le = Run-weight k v run in let less = Step-weight v w s i in omega arith

  -- A next step, other than a round, in which nothing fails.
  abbrev pub HasNext : Service → Type 0
  HasNext v = (w : Service) × (s : Step hash r peer_addr v w) × IsGraceful s × (IsRound s → ⊥)

  next_of_api :
      (v : Service) (api : Option Joined)
      → v.main ≡ awaiting_api
      → v.shutdown_sent ≡ true
      → v.api_task ≡ api
      → HasNext v
  unfolding wait_for_shutdown
  next_of_api v none m sent a =
      (_, api_ended v (some (ok tt)) a (true_or v.shutdown_sent _ sent), tt, λ x. x)
  next_of_api v (some result) m sent a = (_, api_awaited v result m a, tt, λ x. x)

  next_of_ha :
      (v : Service) (task : HaTask)
      → v.main ≡ awaiting_ha
      → v.shutdown_sent ≡ true
      → v.ha_task ≡ task
      → HasNext v
  unfolding joined_ha joined_outcome wait_for_shutdown round handle
  next_of_ha v unbound m sent t = (_, ha_started v 0 0 t, tt, λ x. x)
  next_of_ha v (refused e) m sent t = (_, ha_awaited v _ m (ap joined_ha t), tt, λ x. x)
  next_of_ha v (bound (running s) effects) m sent t = (
    _,
    ha_ran v s effects (record { refreshed_at = 0; event = shutdown 0 }) t
        (true_or v.shutdown_sent _ sent),
    tt,
    λ x. not_running x.1,
  )
    where
      not_running : {a b : HaLoopState} → stopped a ≡ running b → ⊥
      not_running e = cc e
  next_of_ha v (bound (stopped s) effects) m sent t =
      (_, ha_awaited v _ m (ap joined_ha t), tt, λ x. x)
  next_of_ha v (bound (failed s e) effects) m sent t =
      (_, ha_awaited v _ m (ap joined_ha t), tt, λ x. x)
  next_of_ha v panicked m sent t = (_, ha_awaited v _ m (ap joined_ha t), tt, λ x. x)

  next_of :
      (v : Service) (m : Main) → v.main ≡ m → Sound v → (has_returned v.main ≡ true) ⊎ HasNext v
  unfolding has_returned
  next_of v selecting m h = inr (_, selected v (by_signal (ok tt)) m tt, tt, λ x. x)
  next_of v awaiting_ha m h = inr (next_of_ha v v.ha_task m (subst (MainSound _ _ _) m h.2) refl)
  next_of v awaiting_api m h =
      let told : MainSound v.shutdown_sent v.ha_task v.api_task awaiting_api =
        subst (MainSound _ _ _) m h.2 in
      inr (next_of_api v v.api_task m told.0 refl)
  next_of v (returned result) m h = inl (ap has_returned m)

  -- In every run of the service from its start, in any interleaving of its tasks, at most six
  -- steps are other than rounds of the loop after which it goes on. And as long as the service
  -- has not returned, there is such a step to take next, in which nothing fails or panics: the
  -- HA task starts, the loop sees the shutdown, the API server ends well, the signal comes, or
  -- a task that ended is awaited.
  pub Run-HasNext :
      (k : ℕ) (v : Service) → Run k v → (k ≤ 6) × ((has_returned v.main ≡ true) ⊎ HasNext v)
  Run-HasNext k v run =
      let le = Run-weight k v run in
      (
        omega arith,
        next_of v v.main refl (Reachable-Sound hash r peer_addr v (Run-Reachable k v run)),
      )

  -- The service reached a state in which it still selects, the HA loop runs in the active
  -- state, and the API task ended with an error. Then it can return with that error while the
  -- HA loop is still running, and replaying the address actions of its effects leaves the node
  -- with the addresses.
  pub api_first-abandons :
      (v : Service) (s : HaLoopState) (effects : List Effect) (e : Failure)
      → Reachable hash r peer_addr v
      → v.main ≡ selecting
      → v.ha_task ≡ bound (running s) effects
      → s.state ≡ active
      → v.api_task ≡ some (some (err e))
      → (w : Service) × Reachable hash r peer_addr w
        × (w.main ≡ returned (err (returned_an_error ha_status_api e)))
        × (w.ha_task ≡ bound (running s) effects)
        × (replay false effects ≡ true)
  unfolding select handle_task_result
  api_first-abandons v s effects e reached m task a api =
      let sound : HaSound (wait_for_shutdown v) (bound (running s) effects) =
        subst (HaSound _) task (Reachable-Sound hash r peer_addr v reached).0 in
      (
        select v (by_api (some (err e))),
        step v _ reached (selected v (by_api (some (err e))) m api),
        refl,
        task,
        sound.0 ∙ ap (λ x. state_eq x active) a,
      )
