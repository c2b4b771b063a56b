-- ===== src/Tests/Apis.antt =====
-- The theorems on the management API and its client at concrete inputs.
use gruezi.Base.{◌≡◌, refl, true, false, List, [], ◌∷◌, inl, none}
use gruezi.Text.{codes}
use gruezi.Api.{
  served, status_response, borrow, first_status, ha_api, ends_with, has_scheme, trim_end_slashes,
  normalize_status_endpoint,
}
use gruezi.Api.Endpoint.{Asks, normalize_status_endpoint-Asks}
use gruezi.Api.Shown.{run_with_status-Shows}
use gruezi.Api.Shows.{Shows}
use gruezi.Ha.Loop.Run.{Round, timer, run_with_status}
use gruezi.Ha.Loop.Transitions.{replay}
use gruezi.Ha.Loop.Vip.{final_state}
use gruezi.Ha.State.{active, state_eq}
use gruezi.Ha.Status.{HaStatus}
use gruezi.Tests.{hash, node_a, peer_addr}

normalize_status_endpoint-Asks_example :
    Asks (codes "https://a:9376/") (normalize_status_endpoint (codes "https://a:9376/"))
normalize_status_endpoint-Asks_example = normalize_status_endpoint-Asks (codes "https://a:9376/")

-- The slash at the end goes.
slash : normalize_status_endpoint (codes "https://a:9376/") ≡ codes "https://a:9376/status"
unfolding normalize_status_endpoint has_scheme ends_with trim_end_slashes
slash = refl

-- `a` sends once.
abbrev one_send : List Round
one_send =
    record { refreshed_at = 7_000_000_000; event = timer none 7_000_000_000 7_000_000_000 0 } ∷ []

run_with_status-Shows_example :
    (status : HaStatus) × (ha_api
        (borrow (first_status node_a) (run_with_status hash node_a true peer_addr 0 0 one_send).1)
        (codes "/status")
      ≡ served (status_response status))
    × Shows (final_state (run_with_status hash node_a true peer_addr 0 0 one_send).0) status
    × (replay false (run_with_status hash node_a true peer_addr 0 0 one_send).1
        ≡ state_eq status.state active)
run_with_status-Shows_example =
    run_with_status-Shows hash node_a peer_addr 0 0 one_send (codes "/status") (inl refl)
