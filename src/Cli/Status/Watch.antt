-- ===== src/Cli/Status/Watch.antt =====
-- How long `--watch` of src/cli/actions/status.rs goes on.
use gruezi.Base.{◌≡◌, refl, none, some, List, [], ◌∷◌, ◌++◌, All}
use gruezi.Base.Result.{Result}
use gruezi.Cli.{Line}
use gruezi.Cli.Status.{Poll, poll_line, watch_loop, after_poll}

abbrev pub polled : List Poll → List Line
polled [] = []
polled (p ∷ ps) = poll_line p.now p.fetched ∷ polled ps

-- The watch of the status prints one line for each poll, whether the query succeeds or fails,
-- up to the first at which Ctrl-C comes before the pause is over; it then ends, with what
-- waiting for Ctrl-C gave.
pub watch_loop-polled :
    (before : List Poll) (last : Poll) (rest : List Poll) (result : Result (Unit {0}) (Unit {0}))
    → All (λ p. p.interrupt ≡ none) before
    → last.interrupt ≡ some result
    → watch_loop (before ++ (last ∷ rest)) ≡ (polled (before ++ (last ∷ [])), some result)
unfolding watch_loop after_poll
watch_loop-polled [] last rest result h e = rw e refl
watch_loop-polled (p ∷ ps) last rest result (h, hs) e =
    rw (h, watch_loop-polled ps last rest result hs e) refl
