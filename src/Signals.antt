-- ===== src/Signals.antt =====
-- `shutdown_signal` of src/gruezi/signal.rs, on Unix: what Tokio gives is its argument.
use gruezi.Base.Result.{Result, ok, err}

pub data SignalError : Type 0 where
  no_sigterm no_sigint : SignalError

-- The branches of `select!`: Ctrl-C with what waiting for it gives, or SIGTERM.
pub data SignalEvent : Type 0 where
  ctrl_c : Result (Unit {0}) (Unit {0}) → SignalEvent
  terminate : SignalEvent

signalled : SignalEvent → Result SignalError (Unit {0})
signalled (ctrl_c (ok done)) = ok tt
signalled (ctrl_c (err e)) = err no_sigint
signalled terminate = ok tt

-- `shutdown_signal`, on whether the handler of SIGTERM could be installed.
unfoldable pub shutdown_signal :
    Result (Unit {0}) (Unit {0}) → SignalEvent → Result SignalError (Unit {0})
unfolding signalled
shutdown_signal (ok done) event = signalled event
shutdown_signal (err e) event = err no_sigterm
