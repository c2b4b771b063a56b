-- ===== src/Tests/Systems.antt =====
-- The theorems on commands and sockets, applied to small systems.
use gruezi.Base.{
  ℕ, zero, suc, ◌≡◌, ◌≢◌, ◌∙◌, ◌<◌, Bool, Bool-cases, if◌then◌else◌, inl, inr, refl, true, false,
  Option, none, some, List, [], ◌∷◌, All, arith,
}
use gruezi.Base.Result.{ok}
use gruezi.Addresses.{AddressManager, remove, run_address_command, apply, address_result}
use gruezi.Addresses.Present.{IsIp, apply-reaches}
use gruezi.Ha.Runtime.{HaRuntimeConfig}
use gruezi.Ha.Status.{HaLoopState}
use gruezi.Ha.State.{standby}
use gruezi.Hooks.{HaHooks, Command, Exit, exited}
use gruezi.Text.{Text, codes, is_blank, text_eq, text_eq_iff}
use gruezi.Ha.Error.{ErrorKind, addr_in_use}
use gruezi.Ha.Loop.{address_manager, initial_state}
use gruezi.Sockets.{Call, bind_to, ipv6, bind_udp_socket, bind_udp_socket_with_retry}
use gruezi.Sockets.Retry.{before, bind_udp_socket_with_retry_lem}
use gruezi.Tests.{node_a, peer_addr}

abbrev manager : AddressManager
manager = address_manager node_a

-- What `ip` was asked for, the last line first: an address, and whether it was to be added.
-- The other commands leave no trace.
abbrev traced : Bool → List Text → List (Text × Bool) → List (Text × Bool)
traced true (subject ∷ verb ∷ address ∷ more) w = (address, text_eq verb (codes "add")) ∷ w
traced true _ w = w
traced false args w = w

abbrev exec : Command → List (Text × Bool) → Exit × List (Text × Bool)
exec c w = (exited true [], traced (text_eq c.program manager.ip_command) c.args w)

-- Is the address on the interface?
holds : Text → List (Text × Bool) → Bool
holds a [] = false
holds a ((x, added) ∷ w) = let before = holds a w in if text_eq a x then added else before

holds-other :
    (b : Text) (c : Command) (w : List (Text × Bool))
    → c.program ≢ manager.ip_command
    → holds b (exec c w).1 ≡ holds b w
holds-other b c w ne = elim (Bool-cases (text_eq c.program manager.ip_command)) [
  | inl e ↦ absurd (ne ((text_eq_iff c.program manager.ip_command).0 e))
  | inr e ↦ rw e refl
]

manager-IsIp : IsIp exec manager (λ a w. holds a w ≡ true) (λ a w. holds a w ≡ false)
unfolding holds text_eq
manager-IsIp = record {
  added = λ a w stderr e. rw ((text_eq_iff a a).1 refl) refl;
  there_before = λ a w stderr e ignored. absurd (cc e);
  deleted = λ a w stderr e. rw ((text_eq_iff a a).1 refl) refl;
  gone_before = λ a w stderr e ignored. absurd (cc e);
  add_keeps = λ a b w h. elim (Bool-cases (text_eq b a)) [ inl e ↦ rw e refl | inr e ↦ rw e h ];
  del_keeps = λ a b w h. elim (Bool-cases (text_eq b a)) [ inl e ↦ rw e refl | inr e ↦ rw e h ];
  others_keep = λ b c w ne. (λ h. holds-other b c w ne ∙ h, λ h. holds-other b c w ne ∙ h);
}

applied : (apply exec (λ t. none) manager remove []).0 ≡ ok tt
unfolding apply run_address_command is_blank address_result
applied = refl

apply-reaches_example :
    All
      (λ a. holds a (apply exec (λ t. none) manager remove []).1 ≡ false)
      (codes "10.0.0.9/24" ∷ [])
apply-reaches_example =
    apply-reaches exec manager (λ a w. holds a w ≡ true) (λ a w. holds a w ≡ false) (λ t. none)
      remove [] manager-IsIp (λ e. ground arith) (λ e. ground arith) applied

-- A system in which `bind` finds the address in use so often.
abbrev exec_call : Call → ℕ → Option ErrorKind × ℕ
exec_call (bind_to a) (suc n) = (some addr_in_use, n)
exec_call _ n = (none, n)

busy :
    (i : ℕ)
    → i < 1
    → (bind_udp_socket exec_call
        (λ w. (ok peer_addr, w))
        (λ t w. w)
        ipv6
        peer_addr
        (some false)
        (before exec_call
          (λ w. (ok peer_addr, w))
          (λ t w. w)
          (bind_udp_socket exec_call
            (λ w. (ok peer_addr, w))
            (λ t w. w)
            ipv6
            peer_addr
            (some false))
          i
          1)).0
      ≡ some addr_in_use
unfolding before bind_udp_socket
busy zero lt = refl
busy (suc i) lt = absurd (omega arith)

bind_udp_socket_with_retry_lem_example :
    bind_udp_socket_with_retry exec_call
      (λ w. (ok peer_addr, w))
      (λ t w. w)
      ipv6
      peer_addr
      (some false)
      1
    ≡ bind_udp_socket exec_call (λ w. (ok peer_addr, w)) (λ t w. w) ipv6 peer_addr (some false) 0
unfolding before bind_udp_socket
bind_udp_socket_with_retry_lem_example =
    bind_udp_socket_with_retry_lem exec_call (λ w. (ok peer_addr, w)) (λ t w. w) ipv6 peer_addr
      (some false) 1 1 (omega arith) (λ i lt. busy i lt) (inl tt)

abbrev hooks_b : HaHooks
hooks_b = record {
  on_promote = some (codes "/bin/up");
  on_demote = none;
  on_backup = none;
  on_fault = none;
  timeout_ms = 100;
}

-- A system in which every hook succeeds.
abbrev exec_within : ℕ → Command → ℕ → Option Exit × ℕ
exec_within limit c w = (some (exited true []), w)

abbrev node_b_hooks : HaRuntimeConfig
node_b_hooks = record node_a { hooks = hooks_b }

-- The node waited for a peer in vain, and becomes active.
abbrev expired : HaLoopState
expired = record (initial_state node_b_hooks 0 0) { state = standby }
