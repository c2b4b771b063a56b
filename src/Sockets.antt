-- ===== src/Sockets.antt =====
-- How sockets are bound: `bind_tcp_listener` of src/gruezi/net.rs and `bind_ha_socket` of
-- src/gruezi/ha.rs. The operating system, with socket2 and Tokio above it, is the argument `exec`
-- over its states `W`: what one call on the socket in hand gives, an error or none. `local_addr`
-- is the address of the socket bound last, `sleep` waits, and the parsers are the library's.
pub mod Retry
use gruezi.Base.{
  ℕ, zero, suc, ◌-◌, ◌≡◌, ◌&&◌, ◌==◌, Bool, true, false, Option, none, some, List, [], ◌∷◌, ◌++◌,
  if◌then◌else◌,
}
use gruezi.Base.Duration.{from_millis}
use gruezi.Base.Result.{Result, ok, err}
use gruezi.Net.{IpAddr, v4, v6, SocketAddr, is_ipv6, format_socket_addr}
use gruezi.Text.{Text}
use gruezi.Ha.Error.{ErrorKind, addr_in_use}

pub data Domain : Type 0 where
  ipv4 ipv6 : Domain

pub data Call : Type 0 where
  new_stream new_dgram : Domain → Call
  set_reuse_address set_nonblocking : Call
  set_only_v6 : Bool → Call
  bind_to : SocketAddr → Call
  listen_with : ℕ → Call
  -- `UdpSocket::from_std` and `TcpListener::from_std`
  from_std : Call
  -- `TcpListener::bind` of Tokio
  tokio_bind : SocketAddr → Call

pub data BindError : Type 0 where
  invalid_address : Text → BindError
  io : ErrorKind → BindError

only_v6_calls : Option Bool → List Call
only_v6_calls none = []
only_v6_calls (some b) = set_only_v6 b ∷ []

-- The calls of `bind_udp_socket`, each followed by `?`.
unfoldable pub udp_calls : Domain → SocketAddr → Option Bool → List Call
unfolding only_v6_calls
udp_calls domain socket_addr only_v6 =
    new_dgram domain
    ∷ set_reuse_address
    ∷ (only_v6_calls only_v6 ++ (bind_to socket_addr ∷ set_nonblocking ∷ from_std ∷ []))

-- The calls of `bind_socket_listener`.
unfoldable pub listener_calls : Domain → SocketAddr → Option Bool → List Call
unfolding only_v6_calls
listener_calls domain socket_addr only_v6 =
    new_stream domain
    ∷ set_reuse_address
    ∷ (only_v6_calls only_v6
        ++ (bind_to socket_addr ∷ listen_with 1_024 ∷ set_nonblocking ∷ from_std ∷ []))

-- `MAX_ATTEMPTS` and `BACKOFF`
abbrev pub max_attempts : ℕ
max_attempts = 20

abbrev pub backoff : ℕ
backoff = from_millis 25

-- `[0; 8]` and `[0; 4]`
abbrev pub unspecified_v6 : ℕ → SocketAddr
unspecified_v6 port = record { ip = v6 (0 ∷ 0 ∷ 0 ∷ 0 ∷ 0 ∷ 0 ∷ 0 ∷ 0 ∷ []); port = port }

abbrev pub unspecified_v4 : ℕ → SocketAddr
unspecified_v4 port = record { ip = v4 0 0 0 0; port = port }

abbrev pub is_in_use : ErrorKind → Bool
is_in_use addr_in_use = true
is_in_use _ = false

-- `is_unspecified() && is_ipv4()`
abbrev pub is_any_v4 : IpAddr → Bool
is_any_v4 (v4 a b c d) = a == 0 && b == 0 && c == 0 && d == 0
is_any_v4 (v6 s) = false

-- Goes on only if there was no error.
abbrev pub on_none : {W A : Type 0} → Option ErrorKind × W → (W → A) → (ErrorKind → W → A) → A
on_none (none, w) next failed = next w
on_none (some k, w) next failed = failed k w

module _ {W : Type 0} (exec : Call → W → Option ErrorKind × W)
    (local_addr : W → Result ErrorKind SocketAddr × W) (sleep : ℕ → W → W) where
  -- Calls in sequence, up to the first that fails.
  unfoldable pub run_calls : List Call → W → Option ErrorKind × W
  run_calls [] w = (none, w)
  run_calls (c ∷ cs) w = on_none (exec c w) (λ w'. run_calls cs w') (λ k w'. (some k, w'))

  -- `bind_udp_socket`
  unfoldable pub bind_udp_socket : Domain → SocketAddr → Option Bool → W → Option ErrorKind × W
  unfolding run_calls udp_calls
  bind_udp_socket domain socket_addr only_v6 w = run_calls (udp_calls domain socket_addr only_v6) w

  -- The loop of `bind_udp_socket_with_retry`, over what one attempt gives, with the number of
  -- attempts that may follow this one.
  unfoldable pub retry : (W → Option ErrorKind × W) → ℕ → W → Option ErrorKind × W
  retry attempt zero w = attempt w
  retry attempt (suc left) w =
      on_none (attempt w) (λ w'. (none, w'))
        (λ k w'. if is_in_use k then retry attempt left (sleep backoff w') else (some k, w'))

  -- `bind_udp_socket_with_retry`
  unfoldable pub bind_udp_socket_with_retry :
      Domain → SocketAddr → Option Bool → W → Option ErrorKind × W
  unfolding retry bind_udp_socket
  bind_udp_socket_with_retry domain socket_addr only_v6 w =
      retry (bind_udp_socket domain socket_addr only_v6) (max_attempts - 1) w

  -- The text of the address of a socket that was bound.
  unfoldable pub displayed : Result ErrorKind SocketAddr × W → Result BindError Text × W
  displayed (ok a, w) = (ok (format_socket_addr a), w)
  displayed (err k, w) = (err (io k), w)

  -- A socket for one stack.
  unfoldable pub bind_one_stack : SocketAddr → W → Result BindError Text × W
  unfolding bind_udp_socket_with_retry displayed
  bind_one_stack addr w =
      on_none
        (bind_udp_socket_with_retry (if is_ipv6 addr.ip then ipv6 else ipv4) addr
          (if is_ipv6 addr.ip then some true else none) w)
        (λ w'. displayed (local_addr w')) (λ k w'. (err (io k), w'))

  bind_parsed : Text → Option SocketAddr → W → Result BindError Text × W
  unfolding bind_one_stack
  bind_parsed bind none w = (err (invalid_address bind), w)
  bind_parsed bind (some addr) w =
      if is_any_v4 addr.ip
      then on_none (bind_udp_socket_with_retry ipv6 (unspecified_v6 addr.port) (some false) w)
          (λ w'. displayed (local_addr w')) (λ k w'. bind_one_stack addr w')
      else bind_one_stack addr w

  -- `bind_ha_socket`; the result is the text of the local address.
  unfoldable pub bind_ha_socket : (Text → Option SocketAddr) → Text → W → Result BindError Text × W
  unfolding bind_parsed
  bind_ha_socket parse_socket_addr bind w = bind_parsed bind (parse_socket_addr bind) w

  -- `bind_socket_listener`
  unfoldable pub bind_socket_listener : Domain → SocketAddr → Option Bool → W → Option ErrorKind × W
  unfolding listener_calls
  bind_socket_listener domain socket_addr only_v6 w =
      run_calls (listener_calls domain socket_addr only_v6) w

  -- `bind_dual_stack_listener`
  unfoldable pub bind_dual_stack_listener : ℕ → W → Option ErrorKind × W
  unfolding bind_socket_listener
  bind_dual_stack_listener port w = bind_socket_listener ipv6 (unspecified_v6 port) (some false) w

  -- `bind_explicit_listener`
  unfoldable pub bind_explicit_listener : IpAddr → ℕ → W → Result BindError Text × W
  unfolding bind_socket_listener displayed
  bind_explicit_listener ip port w =
      on_none
        (bind_socket_listener (if is_ipv6 ip then ipv6 else ipv4) (record { ip = ip; port = port })
          (if is_ipv6 ip then some true else none) w)
        (λ w'. displayed (local_addr w')) (λ k w'. (err (io k), w'))

  listen_on : ℕ → Text → Option IpAddr → W → Result BindError Text × W
  unfolding bind_explicit_listener
  listen_on port addr none w = (err (invalid_address addr), w)
  listen_on port addr (some ip) w = bind_explicit_listener ip port w

  -- `bind_tcp_listener`; the result is the text of the local address.
  unfoldable pub bind_tcp_listener :
      (Text → Option IpAddr) → ℕ → Option Text → W → Result BindError Text × W
  unfolding listen_on bind_dual_stack_listener
  bind_tcp_listener parse_ip port (some addr) w = listen_on port addr (parse_ip addr) w
  bind_tcp_listener parse_ip port none w =
      on_none (bind_dual_stack_listener port w) (λ w'. displayed (local_addr w'))
        (λ k w'.
          on_none (exec (tokio_bind (unspecified_v4 port)) w') (λ w''. displayed (local_addr w''))
            (λ k' w''. (err (io k'), w'')))
