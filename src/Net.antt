-- ===== src/Net.antt =====
-- `std::net` addresses and their display, as src/gruezi/ha.rs and src/gruezi/net.rs use them.
use gruezi.Base.{
  ℕ, ◌+◌, ◌-◌, ◌/◌, ◌%◌, Bool, true, false, ◌&&◌, List, [], ◌∷◌, ◌++◌, ltb, ◌==◌, if◌then◌else◌,
  take, drop,
}
use gruezi.Text.{Text, codes}
use gruezi.Text.Decimal.{display}

pub data IpAddr : Type 0 where
  v4 : ℕ → ℕ → ℕ → ℕ → IpAddr
  -- The eight segments, each a u16.
  v6 : List ℕ → IpAddr

pub record SocketAddr : Type 0 where
  pub ip : IpAddr
  pub port : ℕ

-- `IpAddr::is_ipv6`
unfoldable pub is_ipv6 : IpAddr → Bool
is_ipv6 (v4 a b c d) = false
is_ipv6 (v6 s) = true

display_v4 : ℕ → ℕ → ℕ → ℕ → Text
display_v4 a b c d = display a ++ (b'.' ∷ (display b ++ (b'.' ∷ (display c ++ (b'.' ∷ display d)))))

hex_digit : ℕ → ℕ
hex_digit n = if ltb n 10 then b'0' + n else b'a' + (n - 10)

-- `{:x}` of a u16
display_hex : ℕ → Text
unfolding hex_digit
display_hex n =
    if ltb n 16
    then hex_digit n ∷ []
    else if ltb n 256
    then hex_digit (n / 16) ∷ hex_digit (n % 16) ∷ []
    else if ltb n 4096
    then hex_digit (n / 256) ∷ hex_digit (n / 16 % 16) ∷ hex_digit (n % 16) ∷ []
    else hex_digit (n / 4096)
      ∷ hex_digit (n / 256 % 16)
      ∷ hex_digit (n / 16 % 16)
      ∷ hex_digit (n % 16)
      ∷ []

-- `fmt_subslice`: segments joined by colons
join_segments : List ℕ → Text
unfolding display_hex
join_segments [] = []
join_segments (s ∷ []) = display_hex s
join_segments (s ∷ t ∷ ts) = display_hex s ++ (b':' ∷ join_segments (t ∷ ts))

-- A run of zero segments: where it starts, and its length.
pub record Span : Type 0 where
  pub start : ℕ
  pub size : ℕ

abbrev longer : Span → Span → Span
longer longest current = if ltb longest.size current.size then current else longest

longest_zeros : ℕ → Span → Span → List ℕ → Span
longest_zeros i longest current [] = longest
longest_zeros i longest current (s ∷ ss) =
    let current' : Span =
      if s == 0
      then record {
        start = if current.size == 0 then i else current.start;
        size = current.size + 1;
      }
      else record { start = 0; size = 0 } in
    longest_zeros (i + 1) (longer longest current') current' ss

compress : List ℕ → Span → Text
unfolding join_segments
compress ss z =
    if ltb 1 z.size
    then join_segments (take z.start ss)
      ++ (codes "::" ++ join_segments (drop (z.start + z.size) ss))
    else join_segments ss

-- An IPv4-mapped address shows its last two segments as an IPv4 address.
display_v6 : List ℕ → Text
unfolding compress longest_zeros display_v4
display_v6 (a ∷ b ∷ c ∷ d ∷ e ∷ f ∷ g ∷ h ∷ []) =
    if (a + b + c + d + e) == 0 && f == 0xffff
    then codes "::ffff:" ++ display_v4 (g / 256) (g % 256) (h / 256) (h % 256)
    else let ss = a ∷ b ∷ c ∷ d ∷ e ∷ f ∷ g ∷ h ∷ [] in
      compress ss
        (longest_zeros 0 (record { start = 0; size = 0 }) (record { start = 0; size = 0 }) ss)
display_v6 ss = join_segments ss

-- `impl Display for IpAddr`
unfoldable pub display_ip : IpAddr → Text
unfolding display_v4 display_v6
display_ip (v4 a b c d) = display_v4 a b c d
display_ip (v6 ss) = display_v6 ss

-- `format_socket_addr`, in src/gruezi/net.rs and src/gruezi/ha.rs
unfoldable pub format_socket_addr : SocketAddr → Text
unfolding is_ipv6 display_ip display
format_socket_addr addr =
    if is_ipv6 addr.ip
    then b'[' ∷ (display_ip addr.ip ++ (b']' ∷ b':' ∷ display addr.port))
    else display_ip addr.ip ++ (b':' ∷ display addr.port)

-- `impl Display for SocketAddr` writes the same text, for an address without a scope.
unfoldable pub display_socket_addr : SocketAddr → Text
unfolding format_socket_addr
display_socket_addr addr = format_socket_addr addr
