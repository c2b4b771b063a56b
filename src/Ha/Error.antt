-- ===== src/Ha/Error.antt =====
-- The `anyhow` errors of src/gruezi/ha.rs with the text that they display, the kinds of
-- `std::io::Error`, and the tests that the loop makes of an error.
use gruezi.Base.{ℕ, Bool, true, false, Option, none, some, ◌++◌}
use gruezi.Net.{SocketAddr, display_socket_addr}
use gruezi.Text.{Text, codes, contains}
use gruezi.Text.Decimal.{display}
use gruezi.Text.Utf8.{Utf8Error}

-- `std::io::ErrorKind`; `other` stands for all the kinds that the code does not name.
pub data ErrorKind : Type 0 where
  permission_denied host_unreachable network_unreachable : ErrorKind
  connection_refused connection_reset broken_pipe io_timed_out : ErrorKind
  addr_in_use : ErrorKind
  other : ℕ → ErrorKind

-- The two fields that `validate_packet_field` is called for.
pub data Field : Type 0 where
  node_id_field group_id_field : Field

pub data Error : Type 0 where
  empty_field : Field → Error
  long_field : Field → ℕ → Error
  long_auth_tag : ℕ → Error
  invalid_magic truncated trailing_bytes : Error
  invalid_state : ℕ → Error
  not_utf8 : Utf8Error → Error
  wrong_version : ℕ → SocketAddr → Error
  wrong_group : Text → Error
  duplicate_node_id authentication_failed : Error
  long_interval invalid_length : Error
  send_failed : SocketAddr → ErrorKind → Error
  receive_failed : ErrorKind → Error

abbrev field_name : Field → Text
field_name node_id_field = codes "node_id"
field_name group_id_field = codes "group_id"

-- `impl Display for Utf8Error`
display_utf8_error : Option ℕ → ℕ → Text
display_utf8_error none i = codes "incomplete utf-8 byte sequence from index " ++ display i
display_utf8_error (some n) i =
    codes "invalid utf-8 sequence of " ++ (display n ++ (codes " bytes from index " ++ display i))

-- `Error::to_string`: the message, or the outermost context.
unfoldable pub to_string : Error → Text
unfolding display_utf8_error
to_string (empty_field f) = field_name f ++ codes " cannot be empty"
to_string (long_field f n) = field_name f ++ (codes " exceeds " ++ (display n ++ codes " bytes"))
to_string (long_auth_tag n) = codes "auth_tag exceeds " ++ (display n ++ codes " bytes")
to_string invalid_magic = codes "invalid packet magic"
to_string truncated = codes "packet is truncated"
to_string trailing_bytes = codes "packet has trailing bytes"
to_string (invalid_state n) = codes "invalid HA state value " ++ display n
to_string (not_utf8 e) = display_utf8_error e.error_len e.valid_up_to
to_string (wrong_version v from) =
    codes "unexpected HA protocol version "
    ++ (display v ++ (codes " from " ++ display_socket_addr from))
to_string (wrong_group g) = codes "unexpected HA group " ++ g
to_string duplicate_node_id = codes "received HA packet with duplicate node.id"
to_string authentication_failed = codes "HA packet authentication failed"
to_string long_interval = codes "HA advert interval exceeds u32"
to_string invalid_length = codes "received invalid HA payload length"
to_string (send_failed peer k) = codes "failed to send HA packet to " ++ display_socket_addr peer
to_string (receive_failed k) = codes "failed to receive HA packet"

-- `is_auth_failure`
unfoldable pub is_auth_failure : Error → Bool
unfolding to_string contains
is_auth_failure e = contains (to_string e) (codes "authentication failed")

-- `is_duplicate_node_id_failure`
unfoldable pub is_duplicate_node_id_failure : Error → Bool
unfolding to_string contains
is_duplicate_node_id_failure e = contains (to_string e) (codes "duplicate node.id")

-- `is_transient_io_error`
unfoldable pub is_transient_io_error : ErrorKind → Bool
is_transient_io_error permission_denied = true
is_transient_io_error host_unreachable = true
is_transient_io_error network_unreachable = true
is_transient_io_error connection_refused = true
is_transient_io_error connection_reset = true
is_transient_io_error broken_pipe = true
is_transient_io_error io_timed_out = true
is_transient_io_error addr_in_use = false
is_transient_io_error (other n) = false

-- `is_transient_send_failure`: an I/O error in the chain of causes.
unfoldable pub is_transient_send_failure : Error → Bool
unfolding is_transient_io_error
is_transient_send_failure (send_failed peer k) = is_transient_io_error k
is_transient_send_failure (receive_failed k) = is_transient_io_error k
is_transient_send_failure _ = false
