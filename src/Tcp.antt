-- ===== src/Tcp.antt =====
-- The reassembly of command responses from the TCP stream (crates/franka-rs/src/network/tcp.rs).
-- The bytes that the peer has still to deliver are a list; a read says how many of them the socket
-- gave, at most the length of its buffer.

pub mod Reassembly
pub mod Passes
pub mod Claims
pub mod Replies
pub mod Framing
use Prim.Native.String.{String}
use franka_rs.Common.{
  ◌+◌, ◌%◌, ◌^◌, map_err, ◌>>=◌, ℕ, ◌+◌, ◌-◌, ◌*◌, min, Bool, true, false, ◌||◌, Option, none, some,
  List, [], ◌∷◌, ◌++◌, length, take, drop, Result, ok, err, ltb, ◌==◌, if◌then◌else◌,
}
use franka_rs.Wire.{HeaderLayout, header_len, encode_header, decode_header}

-- `MAX_TCP_MESSAGE_SIZE`
abbrev pub max_tcp_message_size : ℕ
max_tcp_message_size = 16 * 1024 * 1024

-- `FrankaError`, as `read_from_buffer` returns it; `header_expected` stands for the panic of its
-- `expect`.
pub data TcpError : Type 0 where
  interrupted server_closed incorrect_size header_expected : TcpError
  receive_failed send_failed : String → TcpError

-- `Demux`; `received` is a map from command ids to messages.
pub record Demux : Type 0 where
  pub received : List (ℕ × List ℕ)
  pub pending : List ℕ
  pub pending_len : Option ℕ
  pub pending_id : ℕ

-- What the socket says to one pass: the poll found an error, nothing is there yet, `recv` failed,
-- or it gave that many bytes.
pub data Reading : Type 0 where
  poll_error would_block : Reading
  failed : String → Reading
  arrived : ℕ → Reading

-- `send_request`: the request's id, the bytes that are written, and the next id, of 32 bits;
-- `written` is what the socket says of the bytes.
unfoldable pub send_request :
    HeaderLayout → ℕ → List ℕ → Result String (Unit {0}) → ℕ → Result TcpError ℕ × List ℕ × ℕ
send_request layout command payload written command_id =
    let message = encode_header layout command command_id (length payload) ++ payload in
    (map_err send_failed written >>= λ _. ok command_id, message, (command_id + 1) % 2 ^ 32)

-- `HashMap::remove`, the value apart, `insert` and `get`
unfoldable pub map_remove : ℕ → List (ℕ × List ℕ) → List (ℕ × List ℕ)
map_remove id [] = []
map_remove id ((key, message) ∷ entries) =
    let rest = map_remove id entries in if id == key then rest else (key, message) ∷ rest

unfoldable pub map_insert : ℕ → List ℕ → List (ℕ × List ℕ) → List (ℕ × List ℕ)
map_insert id message entries = (id, message) ∷ map_remove id entries

unfoldable pub map_get : ℕ → List (ℕ × List ℕ) → Option (List ℕ)
map_get id [] = none
map_get id ((key, message) ∷ entries) =
    let rest = map_get id entries in if id == key then some message else rest

-- `state.received.remove(&command_id)`, of the two receive functions
unfoldable pub claim : ℕ → Demux → Option (List ℕ) × Demux
claim id d = (map_get id d.received, record d { received = map_remove id d.received })

-- `pending_len.unwrap_or(header_len)`
unfoldable pub target_len : Option ℕ → ℕ → ℕ
target_len none len = len
target_len (some n) len = n

-- `Some(state.pending.len()) == state.pending_len`: the message is complete.
unfoldable pub file_in : Option ℕ → Demux → Demux
file_in none d = d
file_in (some n) d =
    if length d.pending == n
    then record {
      received = map_insert d.pending_id d.pending d.received;
      pending = [];
      pending_len = none;
      pending_id = 0;
    }
    else d

unfoldable pub file_complete : Demux → Demux
file_complete d = file_in d.pending_len d

unfoldable pub on_header :
    HeaderLayout → Option (ℕ × ℕ × ℕ) → Demux → Result TcpError (Unit {0}) × Demux
on_header layout none d = (err header_expected, d)
on_header layout (some (command, command_id, size)) d =
    if ltb size (header_len layout) || ltb max_tcp_message_size size
    then (err incorrect_size, record d { pending = [] })
    else (ok tt, file_complete (record d { pending_len = some size; pending_id = command_id }))

-- Behind the read: the header once it is there, then the whole message.
unfoldable pub digest_in : HeaderLayout → Option ℕ → Demux → Result TcpError (Unit {0}) × Demux
digest_in layout none d =
    if length d.pending == header_len layout
    then on_header layout (decode_header layout d.pending) d
    else (ok tt, d)
digest_in layout (some n) d = (ok tt, file_complete d)

unfoldable pub digest : HeaderLayout → Demux → Result TcpError (Unit {0}) × Demux
digest layout d = digest_in layout d.pending_len d

-- The bytes still missing from the header or the message.
unfoldable pub missing : HeaderLayout → Demux → ℕ
missing layout d = target_len d.pending_len (header_len layout) - length d.pending

-- `read_from_buffer`
unfoldable pub read_from_buffer :
    HeaderLayout → Reading → List ℕ → Demux → Result TcpError (Unit {0}) × List ℕ × Demux
read_from_buffer layout poll_error stream d = (err interrupted, stream, d)
read_from_buffer layout would_block stream d = (ok tt, stream, d)
read_from_buffer layout (failed why) stream d = (err (receive_failed why), stream, d)
read_from_buffer layout (arrived n) stream d =
    let count = min n (missing layout d) in
    let read = take count stream in
    if length read == 0
    then (err server_closed, stream, d)
    else let (result, d') = digest layout (record d { pending = d.pending ++ read }) in
      (result, drop count stream, d')

-- The loop of `blocking_receive_response`, over what the socket says in each pass; `none` where it
-- is still waiting behind them.
unfoldable pub blocking_receive_response :
    HeaderLayout
    → ℕ
    → List Reading
    → List ℕ
    → Demux
    → Option (Result TcpError (List ℕ)) × List ℕ × Demux
blocking_receive_response layout id [] stream d = (none, stream, d)
blocking_receive_response layout id (reading ∷ readings) stream d =
    let (result, stream', d') = read_from_buffer layout reading stream d in
    let (claimed, d'') = claim id d' in
    let rest = blocking_receive_response layout id readings stream' d' in
    elim result [
      | err e ↦ (some (err e), stream', d')
      | ok _ ↦ elim claimed [ some message ↦ (some (ok message), stream', d'') | none ↦ rest ]
    ]

-- Passes one behind the other, up to the first error, with nothing claimed between them.
unfoldable pub passes :
    HeaderLayout → List Reading → List ℕ → Demux → Result TcpError (Unit {0}) × List ℕ × Demux
passes layout [] stream d = (ok tt, stream, d)
passes layout (reading ∷ readings) stream d =
    let (result, stream', d') = read_from_buffer layout reading stream d in
    let rest = passes layout readings stream' d' in
    elim result [ err e ↦ (err e, stream', d') | ok _ ↦ rest ]
