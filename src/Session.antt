-- ===== src/Session.antt =====
-- src/include/Connection.hpp and src/Connection.cpp: one client's connection to the X server.
-- A file descriptor is `none` where the class holds `_FD_CLOSED`; what `close` answers is an argument.
pub mod Requests
pub mod Extensions
pub mod Sides
use text.Mathlib.Text.{◌==◌ as str_eq}
use Prim.Native.String.{String}
use xtracepp.Base.{
  ℕ, ◌+◌, ◌%◌, ◌^◌, Bool, true, false, Option, none, some, List, [], ◌∷◌, ◌==◌, if◌then◌else◌,
  Outcome, ok, aborted, exited, find, emplace, erase,
}
use xtracepp.Buffer.{SocketBuffer, new_buffer}

pub record RequestOpcodes : Type 0 where
  pub major : ℕ
  pub minor : ℕ

pub data Status : Type 0 where
  unestablished open_ closed failed authentication : Status

pub record Connection : Type 0 where
  pub request_opcodes_by_seq_num : List (ℕ × RequestOpcodes)
  pub extensions : List (String × Bool)
  pub id : ℕ
  pub client_desc : String
  pub client_fd : Option ℕ
  pub server_fd : Option ℕ
  pub sequence : ℕ
  pub byteswap : Bool
  pub status : Status

abbrev pub big_requests_name : String
big_requests_name = "BIG-REQUESTS"

-- A new connection, and the next value of `_next_id`, which is a `uint32_t`.
unfoldable pub new_connection : ℕ → Connection × ℕ
new_connection next_id = (
  record {
    request_opcodes_by_seq_num = [];
    extensions = (big_requests_name, false) ∷ [];
    id = next_id;
    client_desc = "";
    client_fd = none;
    server_fd = none;
    sequence = 0;
    byteswap = false;
    status = unestablished;
  },
  (next_id + 1) % 2 ^ 32,
)

-- `++sequence` on a `uint16_t`.
unfoldable pub next_sequence : ℕ → ℕ
next_sequence s = (s + 1) % 2 ^ 16

unfoldable pub register_request : Connection → ℕ → ℕ → Connection × ℕ
unfolding next_sequence
register_request c major minor =
    let s = next_sequence c.sequence in
    (
      record c {
        sequence = s;
        request_opcodes_by_seq_num =
            emplace s (record { major = major; minor = minor }) c.request_opcodes_by_seq_num;
      },
      s,
    )

-- `.at( seq_num )`: an unknown number throws `std::out_of_range`, which nothing catches.
abbrev at_or_abort {ℓ} : {A : Type ℓ} → Option A → Outcome A
at_or_abort none = aborted
at_or_abort (some a) = ok a

unfoldable pub lookup_request : Connection → ℕ → Outcome RequestOpcodes
lookup_request c seq_num = at_or_abort (find seq_num c.request_opcodes_by_seq_num)

unfoldable pub unregister_request : Connection → ℕ → Connection
unregister_request c seq_num = record c {
  request_opcodes_by_seq_num = erase seq_num c.request_opcodes_by_seq_num;
}

-- `find`, then an assignment to the entry if there is one.
unfoldable pub set_toggle : String → Bool → List (String × Bool) → List (String × Bool)
set_toggle name on [] = []
set_toggle name on ((key, v) ∷ m) =
    if str_eq key name then (key, on) ∷ m else (key, v) ∷ set_toggle name on m

unfoldable pub toggle_of : String → List (String × Bool) → Bool
toggle_of name [] = false
toggle_of name ((key, v) ∷ m) = if str_eq key name then v else toggle_of name m

unfoldable pub enable_extension : Connection → String → Connection
unfolding set_toggle
enable_extension c name = record c { extensions = set_toggle name true c.extensions }

unfoldable pub disable_extension : Connection → String → Connection
unfolding set_toggle
disable_extension c name = record c { extensions = set_toggle name false c.extensions }

unfoldable pub extension_enabled : Connection → String → Bool
unfolding toggle_of
extension_enabled c name = toggle_of name c.extensions

abbrev is_none {ℓ} : {A : Type ℓ} → Option A → Bool
is_none none = true
is_none (some a) = false

unfoldable pub client_side_closed : Connection → Bool
client_side_closed c = is_none c.client_fd

unfoldable pub server_side_closed : Connection → Bool
server_side_closed c = is_none c.server_fd

-- `close` answers whether it worked; the process exits where it did not.
unfoldable pub close_client_side : Connection → Bool → Outcome Connection
unfolding client_side_closed
close_client_side c closes =
    if client_side_closed c
    then ok c
    else if closes
    then ok (record c { client_fd = none })
    else exited

unfoldable pub close_server_side : Connection → Bool → Outcome Connection
unfolding server_side_closed
close_server_side c closes =
    if server_side_closed c
    then ok c
    else if closes
    then ok (record c { server_fd = none })
    else exited
