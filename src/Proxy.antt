-- ===== src/Proxy.antt =====
-- src/ProxyX11Server.cpp and src/include/ProxyX11Server.hpp: the proxy's connections and its table of
-- polled sockets. `pfds` is the array that `poll` is handed, `pfds_i_by_fd` the place of each file
-- descriptor in it. `revents` is what `poll` answers.
pub mod Table
pub mod Reindex
pub mod Closing
pub mod Flags
pub mod Updates
pub mod Polling
pub mod Authority
use xtracepp.Base.{
  ℕ, zero, suc, ◌+◌, Bool, true, false, not, ◌||◌, List, [], ◌∷◌, ◌++◌, ltb, ◌==◌, if◌then◌else◌,
  length, get_elem?, Option, none, some, Outcome, ok, aborted, exited, require, ◌>>=◌, ◌>>◌, find,
  erase,
}
use xtracepp.Buffer.{SocketBuffer, read_ready, write_ready}
use xtracepp.Session.{Connection, close_client_side, close_server_side}

-- The bits of `pollfd::events` and `pollfd::revents` that the proxy sets or tests.
pub record PollFlags : Type 0 where
  pub pollin : Bool
  pub pollpri : Bool
  pub pollout : Bool
  pub pollerr : Bool
  pub pollnval : Bool

pub record Pollfd : Type 0 where
  pub fd : ℕ
  pub events : PollFlags
  pub revents : PollFlags

abbrev pub pollnone : PollFlags
pollnone = record {
  pollin = false;
  pollpri = false;
  pollout = false;
  pollerr = false;
  pollnval = false;
}

-- A `Connection` with its two buffers.
pub record Proxied : Type 0 where
  pub conn : Connection
  pub client_buffer : SocketBuffer
  pub server_buffer : SocketBuffer

pub record ProxyX11Server : Type 0 where
  pub pfds : List Pollfd
  pub pfds_i_by_fd : List (ℕ × ℕ)
  pub connections : List (ℕ × Proxied)
  pub listener_fd : ℕ

-- `at` of a vector or a map: out of range it throws, which nothing catches.
abbrev pub at_or_abort {ℓ} : {A : Type ℓ} → Option A → Outcome A
at_or_abort none = aborted
at_or_abort (some a) = ok a

-- `std::map::emplace`: the keys stay in order, and an entry that is there stays as it is.
unfoldable pub emplace_ordered : ℕ → ℕ → List (ℕ × ℕ) → List (ℕ × ℕ)
emplace_ordered k v [] = (k, v) ∷ []
emplace_ordered k v ((j, w) ∷ m) =
    if ltb k j
    then (k, v) ∷ (j, w) ∷ m
    else if j == k
    then (j, w) ∷ m
    else (j, w) ∷ emplace_ordered k v m

-- `_pfds.at( _pfds_i_by_fd.at( fd ) )`.
unfoldable pub pollfd_of : ProxyX11Server → ℕ → Outcome Pollfd
pollfd_of s fd = do i ← at_or_abort (find fd s.pfds_i_by_fd); at_or_abort (get_elem? s.pfds i)

unfoldable pub socket_read_ready : ProxyX11Server → ℕ → Outcome Bool
unfolding pollfd_of
socket_read_ready s fd = do pfd ← pollfd_of s fd; ok pfd.revents.pollin

unfoldable pub socket_write_ready : ProxyX11Server → ℕ → Outcome Bool
unfolding pollfd_of
socket_write_ready s fd = do pfd ← pollfd_of s fd; ok pfd.revents.pollout

pub data PollError : Type 0 where
  error_condition invalid_fd exceptional_condition : PollError

unfoldable pub socket_poll_error : ProxyX11Server → ℕ → Outcome (Option PollError)
unfolding pollfd_of
socket_poll_error s fd = do
  pfd ← pollfd_of s fd
  ok (
      if pfd.revents.pollerr
      then some error_condition
      else if pfd.revents.pollnval
      then some invalid_fd
      else if pfd.revents.pollpri
      then some exceptional_condition
      else none)

abbrev is_none {ℓ} : {A : Type ℓ} → Option A → Bool
is_none none = true
is_none (some a) = false

unfoldable pub add_socket_to_poll : ProxyX11Server → ℕ → PollFlags → Outcome ProxyX11Server
unfolding emplace_ordered
add_socket_to_poll s fd events = do
  require (is_none (find fd s.pfds_i_by_fd))
  ok (record s {
    pfds = s.pfds ++ record { fd = fd; events = events; revents = pollnone } ∷ [];
    pfds_i_by_fd = emplace_ordered fd (length s.pfds) s.pfds_i_by_fd;
  })

abbrev pub update_at {ℓ} : {A : Type ℓ} → ℕ → (A → A) → List A → List A
update_at i f [] = []
update_at zero f (x ∷ xs) = f x ∷ xs
update_at (suc i) f (x ∷ xs) = x ∷ update_at i f xs

abbrev pub only_pri : Pollfd → Pollfd
only_pri p = record p { events = record pollnone { pollpri = true } }

abbrev pub or_in : Pollfd → Pollfd
or_in p = record p { events = record p.events { pollin = true } }

abbrev pub or_out : Pollfd → Pollfd
or_out p = record p { events = record p.events { pollout = true } }

-- The body of the loop of `_updatePollFlags`.
unfoldable pub update_connection : List (ℕ × ℕ) → List Pollfd → Proxied → Outcome (List Pollfd)
unfolding read_ready write_ready
update_connection index pfds c = do
  client_fd ← at_or_abort c.conn.client_fd
  i ← at_or_abort (find client_fd index)
  client_pfd ← at_or_abort (get_elem? pfds i)
  server_fd ← at_or_abort c.conn.server_fd
  j ← at_or_abort (find server_fd index)
  server_pfd ← at_or_abort (get_elem? pfds j)
  let reset = update_at j only_pri (update_at i only_pri pfds)
  require (read_ready c.client_buffer || write_ready c.client_buffer)
  let upstream =
      if read_ready c.client_buffer then update_at i or_in reset else update_at j or_out reset
  require (read_ready c.server_buffer || write_ready c.server_buffer)
  ok (
      if read_ready c.server_buffer
      then update_at j or_in upstream
      else update_at i or_out upstream)

unfoldable pub update_connections :
    List (ℕ × ℕ) → List Pollfd → List (ℕ × Proxied) → Outcome (List Pollfd)
unfolding update_connection
update_connections index pfds [] = ok pfds
update_connections index pfds ((id, c) ∷ cs) = do
  pfds' ← update_connection index pfds c
  update_connections index pfds' cs

-- The connections are listed in the order in which the loop meets them.
unfoldable pub update_poll_flags : ProxyX11Server → Outcome ProxyX11Server
unfolding update_connections
update_poll_flags s = do
  pfds ← update_connections s.pfds_i_by_fd s.pfds s.connections
  ok (record s { pfds = pfds })

abbrev pub on_open : (ℕ → Bool) → Option ℕ → Bool
on_open closes none = true
on_open closes (some fd) = closes fd

-- A closed side has no entry in the map.
abbrev pub erase_fd : Option ℕ → List (ℕ × ℕ) → List (ℕ × ℕ)
erase_fd none m = m
erase_fd (some fd) m = erase fd m

-- The first loop of `_closeConnections`. `closes` answers whether `close` works on a descriptor.
unfoldable pub close_each : (ℕ → Bool) → ProxyX11Server → List ℕ → Outcome ProxyX11Server
close_each closes s [] = ok s
close_each closes s (id ∷ ids) = do
  c ← at_or_abort (find id s.connections)
  half ← close_client_side c.conn (on_open closes c.conn.client_fd)
  both ← close_server_side half (on_open closes half.server_fd)
  close_each closes
      (record s {
        pfds_i_by_fd = erase_fd half.server_fd (erase_fd c.conn.client_fd s.pfds_i_by_fd);
        connections = erase id s.connections;
      })
      ids

-- The second loop: the array is built again, in the order of the map.
unfoldable pub reindex : List Pollfd → List (ℕ × ℕ) → ℕ → Outcome (List Pollfd × List (ℕ × ℕ))
reindex pfds [] i = ok ([], [])
reindex pfds ((fd, pfds_i) ∷ m) i = do
  pfd ← at_or_abort (get_elem? pfds pfds_i)
  require (pfd.fd == fd)
  (new_pfds, new_m) ← reindex pfds m (i + 1)
  ok (pfd ∷ new_pfds, (fd, i) ∷ new_m)

unfoldable pub close_connections : (ℕ → Bool) → ProxyX11Server → List ℕ → Outcome ProxyX11Server
unfolding close_each reindex
close_connections closes s ids = do
  closed ← close_each closes s ids
  (new_pfds, new_m) ← reindex closed.pfds closed.pfds_i_by_fd 0
  require (ltb 0 (length new_m))
  ok (record closed { pfds = new_pfds; pfds_i_by_fd = new_m })
