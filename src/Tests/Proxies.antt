-- ===== src/Tests/Proxies.antt =====
-- The proxy's table of sockets at concrete inputs.
use xtracepp.Base.{
  ℕ, ◌≡◌, refl, inl, true, List, [], ◌∷◌, arith, get_elem?, some, ok, aborted, find, erase,
  if◌then◌else◌, ◌==◌, sub_size,
}
use mathlib.Core.Option.{map}
use xtracepp.Buffer.{SocketBuffer, unknown_sz, unparsed, size}
use xtracepp.Buffer.Wellformed.{IsValid}
use xtracepp.Session.{new_connection}
use xtracepp.Proxy.{
  ProxyX11Server, Proxied, Pollfd, pollnone, pollfd_of, add_socket_to_poll, update_connection,
  update_poll_flags, close_connections,
}
use xtracepp.Proxy.Table.{IsIndexed, pollfd_of_known, add_socket_to_poll_lem}
use xtracepp.Proxy.Closing.{closing, without, close_connections_lem}
use xtracepp.Proxy.Updates.{update_poll_flags_lem}
use xtracepp.Proxy.Flags.{IsPolled, wanted, polling, update_connection_lem}

abbrev pub drained : SocketBuffer
drained = record {
  storage = 0 ∷ 0 ∷ 0 ∷ 0 ∷ [];
  bytes_read = 0;
  bytes_parsed = 0;
  bytes_written = 0;
  next_message_sz = unknown_sz;
}

abbrev pub drained_valid : IsValid drained
drained_valid = record {
  parsed_within = omega arith;
  stored = omega arith;
  bounded = omega arith;
  message_bounded = omega arith;
  reset = λ e. refl;
}

abbrev pub proxied : Proxied
proxied = record {
  conn = record (new_connection 0).0 { client_fd = some 5; server_fd = some 6 };
  client_buffer = drained;
  server_buffer = drained;
}

abbrev pub pollfd : ℕ → Pollfd
pollfd fd = record { fd = fd; events = pollnone; revents = pollnone }

abbrev pub serving : ProxyX11Server
serving = record {
  pfds = pollfd 3 ∷ pollfd 5 ∷ pollfd 6 ∷ [];
  pfds_i_by_fd = (3, 0) ∷ (5, 1) ∷ (6, 2) ∷ [];
  connections = (0, proxied) ∷ [];
  listener_fd = 3;
}

abbrev pub serving_IsIndexed : IsIndexed serving
serving_IsIndexed = ((pollfd 3, refl, refl), ((pollfd 5, refl, refl), ((pollfd 6, refl, refl), tt)))

pub polled : IsPolled serving.pfds_i_by_fd proxied
unfolding find unparsed size sub_size
polled = record {
  client_fd = 5;
  server_fd = 6;
  i = 1;
  j = 2;
  client_open = refl;
  server_open = refl;
  client_at = refl;
  server_at = refl;
  apart = refl;
  client_valid = drained_valid;
  server_valid = drained_valid;
  client_settled = inl refl;
  server_settled = inl refl;
}

pollfd_of_known_example : (p : Pollfd) × (pollfd_of serving 5 ≡ ok p) × (p.fd ≡ 5)
unfolding find
pollfd_of_known_example = pollfd_of_known serving 5 1 serving_IsIndexed refl

add_socket_to_poll_lem_example :
    (t : ProxyX11Server) × (add_socket_to_poll serving 4 pollnone ≡ ok t)
    × IsIndexed t
    × (t.connections ≡ serving.connections)
    × ((j : ℕ)
        → pollfd_of t j ≡ (
            if 4 == j
            then ok (record { fd = 4; events = pollnone; revents = pollnone })
            else pollfd_of serving j))
unfolding find
add_socket_to_poll_lem_example = add_socket_to_poll_lem serving 4 pollnone serving_IsIndexed refl

close_connections_lem_example :
    (t : ProxyX11Server) × (close_connections (λ fd. true) serving (0 ∷ []) ≡ ok t)
    × IsIndexed t
    × (t.connections ≡ without (0 ∷ []) serving.connections)
    × ((j : ℕ)
        → pollfd_of t j
          ≡ (if closing serving.connections (0 ∷ []) j then aborted else pollfd_of serving j))
unfolding find closing erase new_connection
close_connections_lem_example =
    close_connections_lem (λ fd. true) (λ fd. refl) serving (0 ∷ []) 0 serving_IsIndexed
      ((proxied, refl), tt) refl refl

update_connection_lem_example :
    (qs : List Pollfd) × (update_connection serving.pfds_i_by_fd serving.pfds proxied ≡ ok qs)
    × ((k : ℕ)
        → get_elem? qs k ≡ (
            if polled.i == k
            then map (polling (wanted drained drained)) (get_elem? serving.pfds k)
            else if polled.j == k
            then map (polling (wanted drained drained)) (get_elem? serving.pfds k)
            else get_elem? serving.pfds k))
update_connection_lem_example =
    update_connection_lem serving.pfds_i_by_fd serving.pfds proxied serving_IsIndexed polled

update_poll_flags_lem_example :
    (t : ProxyX11Server) × (update_poll_flags serving ≡ ok t)
    × IsIndexed t
    × (t.pfds_i_by_fd ≡ serving.pfds_i_by_fd)
    × ((fd : ℕ) (p : Pollfd)
        → pollfd_of serving fd ≡ ok p
        → (q : Pollfd) × (pollfd_of t fd ≡ ok q) × (q.fd ≡ p.fd) × (q.revents ≡ p.revents))
update_poll_flags_lem_example = update_poll_flags_lem serving serving_IsIndexed (polled, tt)
