-- ===== src/Proxy/Polling/Opening.antt =====
-- src/ProxyX11Server.cpp: `_openConnection`, and the connections that stay polled while the table
-- changes.
use xtracepp.Base.{
  ℕ, ◌≡◌, sym, ap, ◌∙◌, inl, inr, false, arith, ◌==◌, Bool-cases, Option-cases, ==_iff, get_elem?,
  some, ok, find,
}
use xtracepp.Session.{new_connection}
use xtracepp.Proxy.{ProxyX11Server, Proxied, Pollfd, pollnone, pollfd_of}
use xtracepp.Proxy.Table.{IsIndexed, find-PointsAt, pollfd_of_known}
use xtracepp.Proxy.Flags.{IsPolled}
use xtracepp.Proxy.Polling.{Sockets, opened}

-- A descriptor that has a `pollfd` is in the map.
known_pollfd_of :
    (s : ProxyX11Server) (fd : ℕ) (p : Pollfd)
    → pollfd_of s fd ≡ ok p
    → (i : ℕ) × (find fd s.pfds_i_by_fd ≡ some i)
unfolding pollfd_of
known_pollfd_of s fd p e = elim (Option-cases (find fd s.pfds_i_by_fd)) [
  | inl gone ↦ cc (rw gone at e)
  | inr found ↦ found
]

-- Two descriptors that differ stand at two places.
places_apart :
    (s : ProxyX11Server) (a b i j : ℕ)
    → IsIndexed s
    → find a s.pfds_i_by_fd ≡ some i
    → find b s.pfds_i_by_fd ≡ some j
    → (a == b) ≡ false
    → (i == j) ≡ false
places_apart s a b i j indexed at_a at_b differ =
    let (p, at_i, p_fd) = find-PointsAt s.pfds s.pfds_i_by_fd a i indexed at_a in
    let (q, at_j, q_fd) = find-PointsAt s.pfds s.pfds_i_by_fd b j indexed at_b in
    elim (Bool-cases (i == j)) [
      | inr apart ↦ apart
      | inl same ↦
          let place : i ≡ j = (==_iff i j).0 same in
          let one : some p ≡ some q = sym at_i ∙ ap (get_elem? s.pfds) place ∙ at_j in
          let equal : p ≡ q = cc in
          let fds : a ≡ b = sym p_fd ∙ ap (λ (t : Pollfd). t.fd) equal ∙ q_fd in
          ground (arith, fds, differ)
    ]

-- A connection stays polled in a table that answers the same for its sockets.
pub IsPolled-kept :
    (s u : ProxyX11Server) (c : Proxied)
    → IsIndexed s
    → IsIndexed u
    → (h : IsPolled s.pfds_i_by_fd c) → pollfd_of u h.client_fd ≡ pollfd_of s h.client_fd
    → pollfd_of u h.server_fd ≡ pollfd_of s h.server_fd
    → IsPolled u.pfds_i_by_fd c
IsPolled-kept s u c before after h client server =
    let (p, at_client, _) = pollfd_of_known s h.client_fd h.i before h.client_at in
    let (q, at_server, _) = pollfd_of_known s h.server_fd h.j before h.server_at in
    let (i, found) = known_pollfd_of u h.client_fd p (client ∙ at_client) in
    let (j, found') = known_pollfd_of u h.server_fd q (server ∙ at_server) in
    let differ : (h.client_fd == h.server_fd) ≡ false =
      elim (Bool-cases (h.client_fd == h.server_fd)) [
        | inr differ ↦ differ
        | inl same ↦
            let fds : h.client_fd ≡ h.server_fd = (==_iff h.client_fd h.server_fd).0 same in
            let one : some h.i ≡ some h.j =
              sym h.client_at ∙ ap (λ (t : ℕ). find t s.pfds_i_by_fd) fds ∙ h.server_at in
            let places : h.i ≡ h.j = cc in absurd (ground (arith, places, h.apart))
      ] in
    record {
      client_fd = h.client_fd;
      server_fd = h.server_fd;
      i = i;
      j = j;
      client_open = h.client_open;
      server_open = h.server_open;
      client_at = found;
      server_at = found';
      apart = places_apart u h.client_fd h.server_fd i j after found found' differ;
      client_valid = h.client_valid;
      server_valid = h.server_valid;
      client_settled = h.client_settled;
      server_settled = h.server_settled;
    }

abbrev idle : ℕ → Pollfd
idle fd = record { fd = fd; events = pollnone; revents = pollnone }

module _ (sockets : Sockets) (s : ProxyX11Server) (id client_fd server_fd : ℕ) where
  abbrev pub newcomer : Proxied
  newcomer = opened (record (new_connection id).0 { client_fd = some client_fd }) server_fd
