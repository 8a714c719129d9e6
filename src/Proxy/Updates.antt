-- ===== src/Proxy/Updates.antt =====
-- src/ProxyX11Server.cpp: `_updatePollFlags` over all connections.
use mathlib.Core.Option.{map}
use xtracepp.Base.{
  ℕ, ◌≡◌, refl, ◌∙◌, Bool, true, false, List, [], ◌∷◌, ◌==◌, if◌then◌else◌, get_elem?, All, Option,
  none, some, ok, ◌>>=◌, find,
}
use xtracepp.Proxy.{
  ProxyX11Server, Proxied, Pollfd, pollfd_of, at_or_abort, update_connections, update_poll_flags,
}
use xtracepp.Proxy.Table.{PointsAt, IsIndexed}
use xtracepp.Proxy.Flags.{IsPolled, wanted, polling, update_connection_lem}

-- The descriptors and what `poll` answered for them stay in their places.
abbrev KeepsSockets : List Pollfd → List Pollfd → Type 0
KeepsSockets ps qs =
    (k : ℕ) (p : Pollfd)
    → get_elem? ps k ≡ some p
    → (q : Pollfd) × (get_elem? qs k ≡ some q) × (q.fd ≡ p.fd) × (q.revents ≡ p.revents)

update_connection-KeepsSockets :
    (index : List (ℕ × ℕ)) (ps qs : List Pollfd) (c : Proxied) (h : IsPolled index c)
    → ((k : ℕ)
        → get_elem? qs k ≡ (
            if h.i == k
            then map (polling (wanted c.client_buffer c.server_buffer)) (get_elem? ps k)
            else if h.j == k
            then map (polling (wanted c.server_buffer c.client_buffer)) (get_elem? ps k)
            else get_elem? ps k))
    → KeepsSockets ps qs
update_connection-KeepsSockets index ps qs c h e k p at =
    kept (h.i == k) (h.j == k) (e k ∙ rw at refl)
  where
    kept :
        (a b : Bool)
        → get_elem? qs k ≡ (
            if a
            then some (polling (wanted c.client_buffer c.server_buffer) p)
            else if b
            then some (polling (wanted c.server_buffer c.client_buffer) p)
            else some p)
        → (q : Pollfd) × (get_elem? qs k ≡ some q) × (q.fd ≡ p.fd) × (q.revents ≡ p.revents)
    kept true b f = (_, f, refl, refl)
    kept false true f = (_, f, refl, refl)
    kept false false f = (_, f, refl, refl)

PointsAt-kept :
    (ps qs : List Pollfd)
    → KeepsSockets ps qs
    → (m : List (ℕ × ℕ)) → All (PointsAt ps) m
    → All (PointsAt qs) m
PointsAt-kept ps qs keeps [] all = tt
PointsAt-kept ps qs keeps (e ∷ m) ((p, at, same), all) =
    let (q, at', same_fd, _) = keeps e.1 p at in
    ((q, at', same_fd ∙ same), PointsAt-kept ps qs keeps m all)

update_connections_lem :
    (index : List (ℕ × ℕ)) (ps : List Pollfd) (cs : List (ℕ × Proxied))
    → All (PointsAt ps) index
    → All (λ (e : ℕ × Proxied). IsPolled index e.1) cs
    → (qs : List Pollfd) × (update_connections index ps cs ≡ ok qs) × KeepsSockets ps qs
unfolding update_connections
update_connections_lem index ps [] points all = (ps, refl, λ k p at. (p, at, refl, refl))
update_connections_lem index ps ((id, c) ∷ cs) points (h, all) =
    let (rs, first, e) = update_connection_lem index ps c points h in
    let keeps = update_connection-KeepsSockets index ps rs c h e in
    let (qs, rest, keeps') =
      update_connections_lem index rs cs (PointsAt-kept ps rs keeps index points) all in
    (
      qs,
      rw (first, rest) refl,
      λ k p at.
          let (r, at', fd, revents) = keeps k p at in
          let (q, at'', fd', revents') = keeps' k r at' in (q, at'', fd' ∙ fd, revents' ∙ revents),
    )

-- With every connection polled and every buffer settled, no assert of `_updatePollFlags` fails and
-- no `at` throws; the table stays as it is, but for the events.
pub update_poll_flags_lem :
    (s : ProxyX11Server)
    → IsIndexed s
    → All (λ (e : ℕ × Proxied). IsPolled s.pfds_i_by_fd e.1) s.connections
    → (t : ProxyX11Server) × (update_poll_flags s ≡ ok t)
      × IsIndexed t
      × (t.pfds_i_by_fd ≡ s.pfds_i_by_fd)
      × ((fd : ℕ) (p : Pollfd)
          → pollfd_of s fd ≡ ok p
          → (q : Pollfd) × (pollfd_of t fd ≡ ok q) × (q.fd ≡ p.fd) × (q.revents ≡ p.revents))
unfolding update_poll_flags pollfd_of
update_poll_flags_lem s indexed all =
    let (qs, done, keeps) =
      update_connections_lem s.pfds_i_by_fd s.pfds s.connections indexed all in
    (
      record s { pfds = qs },
      rw done refl,
      PointsAt-kept s.pfds qs keeps s.pfds_i_by_fd indexed,
      refl,
      λ fd p e. found qs keeps (find fd s.pfds_i_by_fd) p e,
    )
  where
    at_kept : (o : Option Pollfd) (p : Pollfd) → at_or_abort o ≡ ok p → o ≡ some p
    at_kept none p e = cc
    at_kept (some q) p e = cc

    found :
        (qs : List Pollfd)
        → KeepsSockets s.pfds qs
        → (o : Option ℕ) (p : Pollfd)
        → (at_or_abort o >>= λ (i : ℕ). at_or_abort (get_elem? s.pfds i)) ≡ ok p
        → (q : Pollfd) × ((at_or_abort o >>= λ (i : ℕ). at_or_abort (get_elem? qs i)) ≡ ok q)
          × (q.fd ≡ p.fd)
          × (q.revents ≡ p.revents)
    found qs keeps none p e = cc
    found qs keeps (some i) p e =
        let (q, at, fd, revents) = keeps i p (at_kept (get_elem? s.pfds i) p e) in
        (q, rw at refl, fd, revents)
