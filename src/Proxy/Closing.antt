-- ===== src/Proxy/Closing.antt =====
-- src/ProxyX11Server.cpp: `_closeConnections`.
use xtracepp.Base.{
  ℕ, ◌<◌, ◌≡◌, refl, ap, ◌∙◌, inl, inr, Bool, true, false, ◌||◌, List, [], ◌∷◌, arith, ◌==◌,
  if◌then◌else◌, lt→ltb, Bool-cases, length, All, Option, none, some, ok, aborted, find, erase,
  find-erase,
}
use xtracepp.Session.{
  Connection, close_client_side, close_server_side, client_side_closed, server_side_closed,
}
use xtracepp.Proxy.{
  ProxyX11Server, Proxied, pollfd_of, close_each, close_connections, erase_fd, on_open,
}
use xtracepp.Proxy.Table.{PointsAt, IsIndexed}
use xtracepp.Proxy.Reindex.{entry_of, reindex_lem}

abbrev is_fd : Option ℕ → ℕ → Bool
is_fd none j = false
is_fd (some fd) j = fd == j

abbrev has_fd : Option Proxied → ℕ → Bool
has_fd none j = false
has_fd (some c) j = is_fd c.conn.client_fd j || is_fd c.conn.server_fd j

-- Whether a descriptor is one of those that are closed with the connections `ids`.
unfoldable pub closing : List (ℕ × Proxied) → List ℕ → ℕ → Bool
closing cs [] j = false
closing cs (id ∷ ids) j = has_fd (find id cs) j || closing (erase id cs) ids j

-- The connections are there, and no one is named twice.
abbrev pub Closable : List (ℕ × Proxied) → List ℕ → Type 0
Closable cs [] = Unit
Closable cs (id ∷ ids) = ((c : Proxied) × (find id cs ≡ some c)) × Closable (erase id cs) ids

abbrev pub without : List ℕ → List (ℕ × Proxied) → List (ℕ × Proxied)
without [] cs = cs
without (id ∷ ids) cs = without ids (erase id cs)

find-erase_fd :
    (fd : Option ℕ) (j : ℕ) (m : List (ℕ × ℕ))
    → find j (erase_fd fd m) ≡ (if is_fd fd j then none else find j m)
find-erase_fd none j m = refl
find-erase_fd (some fd) j m = find-erase fd j m

All-erase : (Q : ℕ × ℕ → Type 0) (k : ℕ) (m : List (ℕ × ℕ)) → All Q m → All Q (erase k m)
unfolding erase
All-erase Q k [] all = tt
All-erase Q k ((j, v) ∷ m) (here, all) = kept (j == k) (All-erase Q k m all)
  where
    kept :
        (same : Bool) → All Q (erase k m) → All Q (if same then erase k m else (j, v) ∷ erase k m)
    kept true rest = rest
    kept false rest = (here, rest)

All-erase_fd :
    (Q : ℕ × ℕ → Type 0) (fd : Option ℕ) (m : List (ℕ × ℕ)) → All Q m → All Q (erase_fd fd m)
All-erase_fd Q none m all = all
All-erase_fd Q (some fd) m all = All-erase Q fd m all

-- What the first loop leaves.
record Closed (s : ProxyX11Server) (ids : List ℕ) (t : ProxyX11Server) : Type 0 where
  pfds_kept : t.pfds ≡ s.pfds
  finds :
      (j : ℕ)
      → find j t.pfds_i_by_fd
        ≡ (if closing s.connections ids j then none else find j s.pfds_i_by_fd)
  keeps : All (PointsAt s.pfds) s.pfds_i_by_fd → All (PointsAt s.pfds) t.pfds_i_by_fd
  left : t.connections ≡ without ids s.connections

find-length : (k v : ℕ) (m : List (ℕ × ℕ)) → find k m ≡ some v → 0 < length m
unfolding find
find-length k v [] e = cc
find-length k v (x ∷ m) e = omega arith

module _ (closes : ℕ → Bool) (works : (fd : ℕ) → closes fd ≡ true) where
  on_open_works : (fd : Option ℕ) → on_open closes fd ≡ true
  on_open_works none = refl
  on_open_works (some fd) = works fd

  close_client_half :
      (c : Connection)
      → (half : Connection) × (close_client_side c (on_open closes c.client_fd) ≡ ok half)
        × (half.server_fd ≡ c.server_fd)
  unfolding close_client_side
  close_client_half c = elim (Bool-cases (client_side_closed c)) [
    | inl closed ↦ (c, rw closed refl, refl)
    | inr open_side ↦
        (record c { client_fd = none }, rw (open_side, on_open_works c.client_fd) refl, refl)
  ]

  close_server_half :
      (c : Connection)
      → (both : Connection) × (close_server_side c (on_open closes c.server_fd) ≡ ok both)
  unfolding close_server_side
  close_server_half c = elim (Bool-cases (server_side_closed c)) [
    | inl closed ↦ (c, rw closed refl)
    | inr open_side ↦
        (record c { server_fd = none }, rw (open_side, on_open_works c.server_fd) refl)
  ]

  close_sides :
      (c : Connection)
      → (half : Connection) × (both : Connection) × (close_client_side c
            (on_open closes c.client_fd)
          ≡ ok half)
        × (half.server_fd ≡ c.server_fd)
        × (close_server_side half (on_open closes half.server_fd) ≡ ok both)
  close_sides c =
      let (half, halved, kept) = close_client_half c in
      let (both, closed) = close_server_half half in (half, both, halved, kept, closed)

  close_each_lem :
      (s : ProxyX11Server) (ids : List ℕ)
      → Closable s.connections ids
      → (t : ProxyX11Server) × (close_each closes s ids ≡ ok t) × Closed s ids t
  unfolding close_each closing
  close_each_lem s [] closable =
      (s, refl, record { pfds_kept = refl; finds = λ j. refl; keeps = λ all. all; left = refl })
  close_each_lem s (id ∷ ids) ((c, there), closable) =
      let (half, both, halved, kept, closed) = close_sides c.conn in
      let index : List (ℕ × ℕ) =
        erase_fd c.conn.server_fd (erase_fd c.conn.client_fd s.pfds_i_by_fd) in
      let next : ProxyX11Server = record s {
        pfds_i_by_fd = index;
        connections = erase id s.connections;
      } in
      let (t, done, r) = close_each_lem next ids closable in
      (
        t,
        rw (there, halved, closed) (rw kept done),
        record {
          pfds_kept = r.pfds_kept;
          finds = λ j. ground (
            arith,
            there,
            r.finds j,
            find-erase_fd c.conn.server_fd j (erase_fd c.conn.client_fd s.pfds_i_by_fd),
            find-erase_fd c.conn.client_fd j s.pfds_i_by_fd,
          );
          keeps = λ all.
              let Q = PointsAt s.pfds in
              r.keeps (All-erase_fd Q c.conn.server_fd _ (All-erase_fd Q c.conn.client_fd _ all));
          left = r.left;
        },
      )

  -- Where every `close` works, `_closeConnections` drops the sockets of the connections that it is
  -- handed and no other: each of the others is found with the entry that it had. The listener has
  -- to be among those, for the last `assert`.
  pub close_connections_lem :
      (s : ProxyX11Server) (ids : List ℕ) (i : ℕ)
      → IsIndexed s
      → Closable s.connections ids
      → find s.listener_fd s.pfds_i_by_fd ≡ some i
      → closing s.connections ids s.listener_fd ≡ false
      → (t : ProxyX11Server) × (close_connections closes s ids ≡ ok t)
        × IsIndexed t
        × (t.connections ≡ without ids s.connections)
        × ((j : ℕ)
            → pollfd_of t j ≡ (if closing s.connections ids j then aborted else pollfd_of s j))
  unfolding close_connections pollfd_of
  close_connections_lem s ids i indexed closable listens stays =
      let (t, done, r) = close_each_lem s ids closable in
      let points : All (PointsAt t.pfds) t.pfds_i_by_fd = rw r.pfds_kept (r.keeps indexed) in
      let (qs, n, q) = reindex_lem t.pfds t.pfds_i_by_fd 0 points in
      let known : find s.listener_fd t.pfds_i_by_fd ≡ some i =
        r.finds s.listener_fd ∙ rw stays listens in
      let any : 0 < length n =
        omega (arith, q.same_length, find-length s.listener_fd i t.pfds_i_by_fd known) in
      (
        record t { pfds = qs; pfds_i_by_fd = n },
        rw (done, q.done, lt→ltb 0 (length n) any) refl,
        q.points [] refl,
        r.left,
        λ j.
            q.finds [] j refl
            ∙ ap (entry_of t.pfds) (r.finds j)
            ∙ rw r.pfds_kept (dropped (closing s.connections ids j) (find j s.pfds_i_by_fd)),
      )
    where
      dropped :
          (gone : Bool) (o : Option ℕ)
          → entry_of s.pfds (if gone then none else o)
            ≡ (if gone then aborted else entry_of s.pfds o)
      dropped true o = refl
      dropped false o = refl
