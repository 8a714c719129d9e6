-- ===== src/Session/Sides.antt =====
-- src/Connection.cpp: closing the two sides of a connection.
use xtracepp.Base.{ℕ, ◌≡◌, refl, Bool, true, false, Option, none, some, Outcome, ok, exited, ◌>>=◌}
use xtracepp.Session.{
  Connection, client_side_closed, server_side_closed, close_client_side, close_server_side,
}

-- `_closeConnections` closes one side and then the other.
abbrev pub close_both : Connection → Bool → Bool → Outcome Connection
close_both c closes closes' = close_client_side c closes >>= λ d. close_server_side d closes'

abbrev pub both_closed : Connection → Connection
both_closed c = record c { client_fd = none; server_fd = none }

-- Where each `close` works both sides are closed and nothing else changes; a second time nothing is
-- closed, whatever `close` would answer. A `close` of an open side that fails ends the process.
pub close_both_lem :
    (c : Connection)
    → (close_both c true true ≡ ok (both_closed c))
      × ((x y : Bool) → close_both (both_closed c) x y ≡ ok (both_closed c))
      × (client_side_closed c ≡ false → (y : Bool) → close_both c false y ≡ exited)
unfolding close_client_side close_server_side client_side_closed server_side_closed
close_both_lem c = (closes c.client_fd c.server_fd refl refl, λ x y. refl, λ e y. rw e refl)
  where
    closes :
        (cf sf : Option ℕ)
        → c.client_fd ≡ cf
        → c.server_fd ≡ sf
        → close_both c true true ≡ ok (both_closed c)
    closes none none e f = rw (e, f) refl
    closes none (some t) e f = rw (e, f) refl
    closes (some s) none e f = rw (e, f) refl
    closes (some s) (some t) e f = rw (e, f) refl
