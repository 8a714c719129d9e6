-- ===== src/Proxy/Flags.antt =====
-- src/ProxyX11Server.cpp: `_updatePollFlags`.
use mathlib.Core.Option.{map}
use xtracepp.Base.{
  ℕ, zero, suc, ◌≡◌, refl, ap, ◌∙◌, inl, inr, Bool, true, false, not, ◌||◌, List, [], ◌∷◌, arith,
  ◌==◌, if◌then◌else◌, Bool-cases, ==_iff, get_elem?, All, Option, none, some, ok, find,
}
use xtracepp.Buffer.{SocketBuffer, read_ready, write_ready}
use xtracepp.Buffer.Wellformed.{IsValid}
use xtracepp.Buffer.Readiness.{IsSettled, settled_ready}
use xtracepp.Proxy.{
  Proxied, Pollfd, PollFlags, update_at, only_pri, or_in, or_out, update_connection,
}
use xtracepp.Proxy.Table.{PointsAt, find-PointsAt}

get_elem?-update_at :
    {A : Type 0} (i k : ℕ) (f : A → A) (xs : List A)
    → get_elem? (update_at i f xs) k ≡ (if i == k then map f (get_elem? xs k) else get_elem? xs k)
get_elem?-update_at i k f [] = ground arith
get_elem?-update_at zero zero f (x ∷ xs) = refl
get_elem?-update_at zero (suc k) f (x ∷ xs) = ground arith
get_elem?-update_at (suc i) zero f (x ∷ xs) = ground arith
get_elem?-update_at (suc i) (suc k) f (x ∷ xs) = ground (arith, get_elem?-update_at i k f xs)

-- Both sides are open and polled, at two places, and the parser has left both buffers.
pub record IsPolled (index : List (ℕ × ℕ)) (c : Proxied) : Type 0 where
  pub client_fd : ℕ
  pub server_fd : ℕ
  pub i : ℕ
  pub j : ℕ
  pub client_open : c.conn.client_fd ≡ some client_fd
  pub server_open : c.conn.server_fd ≡ some server_fd
  pub client_at : find client_fd index ≡ some i
  pub server_at : find server_fd index ≡ some j
  pub apart : (i == j) ≡ false
  pub client_valid : IsValid c.client_buffer
  pub server_valid : IsValid c.server_buffer
  pub client_settled : IsSettled c.client_buffer
  pub server_settled : IsSettled c.server_buffer

-- What a socket is polled for: to read while its own buffer wants bytes, and to write while the
-- buffer of the other side does not.
abbrev pub wanted : SocketBuffer → SocketBuffer → PollFlags
wanted own other = record {
  pollin = read_ready own;
  pollpri = true;
  pollout = not (read_ready other);
  pollerr = false;
  pollnval = false;
}

abbrev pub polling : PollFlags → Pollfd → Pollfd
polling events p = record p { events = events }

ready : (b : SocketBuffer) → IsValid b → IsSettled b → (read_ready b || write_ready b) ≡ true
ready b v settled = elim (Bool-cases (read_ready b)) [
  | inl reads ↦ rw reads refl
  | inr full ↦ rw (full, settled_ready b v settled full) refl
]

abbrev upd : Bool → (Pollfd → Pollfd) → Option Pollfd → Option Pollfd
upd here f x = if here then map f x else x

abbrev either :
    Bool → Bool → Bool → (Pollfd → Pollfd) → (Pollfd → Pollfd) → Option Pollfd → Option Pollfd
either first a b f g x = if first then upd a f x else upd b g x

get_elem?-chosen :
    (first : Bool) (a b k : ℕ) (f g : Pollfd → Pollfd) (xs : List Pollfd)
    → get_elem? (if first then update_at a f xs else update_at b g xs) k
      ≡ either first (a == k) (b == k) f g (get_elem? xs k)
get_elem?-chosen true a b k f g xs = get_elem?-update_at a k f xs
get_elem?-chosen false a b k f g xs = get_elem?-update_at b k g xs

abbrev flags : Bool → Bool → PollFlags
flags reads writes = record {
  pollin = reads;
  pollpri = true;
  pollout = writes;
  pollerr = false;
  pollnval = false;
}

-- The updates one after the other, on an entry that is the client's (`a`), the server's (`b`), or
-- neither.
events_wanted :
    (client_reads server_reads a b : Bool) (x : Option Pollfd)
    → (a ≡ true → b ≡ true → ⊥)
    → either server_reads b a or_in or_out
        (either client_reads a b or_in or_out (upd b only_pri (upd a only_pri x)))
      ≡ (if a
          then map (polling (flags client_reads (not server_reads))) x
          else if b
          then map (polling (flags server_reads (not client_reads))) x
          else x)
events_wanted client_reads server_reads true true x h = absurd (h refl refl)
events_wanted true true true false none h = refl
events_wanted true false true false none h = refl
events_wanted false true true false none h = refl
events_wanted false false true false none h = refl
events_wanted true true false true none h = refl
events_wanted true false false true none h = refl
events_wanted false true false true none h = refl
events_wanted false false false true none h = refl
events_wanted true true true false (some p) h = refl
events_wanted true false true false (some p) h = refl
events_wanted false true true false (some p) h = refl
events_wanted false false true false (some p) h = refl
events_wanted true true false true (some p) h = refl
events_wanted true false false true (some p) h = refl
events_wanted false true false true (some p) h = refl
events_wanted false false false true (some p) h = refl
events_wanted true true false false x h = refl
events_wanted true false false false x h = refl
events_wanted false true false false x h = refl
events_wanted false false false false x h = refl

-- The two entries of a connection get these events, and no other entry changes.
pub update_connection_lem :
    (index : List (ℕ × ℕ)) (pfds : List Pollfd) (c : Proxied)
    → All (PointsAt pfds) index
    → (h : IsPolled index c)
    → (qs : List Pollfd) × (update_connection index pfds c ≡ ok qs)
      × ((k : ℕ)
          → get_elem? qs k ≡ (
              if h.i == k
              then map (polling (wanted c.client_buffer c.server_buffer)) (get_elem? pfds k)
              else if h.j == k
              then map (polling (wanted c.server_buffer c.client_buffer)) (get_elem? pfds k)
              else get_elem? pfds k))
unfolding update_connection
update_connection_lem index pfds c points h =
    let (p, at_i, _) = find-PointsAt pfds index h.client_fd h.i points h.client_at in
    let (q, at_j, _) = find-PointsAt pfds index h.server_fd h.j points h.server_at in
    let client_ready = ready c.client_buffer h.client_valid h.client_settled in
    let server_ready = ready c.server_buffer h.server_valid h.server_settled in
    (
      _,
      rw
          (
            h.client_open, h.client_at, at_i, h.server_open, h.server_at, at_j, client_ready,
            server_ready,
          )
          refl,
      λ k.
          let reset = update_at h.j only_pri (update_at h.i only_pri pfds) in
          let upstream =
            if read_ready c.client_buffer
            then update_at h.i or_in reset
            else update_at h.j or_out reset in
          get_elem?-chosen (read_ready c.server_buffer) h.j h.i k or_in or_out upstream
          ∙ ap (either (read_ready c.server_buffer) (h.j == k) (h.i == k) or_in or_out) (
              get_elem?-chosen (read_ready c.client_buffer) h.i h.j k or_in or_out reset
              ∙ ap (either (read_ready c.client_buffer) (h.i == k) (h.j == k) or_in or_out) (
                  get_elem?-update_at h.j k only_pri (update_at h.i only_pri pfds)
                  ∙ ap (upd (h.j == k) only_pri) (get_elem?-update_at h.i k only_pri pfds)))
          ∙ events_wanted (read_ready c.client_buffer) (read_ready c.server_buffer) (h.i == k)
              (h.j == k) (get_elem? pfds k)
              (λ x y. ground (arith, (==_iff h.i k).0 x, (==_iff h.j k).0 y, h.apart)),
    )
