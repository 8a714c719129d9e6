-- ===== src/Proxy/Table.antt =====
-- src/ProxyX11Server.cpp: the map of file descriptors and the array of polled sockets agree.
use xtracepp.Base.{
  ℕ, zero, suc, ◌≡◌, refl, ap, subst, ◌∙◌, inl, inr, Bool, true, false, List, [], ◌∷◌, ◌++◌, arith,
  ltb, ◌==◌, if◌then◌else◌, Bool-cases, ==_iff, length, get_elem?, All, Option, none, some, ok,
  ◌>>=◌, find,
}
use xtracepp.Proxy.{
  ProxyX11Server, Pollfd, PollFlags, pollnone, pollfd_of, emplace_ordered, add_socket_to_poll,
  at_or_abort,
}

-- Each entry of the map points at the `pollfd` of its file descriptor.
abbrev pub PointsAt : List Pollfd → ℕ × ℕ → Type 0
PointsAt pfds (fd, i) = (p : Pollfd) × (get_elem? pfds i ≡ some p) × (p.fd ≡ fd)

abbrev pub IsIndexed : ProxyX11Server → Type 0
IsIndexed s = All (PointsAt s.pfds) s.pfds_i_by_fd

pub find-PointsAt :
    (pfds : List Pollfd) (m : List (ℕ × ℕ)) (fd i : ℕ)
    → All (PointsAt pfds) m
    → find fd m ≡ some i
    → PointsAt pfds (fd, i)
unfolding find
find-PointsAt pfds [] fd i all e = cc
find-PointsAt pfds ((k, j) ∷ m) fd i (here, all) e = elim (Bool-cases (k == fd)) [
  | inl same ↦
      let at_fd : k ≡ fd = (==_iff k fd).0 same in
      let at_i : j ≡ i = cc (rw same at e) in
      subst (λ (t : ℕ × ℕ). PointsAt pfds t) (cc (at_fd, at_i)) here
  | inr differs ↦ find-PointsAt pfds m fd i all (rw differs at e)
]

-- Every socket that the map knows is found, with its own descriptor.
pub pollfd_of_known :
    (s : ProxyX11Server) (fd i : ℕ)
    → IsIndexed s
    → find fd s.pfds_i_by_fd ≡ some i
    → (p : Pollfd) × (pollfd_of s fd ≡ ok p) × (p.fd ≡ fd)
unfolding pollfd_of
pollfd_of_known s fd i indexed e =
    let (p, found, same) = find-PointsAt s.pfds s.pfds_i_by_fd fd i indexed e in
    (p, rw (e, found) refl, same)

get_elem?-append :
    {A : Type 0} (xs ys : List A) (i : ℕ) (a : A)
    → get_elem? xs i ≡ some a
    → get_elem? (xs ++ ys) i ≡ some a
get_elem?-append [] ys i a e = cc
get_elem?-append (x ∷ xs) ys zero a e = e
get_elem?-append (x ∷ xs) ys (suc i) a e = get_elem?-append xs ys i a e

pub get_elem?-append_length :
    {A : Type 0} (xs ys : List A) (a : A) → get_elem? (xs ++ a ∷ ys) (length xs) ≡ some a
get_elem?-append_length [] ys a = refl
get_elem?-append_length (x ∷ xs) ys a = get_elem?-append_length xs ys a

find-emplace_ordered :
    (k v j : ℕ) (m : List (ℕ × ℕ))
    → find k m ≡ none
    → find j (emplace_ordered k v m) ≡ (if k == j then some v else find j m)
unfolding find emplace_ordered
find-emplace_ordered k v j [] e = refl
find-emplace_ordered k v j ((i, w) ∷ m) e = elim (Bool-cases (i == k)) [
  | inl same ↦ cc (rw same at e)
  | inr differs ↦ ground (arith, differs, find-emplace_ordered k v j m (rw differs at e))
]

All-emplace_ordered :
    (Q : ℕ × ℕ → Type 0) (k v : ℕ) (m : List (ℕ × ℕ))
    → Q (k, v)
    → All Q m
    → All Q (emplace_ordered k v m)
unfolding emplace_ordered
All-emplace_ordered Q k v [] q all = (q, tt)
All-emplace_ordered Q k v ((j, w) ∷ m) q (here, all) =
    inserted (ltb k j) (j == k) (All-emplace_ordered Q k v m q all)
  where
    inserted :
        (before same : Bool)
        → All Q (emplace_ordered k v m)
        → All Q (
            if before
            then (k, v) ∷ (j, w) ∷ m
            else if same
            then (j, w) ∷ m
            else (j, w) ∷ emplace_ordered k v m)
    inserted true same rest = (q, (here, all))
    inserted false true rest = (here, all)
    inserted false false rest = (here, rest)

All-map :
    (Q R : ℕ × ℕ → Type 0) → ((e : ℕ × ℕ) → Q e → R e) → (m : List (ℕ × ℕ)) → All Q m → All R m
All-map Q R f [] all = tt
All-map Q R f (e ∷ m) (here, all) = (f e here, All-map Q R f m all)

-- A new socket is found with the events it was added with, and the others as before.
pub add_socket_to_poll_lem :
    (s : ProxyX11Server) (fd : ℕ) (events : PollFlags)
    → IsIndexed s
    → find fd s.pfds_i_by_fd ≡ none
    → (t : ProxyX11Server) × (add_socket_to_poll s fd events ≡ ok t)
      × IsIndexed t
      × (t.connections ≡ s.connections)
      × ((j : ℕ)
          → pollfd_of t j ≡ (
              if fd == j
              then ok (record { fd = fd; events = events; revents = pollnone })
              else pollfd_of s j))
unfolding add_socket_to_poll pollfd_of
add_socket_to_poll_lem s fd events indexed free =
    let new : Pollfd = record { fd = fd; events = events; revents = pollnone } in
    let pfds : List Pollfd = s.pfds ++ new ∷ [] in
    let t : ProxyX11Server = record s {
      pfds = pfds;
      pfds_i_by_fd = emplace_ordered fd (length s.pfds) s.pfds_i_by_fd;
    } in
    (
      t,
      rw free refl,
      All-emplace_ordered (PointsAt pfds) fd (length s.pfds) s.pfds_i_by_fd
          (new, get_elem?-append_length s.pfds [] new, refl)
          (All-map (PointsAt s.pfds) (PointsAt pfds)
            (λ e (p, found, same). (p, get_elem?-append s.pfds (new ∷ []) e.1 p found, same))
            s.pfds_i_by_fd indexed),
      refl,
      λ j.
          ap (λ (o : Option ℕ). at_or_abort o >>= λ (i : ℕ). at_or_abort (get_elem? pfds i))
            (find-emplace_ordered fd (length s.pfds) j s.pfds_i_by_fd free)
          ∙ found new j (fd == j),
    )
  where
    kept :
        (new : Pollfd) (j : ℕ) (o : Option ℕ)
        → find j s.pfds_i_by_fd ≡ o
        → (at_or_abort o >>= λ (i : ℕ). at_or_abort (get_elem? (s.pfds ++ new ∷ []) i))
          ≡ (at_or_abort o >>= λ (i : ℕ). at_or_abort (get_elem? s.pfds i))
    kept new j none e = refl
    kept new j (some i) e =
        let (p, at, _) = find-PointsAt s.pfds s.pfds_i_by_fd j i indexed e in
        rw (get_elem?-append s.pfds (new ∷ []) i p at, at) refl

    found :
        (new : Pollfd) (j : ℕ) (same : Bool)
        → (at_or_abort (if same then some (length s.pfds) else find j s.pfds_i_by_fd) >>= λ (i : ℕ).
            at_or_abort (get_elem? (s.pfds ++ new ∷ []) i))
          ≡ (if same
              then ok new
              else at_or_abort (find j s.pfds_i_by_fd) >>= λ (i : ℕ).
                  at_or_abort (get_elem? s.pfds i))
    found new j true = rw (get_elem?-append_length s.pfds [] new) refl
    found new j false = kept new j (find j s.pfds_i_by_fd) refl
