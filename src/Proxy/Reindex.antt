-- ===== src/Proxy/Reindex.antt =====
-- src/ProxyX11Server.cpp: the array of polled sockets after `_closeConnections` built it again.
use xtracepp.Base.{
  ℕ, suc, ◌+◌, ◌≡◌, refl, sym, ap, subst, ◌∙◌, inl, inr, true, List, [], ◌∷◌, ◌++◌, append_assoc,
  length-append, arith, ◌==◌, Bool-cases, ==_iff, length, get_elem?, All, Option, some, Outcome, ok,
  ◌>>=◌, find,
}
use xtracepp.Proxy.{Pollfd, reindex, at_or_abort}
use xtracepp.Proxy.Table.{PointsAt, get_elem?-append_length}

abbrev pub entry_of : List Pollfd → Option ℕ → Outcome Pollfd
entry_of pfds o = at_or_abort o >>= λ (i : ℕ). at_or_abort (get_elem? pfds i)

-- The new array holds the entry of every descriptor of the map, at its new place, counted from `i`.
pub record Reindexed (pfds : List Pollfd) (m : List (ℕ × ℕ)) (i : ℕ) (qs : List Pollfd)
    (n : List (ℕ × ℕ)) : Type 0 where
  pub done : reindex pfds m i ≡ ok (qs, n)
  pub same_length : length n ≡ length m
  pub points : (before : List Pollfd) → length before ≡ i → All (PointsAt (before ++ qs)) n
  pub finds :
      (before : List Pollfd) (fd : ℕ)
      → length before ≡ i
      → entry_of (before ++ qs) (find fd n) ≡ entry_of pfds (find fd m)

pub reindex_lem :
    (pfds : List Pollfd) (m : List (ℕ × ℕ)) (i : ℕ)
    → All (PointsAt pfds) m
    → (qs : List Pollfd) × (n : List (ℕ × ℕ)) × Reindexed pfds m i qs n
unfolding reindex find
reindex_lem pfds [] i all = (
  [],
  [],
  record { done = refl; same_length = refl; points = λ before h. tt; finds = λ before fd h. refl },
)
reindex_lem pfds ((fd, j) ∷ m) i ((p, at, same), all) =
    let (qs, n, r) = reindex_lem pfds m (i + 1) all in
    let matches : (p.fd == fd) ≡ true = (==_iff p.fd fd).1 same in
    (
      p ∷ qs,
      (fd, i) ∷ n,
      record {
        done = rw (at, matches, r.done) refl;
        same_length = ap suc r.same_length;
        points = λ before h.
            let longer : (before ++ p ∷ []) ++ qs ≡ before ++ p ∷ qs =
              append_assoc before (p ∷ []) qs in
            (
              (p, here before qs h, same),
              subst (λ (t : List Pollfd). All (PointsAt t) n) longer
                  (r.points (before ++ p ∷ []) (omega (arith, length-append before (p ∷ [])))),
            );
        finds = λ before fd' h.
            let longer : (before ++ p ∷ []) ++ qs ≡ before ++ p ∷ qs =
              append_assoc before (p ∷ []) qs in
            elim (Bool-cases (fd == fd')) [
              | inl key ↦ rw (key, here before qs h, at) refl
              | inr other ↦ rw other (
                  subst (λ (t : List Pollfd). entry_of t (find fd' n) ≡ entry_of pfds (find fd' m))
                    longer
                    (r.finds (before ++ p ∷ []) fd' (omega (arith, length-append before (p ∷ [])))))
            ];
      },
    )
  where
    here : (before qs : List Pollfd) → length before ≡ i → get_elem? (before ++ p ∷ qs) i ≡ some p
    here before qs h =
        ap (get_elem? (before ++ p ∷ qs)) (sym h) ∙ get_elem?-append_length before qs p
