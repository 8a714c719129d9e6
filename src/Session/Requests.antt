-- ===== src/Session/Requests.antt =====
-- src/include/Connection.hpp: the map of open requests by sequence number.
use xtracepp.Base.{
  ℕ, ◌<◌, ◌≡◌, refl, none, some, List, [], ◌∷◌, arith, ok, find, find-emplace_old, find-emplace_new,
  ◌==◌, if◌then◌else◌,
}
use xtracepp.Session.{Connection, RequestOpcodes, next_sequence, register_request, lookup_request}

-- No request is open under the number that the next one gets.
abbrev pub IsFree : Connection → Type 0
IsFree c = find (next_sequence c.sequence) c.request_opcodes_by_seq_num ≡ none

-- Under a free number a request is found again, and no other entry changes.
pub lookup_request-register_request :
    (c : Connection) (major minor j : ℕ)
    → IsFree c
    → lookup_request (register_request c major minor).0 j ≡ (
        if (register_request c major minor).1 == j
        then ok (record { major = major; minor = minor })
        else lookup_request c j)
unfolding lookup_request register_request
lookup_request-register_request c major minor j free = ground (
  arith,
  find-emplace_new (next_sequence c.sequence) j (record { major = major; minor = minor })
      c.request_opcodes_by_seq_num free,
)

-- A number that is still open keeps its old opcodes: `emplace` does not replace them.
pub register_request_stale :
    (c : Connection) (major minor : ℕ) (old : RequestOpcodes)
    → find (next_sequence c.sequence) c.request_opcodes_by_seq_num ≡ some old
    → let (d, s) = register_request c major minor in
      (s ≡ next_sequence c.sequence) × (lookup_request d s ≡ ok old)
unfolding register_request lookup_request
register_request_stale c major minor old e = (
  refl,
  rw (
    find-emplace_old (next_sequence c.sequence) (next_sequence c.sequence)
        (record { major = major; minor = minor }) old c.request_opcodes_by_seq_num e,
    e,
  ),
)

-- A client that sends requests and gets no reply and no error, such as one that only draws.
unfoldable pub register_all : Connection → List RequestOpcodes → Connection
register_all c [] = c
register_all c (r ∷ rs) = register_all (register_request c r.major r.minor).0 rs

-- The numbers from `k + 1` on are not open.
abbrev FreeAbove : Connection → ℕ → Type 0
FreeAbove c k = (j : ℕ) → k < j → find j c.request_opcodes_by_seq_num ≡ none
