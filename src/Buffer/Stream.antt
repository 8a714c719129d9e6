-- ===== src/Buffer/Stream.antt =====
-- SocketBuffer refines a queue of bytes: what a client of the class can rely on, with no vector,
-- no offsets and no `size_t`.
use xtracepp.Base.{
  ℕ, ◌+◌, ◌-◌, ◌≤◌, ◌≡◌, List, [], ◌∷◌, ◌++◌, ltb, leb, ◌==◌, length, take, drop, Option, none,
  some, Outcome, ok, ◌>>=◌, if◌then◌else◌,
}
use xtracepp.Buffer.{
  SocketBuffer, unknown_sz, block_sz, contents, sent, received, read_n, load, write_n, unload_to,
  set_message_size, mark_message_parsed,
}
use xtracepp.Buffer.Wellformed.{IsValid}

-- The bytes that are buffered, oldest first, how many of them are parsed, and the size of the
-- message that is being waited for.
pub record Stream : Type 0 where
  pub bytes : List ℕ
  pub parsed : ℕ
  pub message : Option ℕ

-- The operations, with what the socket answers: `receives n bytes` is a `recv` of `n` that gets
-- `bytes`, `sends n` a `send` that takes all of `n`.
pub data Operation : Type 0 where
  receives : ℕ → List ℕ → Operation
  loads : List ℕ → Operation
  sizes : ℕ → Operation
  marks : Operation
  sends : ℕ → Operation
  unloads : ℕ → Operation

abbrev no_output : SocketBuffer → SocketBuffer × List ℕ
no_output b = (b, [])

-- An operation on the class: the new state and the bytes that leave it.
unfoldable pub operate : SocketBuffer → Operation → Outcome (SocketBuffer × List ℕ)
operate b (receives n bytes) = read_n b n (received bytes) >>= λ r. ok (r.0, [])
operate b (loads bytes) = load b bytes >>= λ r. ok (r.0, [])
operate b (sizes m) = set_message_size b m >>= λ c. ok (c, [])
operate b marks = mark_message_parsed b >>= λ c. ok (c, [])
operate b (sends n) =
    write_n b n (sent n) >>= λ r. ok (r.0, take n (drop b.bytes_written b.storage))
operate b (unloads n) = unload_to b n >>= λ r. ok (r.0, r.1)

abbrev pub message_of : ℕ → Option ℕ
message_of m = if m == unknown_sz then none else some m

abbrev pub view : SocketBuffer → Stream
view b = record {
  bytes = contents b;
  parsed = b.bytes_parsed;
  message = message_of b.next_message_sz;
}

abbrev pub when_any : List ℕ → Option ℕ → Option ℕ
when_any [] m = none
when_any (x ∷ xs) m = m

abbrev pub after_front : Stream → ℕ → ℕ → Stream
after_front s n parsed = record {
  bytes = drop n s.bytes;
  parsed = parsed;
  message = when_any (drop n s.bytes) s.message;
}

abbrev pub mark_message : Stream → Option ℕ → Option Stream
mark_message s none = none
mark_message s (some m) =
    if leb (s.parsed + m) (length s.bytes)
    then some (record s { parsed = s.parsed + m; message = none })
    else none

abbrev pub set_message : Stream → ℕ → Option ℕ → Option Stream
set_message s m none = if ltb m unknown_sz then some (record s { message = some m }) else none
set_message s m (some k) = none

-- The queue: `none` where the class fails an `assert`, or where the socket would break its promise.
unfoldable pub queue : Stream → Operation → Option (Stream × List ℕ)
queue s (receives n bytes) =
    if leb (length bytes) n then some (record s { bytes = s.bytes ++ bytes }, []) else none
queue s (loads bytes) =
    if ltb 0 (length bytes) then some (record s { bytes = s.bytes ++ bytes }, []) else none
queue s (sizes m) = elim (set_message s m s.message) [ none ↦ none | some t ↦ some (t, []) ]
queue s marks = elim (mark_message s s.message) [ none ↦ none | some t ↦ some (t, []) ]
queue s (sends n) =
    if leb n s.parsed then some (after_front s n (s.parsed - n), take n s.bytes) else none
queue s (unloads n) =
    if s.parsed == 0
    then (if leb n (length s.bytes) then some (after_front s n 0, take n s.bytes) else none)
    else none

-- How much an operation may make the vector grow.
abbrev pub cost : Operation → ℕ
cost (receives n bytes) = n + block_sz
cost (loads bytes) = length bytes + block_sz
cost (sizes m) = 0
cost marks = 0
cost (sends n) = 0
cost (unloads n) = 0

-- The class did what the queue did: the same bytes left it, and it shows the queue's state.
abbrev pub Follows : SocketBuffer → Operation → Stream → List ℕ → Type 0
Follows b op s out =
    (c : SocketBuffer) × (operate b op ≡ ok (c, out))
    × IsValid c
    × (view c ≡ s)
    × (length c.storage ≤ length b.storage + cost op)
