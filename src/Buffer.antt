-- ===== src/Buffer.antt =====
-- src/include/SocketBuffer.hpp and src/SocketBuffer.cpp: the byte buffer between two sockets.
-- `storage` is the vector `_buffer`; what `recv` and `send` answer is an argument. A `memcpy` and a
-- `recv` write into the vector at `_bytes_read`; bytes past `_bytes_read` are stale or zero.
pub mod Bytes
pub mod Wellformed
pub mod Transfer
pub mod Removal
pub mod Stream
pub mod Refinement
pub mod Readiness
pub mod Wrap
use xtracepp.Base.{
  ℕ, ◌+◌, ◌-◌, ◌%◌, ◌^◌, Bool, true, not, ◌&&◌, ◌||◌, Option, none, some, List, [], ◌++◌, ltb, leb,
  ◌==◌, if◌then◌else◌, length, take, drop, replicate, Outcome, ok, require, ◌>>=◌, ◌>>◌, add_size,
  sub_size, size_mod,
}

pub record SocketBuffer : Type 0 where
  pub storage : List ℕ
  pub bytes_read : ℕ
  pub bytes_parsed : ℕ
  pub bytes_written : ℕ
  pub next_message_sz : ℕ

abbrev pub block_sz : ℕ
block_sz = 2048

-- `std::numeric_limits< size_t >::max()`.
abbrev pub unknown_sz : ℕ
unknown_sz = 2 ^ 64 - 1

unfoldable pub new_buffer : SocketBuffer
new_buffer = record {
  storage = replicate block_sz 0;
  bytes_read = 0;
  bytes_parsed = 0;
  bytes_written = 0;
  next_message_sz = unknown_sz;
}

unfoldable pub message_size_set : SocketBuffer → Bool
message_size_set b = not (b.next_message_sz == unknown_sz)

unfoldable pub set_message_size : SocketBuffer → ℕ → Outcome SocketBuffer
unfolding message_size_set
set_message_size b message_sz = do
  require (not (message_sz == unknown_sz))
  require (not (message_size_set b))
  ok (record b { next_message_sz = message_sz })

unfoldable pub size : SocketBuffer → ℕ
size b = sub_size b.bytes_read b.bytes_written

unfoldable pub unparsed : SocketBuffer → ℕ
unfolding size
unparsed b = sub_size (size b) b.bytes_parsed

unfoldable pub incomplete_message : SocketBuffer → Bool
unfolding unparsed message_size_set
incomplete_message b =
    ltb 0 (unparsed b) && (not (message_size_set b) || ltb (unparsed b) b.next_message_sz)

unfoldable pub mark_message_parsed : SocketBuffer → Outcome SocketBuffer
unfolding message_size_set size
mark_message_parsed b = do
  require (message_size_set b)
  require (leb (add_size b.bytes_parsed b.next_message_sz) (size b))
  ok (record b {
    bytes_parsed = add_size b.bytes_parsed b.next_message_sz;
    next_message_sz = unknown_sz;
  })

unfoldable pub is_empty : SocketBuffer → Bool
is_empty b = b.bytes_read == 0

unfoldable pub read_ready : SocketBuffer → Bool
unfolding is_empty incomplete_message
read_ready b = is_empty b || incomplete_message b

unfoldable pub write_ready : SocketBuffer → Bool
unfolding is_empty
write_ready b = not (is_empty b) && ltb 0 b.bytes_parsed

unfoldable pub capacity : SocketBuffer → ℕ
capacity b = sub_size (length b.storage) b.bytes_read

unfoldable pub clear : SocketBuffer → Outcome SocketBuffer
unfolding size
clear b = do
  require (b.bytes_parsed == size b)
  ok (record b {
    bytes_read = 0;
    next_message_sz = unknown_sz;
    bytes_parsed = 0;
    bytes_written = 0;
  })

-- `std::vector::resize`: new elements are zero.
unfoldable pub resize : List ℕ → ℕ → List ℕ
resize st n = take n st ++ replicate (n - length st) 0

unfoldable pub block_multiple : ℕ → ℕ
block_multiple raw_sz = add_size raw_sz ((block_sz - raw_sz % block_sz) % block_sz)

-- The common head of `read` and `load`: makes room for `n` bytes.
unfoldable pub reserve : SocketBuffer → ℕ → Outcome SocketBuffer
unfolding capacity block_multiple resize
reserve b n =
    if ltb (capacity b) n
    then (do
      let raw_sz = add_size (length b.storage) (sub_size n (capacity b))
      let grown = record b { storage = resize b.storage (block_multiple raw_sz) }
      require (leb n (capacity grown))
      ok grown)
    else ok b

-- Bytes written into the vector from `off` on.
unfoldable pub blit : List ℕ → ℕ → List ℕ → List ℕ
blit st off bytes = take off st ++ (bytes ++ drop (off + length bytes) st)

unfoldable pub append_bytes : SocketBuffer → List ℕ → SocketBuffer
unfolding blit
append_bytes b bytes = record b {
  storage = blit b.storage b.bytes_read bytes;
  bytes_read = add_size b.bytes_read (length bytes);
}

pub data SocketError : Type 0 where
  recv_error send_error : SocketError

-- What `recv` answers: -1, or the bytes that it stored.
pub data Received : Type 0 where
  recv_failed : Received
  received : List ℕ → Received

abbrev after_recv : SocketBuffer → Received → SocketBuffer × ℕ × Option SocketError
after_recv b recv_failed = (b, 0, some recv_error)
after_recv b (received bytes) = (append_bytes b bytes, length bytes, none)

-- `read( sockfd, bytes_to_read )`.
unfoldable pub read_n :
    SocketBuffer → ℕ → Received → Outcome (SocketBuffer × ℕ × Option SocketError)
unfolding reserve append_bytes
read_n b bytes_to_read answer = do grown ← reserve b bytes_to_read; ok (after_recv grown answer)

-- How many bytes `read( sockfd )` asks for.
unfoldable pub bytes_to_read : SocketBuffer → ℕ
unfolding message_size_set capacity size
bytes_to_read b =
    if not (message_size_set b) then capacity b else sub_size b.next_message_sz (size b)

unfoldable pub read : SocketBuffer → Received → Outcome (SocketBuffer × ℕ × Option SocketError)
unfolding read_n bytes_to_read
read b answer = read_n b (bytes_to_read b) answer

unfoldable pub load : SocketBuffer → List ℕ → Outcome (SocketBuffer × ℕ)
unfolding reserve append_bytes
load b input = do
  require (ltb 0 (length input))
  grown ← reserve b (length input)
  ok (append_bytes grown input, length input)

-- The front `n` bytes leave the buffer; it is reset when nothing is left.
unfoldable pub discard_front : SocketBuffer → ℕ → Outcome SocketBuffer
unfolding clear
discard_front b n =
    let rest = record b { bytes_written = add_size b.bytes_written n } in
    if rest.bytes_written == rest.bytes_read then clear rest else ok rest

-- What `send` answers: -1, or the number of bytes that it took.
pub data Sent : Type 0 where
  send_failed : Sent
  sent : ℕ → Sent

abbrev after_send : SocketBuffer → ℕ → Sent → Outcome (SocketBuffer × ℕ × Option SocketError)
after_send b n send_failed = ok (b, 0, some send_error)
after_send b n (sent k) = do
  require (k == n)
  rest ← discard_front (record b { bytes_parsed = sub_size b.bytes_parsed k }) k
  ok (rest, k, none)

-- `write( sockfd, bytes_to_write )`.
unfoldable pub write_n : SocketBuffer → ℕ → Sent → Outcome (SocketBuffer × ℕ × Option SocketError)
unfolding discard_front
write_n b bytes_to_write answer = do
  require (leb bytes_to_write b.bytes_parsed)
  after_send b bytes_to_write answer

unfoldable pub write : SocketBuffer → Sent → Outcome (SocketBuffer × ℕ × Option SocketError)
unfolding write_n
write b answer = write_n b b.bytes_parsed answer

-- The bytes between `data()` and `data() + size()`.
unfoldable pub contents : SocketBuffer → List ℕ
unfolding size
contents b = take (size b) (drop b.bytes_written b.storage)

-- `unload( output, n )`: the bytes that are copied out, and `n`.
unfoldable pub unload_to : SocketBuffer → ℕ → Outcome (SocketBuffer × List ℕ × ℕ)
unfolding size discard_front
unload_to b n = do
  require (leb n (size b))
  rest ← discard_front b n
  ok (rest, take n (drop b.bytes_written b.storage), n)

-- `unload( n )`.
unfoldable pub unload : SocketBuffer → ℕ → Outcome (SocketBuffer × ℕ)
unfolding size discard_front
unload b n = do require (leb n (size b)); rest ← discard_front b n; ok (rest, n)
