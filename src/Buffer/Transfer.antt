-- ===== src/Buffer/Transfer.antt =====
-- SocketBuffer: what each operation that moves bytes does to the buffered bytes.
use xtracepp.Base.{
  ℕ, ◌+◌, ◌-◌, ◌≤◌, ◌<◌, ◌≡◌, refl, sym, ap, ◌∙◌, inl, inr, ◌⊎◌, true, List, ◌++◌, arith, ◌==◌,
  lt→ltb, ==_iff, Bool-cases, length, take, drop, length-drop, length-take, none, ok, add_size,
  sub_size, size_mod, add_size_exact, sub_size_exact,
}
use xtracepp.Buffer.{
  SocketBuffer, block_sz, unknown_sz, size, blit, append_bytes, contents, received, read_n, load,
  discard_front,
}
use xtracepp.Buffer.Bytes.{length-blit, slice-blit}
use xtracepp.Buffer.Wellformed.{IsValid, size_exact, Reserved, reserve_lem}

-- `c` holds the bytes of `b` and then `bytes`; the other counters are those of `b`. The vector
-- may have grown to hold `n` more bytes.
pub record Appended (b : SocketBuffer) (n : ℕ) (bytes : List ℕ) (c : SocketBuffer) : Type 0 where
  pub valid : IsValid c
  pub appended : contents c ≡ contents b ++ bytes
  pub parsed_kept : c.bytes_parsed ≡ b.bytes_parsed
  pub message_kept : c.next_message_sz ≡ b.next_message_sz
  pub written_kept : c.bytes_written ≡ b.bytes_written
  pub growth : length c.storage < length b.storage + n + block_sz
  pub read_more : c.bytes_read ≡ b.bytes_read + length bytes

pub contents_exact :
    {b : SocketBuffer}
    → IsValid b
    → contents b ≡ take (b.bytes_read - b.bytes_written) (drop b.bytes_written b.storage)
unfolding contents
contents_exact {b} v = ap (λ (t : ℕ). take t (drop b.bytes_written b.storage)) (size_exact v)

pub length-contents :
    {b : SocketBuffer} → IsValid b → length (contents b) ≡ b.bytes_read - b.bytes_written
length-contents {b} v =
    ap length (contents_exact v)
    ∙ omega (
      arith,
      length-take (b.bytes_read - b.bytes_written) (drop b.bytes_written b.storage),
      length-drop b.bytes_written b.storage,
    )

append_bytes-Appended :
    (b : SocketBuffer) (n : ℕ) (st bytes : List ℕ)
    → IsValid b
    → Reserved b n st
    → length st < size_mod
    → length bytes ≤ n
    → Appended b n bytes (append_bytes (record b { storage = st }) bytes)
unfolding append_bytes
append_bytes-Appended b n st bytes v r fits few =
    let more : add_size b.bytes_read (length bytes) ≡ b.bytes_read + length bytes =
      add_size_exact b.bytes_read (length bytes) (omega (arith, r.room)) in
    let blit_length = length-blit st b.bytes_read bytes (omega (arith, r.room)) in
    let valid : IsValid (append_bytes (record b { storage = st }) bytes) = record {
      parsed_within = omega (arith, v.parsed_within);
      stored = omega (arith, r.room);
      bounded = omega arith;
      message_bounded = v.message_bounded;
      reset = λ e. omega (arith, v.reset (omega (arith, v.parsed_within)), v.parsed_within);
    } in
    record {
      valid = valid;
      appended =
          contents_exact valid
          ∙ ap
              (λ (t : ℕ).
                take (t - b.bytes_written) (drop b.bytes_written (blit st b.bytes_read bytes)))
              more
          ∙ slice-blit st b.bytes_written b.bytes_read bytes (omega (arith, v.parsed_within))
              (omega (arith, r.room))
          ∙ ap (λ (t : List ℕ). t ++ bytes)
              (r.kept b.bytes_written (omega (arith, v.parsed_within)) ∙ sym (contents_exact v));
      parsed_kept = refl;
      message_kept = refl;
      written_kept = refl;
      growth = omega (arith, r.limit);
      read_more = more;
    }

-- `load` copies its input behind the bytes that are there.
pub load_lem :
    (b : SocketBuffer) (input : List ℕ)
    → IsValid b
    → 0 < length input
    → length b.storage + length input + block_sz < size_mod
    → (c : SocketBuffer) × (load b input ≡ ok (c, length input)) × Appended b (length input) input c
unfolding load
load_lem b input v some_bytes fits =
    let (st, reserved, r) = reserve_lem b (length input) v fits in
    (
      append_bytes (record b { storage = st }) input,
      rw (lt→ltb 0 (length input) some_bytes, reserved),
      append_bytes-Appended b (length input) st input v r (omega (arith, r.limit)) (omega arith),
    )

-- `read` appends what `recv` stored, which is no more than it was asked for.
pub read_n_received :
    (b : SocketBuffer) (n : ℕ) (bytes : List ℕ)
    → IsValid b
    → length bytes ≤ n
    → length b.storage + n + block_sz < size_mod
    → (c : SocketBuffer) × (read_n b n (received bytes) ≡ ok (c, length bytes, none))
      × Appended b n bytes c
unfolding read_n
read_n_received b n bytes v few fits =
    let (st, reserved, r) = reserve_lem b n v fits in
    (
      append_bytes (record b { storage = st }) bytes,
      rw reserved,
      append_bytes-Appended b n st bytes v r (omega (arith, r.limit)) few,
    )

-- What is left when the front `n` bytes leave: nothing at all, or the rest.
abbrev pub Discarded : SocketBuffer → ℕ → SocketBuffer → Type 0
Discarded b n c =
    ((b.bytes_written + n ≡ b.bytes_read)
      × (c ≡ record b {
        bytes_read = 0;
        next_message_sz = unknown_sz;
        bytes_parsed = 0;
        bytes_written = 0;
      }))
    ⊎ ((b.bytes_written + n < b.bytes_read)
        × (c ≡ record b { bytes_written = b.bytes_written + n }))

pub discard_front_lem :
    (b : SocketBuffer) (n : ℕ)
    → b.bytes_written + n + b.bytes_parsed ≤ b.bytes_read
    → b.bytes_read < size_mod
    → (c : SocketBuffer) × (discard_front b n ≡ ok c) × Discarded b n c
unfolding discard_front size
discard_front_lem b n h k =
    let exact : add_size b.bytes_written n ≡ b.bytes_written + n =
      add_size_exact b.bytes_written n (omega arith) in
    elim (Bool-cases (b.bytes_written + n == b.bytes_read)) [
      | inl done ↦
          let at_end : b.bytes_written + n ≡ b.bytes_read =
            (==_iff (b.bytes_written + n) b.bytes_read).0 done in
          let drained : (b.bytes_parsed == sub_size b.bytes_read (b.bytes_written + n)) ≡ true =
            (==_iff _ _).1 (omega (arith, sub_size_exact b.bytes_read (b.bytes_written + n))) in
          (_, rw (exact, done, drained), inl (at_end, refl))
      | inr more ↦ (
        record b { bytes_written = b.bytes_written + n },
        rw (exact, more),
        inr (ground arith, refl),
      )
    ]
