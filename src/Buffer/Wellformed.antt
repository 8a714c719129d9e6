-- ===== src/Buffer/Wellformed.antt =====
-- SocketBuffer: the invariant of its four counters, and what the size computations give under it.
use xtracepp.Base.{
  ℕ, ◌+◌, ◌-◌, ◌%◌, ◌≤◌, ◌<◌, ◌≡◌, refl, ap, ◌∙◌, inl, inr, List, arith, ltb, ltb→lt, le→leb,
  Bool-cases, length, take, drop, replicate, drop-append_le, take-append_le, length-drop, ok,
  add_size, sub_size, size_mod, add_size_exact, sub_size_exact,
}
use xtracepp.Buffer.{
  SocketBuffer, block_sz, new_buffer, size, unparsed, capacity, resize, block_multiple, reserve,
}
use xtracepp.Buffer.Bytes.{length-resize, resize_grows}

-- The counters stand in order within the vector, whose length fits a `size_t`, and a buffer from
-- which everything was written is reset.
pub record IsValid (b : SocketBuffer) : Type 0 where
  pub parsed_within : b.bytes_written + b.bytes_parsed ≤ b.bytes_read
  pub stored : b.bytes_read ≤ length b.storage
  pub bounded : length b.storage < size_mod
  pub message_bounded : b.next_message_sz < size_mod
  pub reset : b.bytes_written ≡ b.bytes_read → b.bytes_read ≡ 0

pub new_buffer-IsValid : IsValid new_buffer
unfolding new_buffer
new_buffer-IsValid = omega arith

module _ {b : SocketBuffer} (v : IsValid b) where
  pub size_exact : size b ≡ b.bytes_read - b.bytes_written
  unfolding size
  size_exact = sub_size_exact b.bytes_read b.bytes_written (omega arith) (omega arith)

  pub unparsed_exact : unparsed b ≡ b.bytes_read - b.bytes_written - b.bytes_parsed
  unfolding unparsed
  unparsed_exact =
      ap (λ (t : ℕ). sub_size t b.bytes_parsed) size_exact
      ∙ sub_size_exact (b.bytes_read - b.bytes_written) b.bytes_parsed (omega arith) (omega arith)

  pub capacity_exact : capacity b ≡ length b.storage - b.bytes_read
  unfolding capacity
  capacity_exact = sub_size_exact (length b.storage) b.bytes_read (omega arith) (omega arith)

-- The least multiple of the block size from `raw_sz` on.
pub block_multiple_bounds :
    (raw_sz : ℕ)
    → raw_sz + block_sz < size_mod
    → (raw_sz ≤ block_multiple raw_sz)
      × (block_multiple raw_sz < raw_sz + block_sz)
      × (block_multiple raw_sz % block_sz ≡ 0)
unfolding block_multiple add_size
block_multiple_bounds raw_sz h = (omega arith, omega arith, omega arith)

-- `reserve` changes the vector alone: it holds `n` more bytes, and keeps those before `_bytes_read`.
pub record Reserved (b : SocketBuffer) (n : ℕ) (st : List ℕ) : Type 0 where
  pub room : b.bytes_read + n ≤ length st
  pub grown : length b.storage ≤ length st
  pub limit : length st < length b.storage + n + block_sz
  pub kept :
      (lo : ℕ)
      → lo ≤ b.bytes_read
      → take (b.bytes_read - lo) (drop lo st) ≡ take (b.bytes_read - lo) (drop lo b.storage)

slice-resize :
    (st : List ℕ) (lo hi n : ℕ)
    → lo ≤ hi
    → hi ≤ length st
    → length st ≤ n
    → take (hi - lo) (drop lo (resize st n)) ≡ take (hi - lo) (drop lo st)
slice-resize st lo hi n h k m =
    let pad : List ℕ = replicate (n - length st) 0 in
    ap (λ (t : List ℕ). take (hi - lo) (drop lo t)) (resize_grows st n m)
    ∙ ap (λ (t : List ℕ). take (hi - lo) t) (drop-append_le lo st pad (omega arith))
    ∙ take-append_le (hi - lo) (drop lo st) pad (omega (arith, length-drop lo st))

-- Under the invariant `reserve` returns, as long as the new length fits a `size_t`.
pub reserve_lem :
    (b : SocketBuffer) (n : ℕ)
    → IsValid b
    → length b.storage + n + block_sz < size_mod
    → (st : List ℕ) × (reserve b n ≡ ok (record b { storage = st })) × Reserved b n st
unfolding reserve
reserve_lem b n v fits = elim (Bool-cases (ltb (capacity b) n)) [
  | inr roomy ↦ (
    b.storage,
    rw roomy,
    record {
      room = ground (arith, capacity_exact v);
      grown = omega arith;
      limit = omega arith;
      kept = λ lo _. refl;
    },
  )
  | inl short ↦
      let lacking : length b.storage - b.bytes_read < n =
        omega (arith, capacity_exact v, ltb→lt (capacity b) n short) in
      let raw_sz : ℕ = add_size (length b.storage) (sub_size n (capacity b)) in
      let raw_exact : raw_sz ≡ b.bytes_read + n =
        ap (λ (t : ℕ). add_size (length b.storage) (sub_size n t)) (capacity_exact v)
        ∙ ap (add_size (length b.storage)) (sub_size_exact n _ (omega arith) (omega arith))
        ∙ add_size_exact _ _ (omega arith)
        ∙ omega arith in
      let bounds = block_multiple_bounds raw_sz (omega arith) in
      let st : List ℕ = resize b.storage (block_multiple raw_sz) in
      let st_length = length-resize b.storage (block_multiple raw_sz) in
      let room : capacity (record b { storage = st }) ≡ block_multiple raw_sz - b.bytes_read =
        ap (λ (t : ℕ). sub_size t b.bytes_read) st_length
        ∙ sub_size_exact _ b.bytes_read (omega arith) (omega arith) in
      (
        st,
        rw (short, le→leb n (capacity (record b { storage = st })) (omega arith)),
        record {
          room = omega arith;
          grown = omega arith;
          limit = omega arith;
          kept = λ lo h. slice-resize b.storage lo b.bytes_read _ h v.stored (omega arith);
        },
      )
]
