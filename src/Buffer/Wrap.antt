-- ===== src/Buffer/Wrap.antt =====
-- SocketBuffer: `read( sockfd )` asks for `_next_message_sz - size()` bytes, and `size()` counts the
-- parsed bytes that wait to be written too.
use xtracepp.Base.{
  ℕ, ◌+◌, ◌-◌, ◌≤◌, ◌<◌, ◌≡◌, ap, ◌∙◌, true, false, arith, ltb, leb, ◌==◌, lt→ltb, le→leb, length,
  ok, aborted, add_size, sub_size, size_mod, sub_size_exact, sub_size_wraps,
}
use xtracepp.Buffer.{
  SocketBuffer, Received, block_sz, unknown_sz, capacity, message_size_set, block_multiple, resize,
  reserve, bytes_to_read, read_n, read,
}
use xtracepp.Buffer.Bytes.{length-resize}
use xtracepp.Buffer.Wellformed.{IsValid, size_exact, capacity_exact, block_multiple_bounds}

module _ (b : SocketBuffer) (v : IsValid b)
    (waiting : b.next_message_sz < b.bytes_read - b.bytes_written) where
  pub bytes_to_read_wraps :
      bytes_to_read b ≡ size_mod - (b.bytes_read - b.bytes_written - b.next_message_sz)
  unfolding bytes_to_read message_size_set
  bytes_to_read_wraps =
      let h : (b.next_message_sz == unknown_sz) ≡ false =
        ground (arith, v.parsed_within, v.bounded, v.stored) in
      rw h (
        ap (sub_size b.next_message_sz) (size_exact v)
        ∙ sub_size_wraps b.next_message_sz (b.bytes_read - b.bytes_written)
            (omega (arith, v.bounded, v.stored)) waiting
        ∙ omega (arith, v.bounded, v.stored))

  -- The size that `reserve` computes wraps back: it is that of the written bytes and the message.
  raw_size_wraps :
      add_size (length b.storage) (sub_size (bytes_to_read b) (capacity b))
      ≡ b.bytes_written + b.next_message_sz
  unfolding add_size sub_size
  raw_size_wraps =
      rw (bytes_to_read_wraps, capacity_exact v)
        (omega (arith, v.bounded, v.stored, v.parsed_within))

  abbrev new_size : ℕ
  new_size = block_multiple (b.bytes_written + b.next_message_sz)

  short_of_room : ltb (capacity b) (bytes_to_read b) ≡ true
  short_of_room =
      lt→ltb _ _
        (omega (arith, bytes_to_read_wraps, capacity_exact v, v.bounded, v.stored, v.parsed_within))

  abbrev shrunken : SocketBuffer
  shrunken = record b { storage = resize b.storage new_size }

  module _ (fits : length b.storage + block_sz < size_mod) where
    new_size_bounds :
        (b.bytes_written + b.next_message_sz ≤ new_size)
        × (new_size < b.bytes_written + b.next_message_sz + block_sz)
    new_size_bounds =
        let (low, high, _) =
          block_multiple_bounds (b.bytes_written + b.next_message_sz)
            (omega (arith, v.stored, v.parsed_within)) in
        (low, high)

    capacity-shrunken : capacity shrunken ≡ sub_size new_size b.bytes_read
    unfolding capacity
    capacity-shrunken = ap (λ (t : ℕ). sub_size t b.bytes_read) (length-resize b.storage new_size)

    assert_fails : b.bytes_read ≤ new_size → leb (bytes_to_read b) (capacity shrunken) ≡ false
    assert_fails h =
        let room : capacity shrunken ≡ new_size - b.bytes_read =
          capacity-shrunken
          ∙ sub_size_exact new_size b.bytes_read
              (omega (arith, new_size_bounds, v.stored, v.parsed_within)) h in
        let less : capacity shrunken < bytes_to_read b =
          omega (arith, room, bytes_to_read_wraps, new_size_bounds, v.stored, v.parsed_within) in
        ground (arith, less)

    assert_holds : new_size < b.bytes_read → leb (bytes_to_read b) (capacity shrunken) ≡ true
    assert_holds h =
        let room : capacity shrunken ≡ new_size + size_mod - b.bytes_read =
          capacity-shrunken
          ∙ sub_size_wraps new_size b.bytes_read (omega (arith, v.stored, v.bounded)) h in
        le→leb _ _
          (omega (arith, room, bytes_to_read_wraps, new_size_bounds, v.stored, v.parsed_within))

    -- Where the shrunken vector still holds all that was read, the `assert` of `read` fails. Where
    -- it does not, the `assert` holds, since the capacity wraps as well, and the vector that `recv`
    -- then writes into at `_bytes_read` ends before that place.
    pub read_short_message :
        (answer : Received)
        → (b.bytes_read ≤ new_size → read b answer ≡ aborted)
          × (new_size < b.bytes_read → reserve b (bytes_to_read b) ≡ ok shrunken)
    unfolding read read_n reserve
    read_short_message answer = (
      λ h. rw (short_of_room, raw_size_wraps, assert_fails h),
      λ h. rw (short_of_room, raw_size_wraps, assert_holds h),
    )
