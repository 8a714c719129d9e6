-- ===== src/Tests/Buffers.antt =====
-- SocketBuffer, the alignment and the byte order at concrete inputs.
use xtracepp.Base.{
  ℕ, ◌≤◌, ◌<◌, ◌≡◌, refl, inl, true, false, List, [], ◌∷◌, arith, none, ok, aborted, sub_size,
}
use xtracepp.Buffer.{
  SocketBuffer, unknown_sz, size, contents, read_ready, write_ready, is_empty, incomplete_message,
  unparsed, read_n, received, write_n, sent, reserve, read, bytes_to_read, block_multiple, resize,
}
use xtracepp.Buffer.Wellformed.{IsValid, reserve_lem, Reserved}
use xtracepp.Buffer.Transfer.{Appended, read_n_received}
use xtracepp.Buffer.Removal.{Removed, write_n_lem}
use xtracepp.Buffer.Stream.{Operation, loads, sizes, marks, sends, view, queue}
use xtracepp.Buffer.Refinement.{operate_all, queue_all, operate_all-queue_all}
use xtracepp.Buffer.Readiness.{settled_ready}
use xtracepp.Buffer.Wrap.{read_short_message}
use xtracepp.Wire.ByteOrder.{ordered32, field32, byteswap_for, msb32, ordered32-field32}
use xtracepp.Parser.Fields.{Order}

-- Four bytes, two of them parsed, in a vector of eight.
abbrev four : SocketBuffer
four = record {
  storage = 10 ∷ 11 ∷ 12 ∷ 13 ∷ 0 ∷ 0 ∷ 0 ∷ 0 ∷ [];
  bytes_read = 4;
  bytes_parsed = 2;
  bytes_written = 0;
  next_message_sz = 2;
}

abbrev none_yet : SocketBuffer
none_yet = record {
  storage = 0 ∷ 0 ∷ 0 ∷ 0 ∷ [];
  bytes_read = 0;
  bytes_parsed = 0;
  bytes_written = 0;
  next_message_sz = unknown_sz;
}

abbrev four_valid : IsValid four
four_valid = record {
  parsed_within = omega arith;
  stored = omega arith;
  bounded = omega arith;
  message_bounded = omega arith;
  reset = λ e. absurd (omega arith);
}

abbrev none_yet_valid : IsValid none_yet
none_yet_valid = record {
  parsed_within = omega arith;
  stored = omega arith;
  bounded = omega arith;
  message_bounded = omega arith;
  reset = λ e. refl;
}

-- A message of two bytes is loaded, parsed and sent, and one more byte waits.
abbrev exchange : List Operation
exchange = loads (7 ∷ 8 ∷ 9 ∷ []) ∷ sizes 2 ∷ marks ∷ sends 2 ∷ []

operate_all-queue_all_example :
    (c : SocketBuffer) × (operate_all none_yet exchange ≡ ok (c, 7 ∷ 8 ∷ []))
    × IsValid c
    × (view c ≡ record { bytes = 9 ∷ []; parsed = 0; message = none })
unfolding queue_all queue contents size sub_size
operate_all-queue_all_example =
    operate_all-queue_all exchange none_yet (record { bytes = 9 ∷ []; parsed = 0; message = none })
      (7 ∷ 8 ∷ []) none_yet_valid (omega arith) refl

settled_ready_example : write_ready (record four { bytes_parsed = 4 }) ≡ true
unfolding unparsed size read_ready is_empty incomplete_message sub_size
settled_ready_example =
    settled_ready (record four { bytes_parsed = 4 })
      (record {
        parsed_within = omega arith;
        stored = omega arith;
        bounded = omega arith;
        message_bounded = omega arith;
        reset = λ e. absurd (omega arith);
      })
      (inl refl) refl

write_n_lem_example :
    (c : SocketBuffer) × (write_n four 1 (sent 1) ≡ ok (c, 1, none))
    × Removed four 1 1 c
    × (unparsed c ≡ unparsed four)
write_n_lem_example = write_n_lem four 1 four_valid (omega arith)

read_n_received_example :
    (c : SocketBuffer) × (read_n four 9 (received (5 ∷ [])) ≡ ok (c, 1, none))
    × Appended four 9 (5 ∷ []) c
read_n_received_example = read_n_received four 9 (5 ∷ []) four_valid (omega arith) (omega arith)

abbrev answer_left : SocketBuffer
answer_left = record four { bytes_parsed = 0 }

reserve_lem_example :
    (st : List ℕ) × (reserve four 9 ≡ ok (record four { storage = st })) × Reserved four 9 st
reserve_lem_example = reserve_lem four 9 four_valid (omega arith)

read_short_message_example :
    (4 ≤ block_multiple 2 → read four (received []) ≡ aborted)
    × (block_multiple 2 < 4
        → reserve four (bytes_to_read four)
          ≡ ok (record four { storage = resize four.storage (block_multiple 2) }))
read_short_message_example =
    read_short_message four four_valid (omega arith) (omega arith) (received [])

abbrev memory : List ℕ
memory = 1 ∷ 2 ∷ 3 ∷ 4 ∷ []

ordered32-field32_example :
    ordered32 (field32 true memory 0) (byteswap_for true b'B') ≡ msb32 memory 0
ordered32-field32_example = ordered32-field32 true b'B' memory 0

abbrev host : Order
host = record { little_endian = true; byteswap = false }
