-- ===== src/Tests/Polling.antt =====
-- A pass over polled sockets, and a new connection, at concrete inputs.
use xtracepp.Base.{refl, inl, true, [], ◌∷◌, arith, some, ok, sub_size}
use xtracepp.Buffer.{received, sent, bytes_to_read, message_size_set, capacity, unparsed, size}
use xtracepp.Parser.Messages.{MessageParsers}
use xtracepp.Proxy.Polling.{Sockets, process_client_side, process_server_side}
use xtracepp.Proxy.Polling.Sides.{IsKept, CanRead, SideResult}
use xtracepp.Proxy.Polling.Passes.{process_client_side-BothKept, process_server_side-BothKept}
use xtracepp.Tests.Proxies.{drained, drained_valid, proxied, serving}

abbrev message_parsers : MessageParsers (Unit {0})
message_parsers = record {
  request = λ major minor p conn d sz. ok (p, conn, sz);
  reply = λ major minor p conn d sz. ok (p, conn, d, sz);
  event = λ code p conn d sz. ok sz;
  error = λ code p conn d sz. ok sz;
}

-- Every socket has a GetInputFocus request to read; a new client is 7 and its server 8.
abbrev sockets : Sockets
sockets = record {
  recv = λ fd n. received (43 ∷ 0 ∷ 1 ∷ 0 ∷ []);
  send = λ fd n. sent n;
  closes = λ fd. true;
  accepted = some 7;
  connected = some 8;
}

drained-IsKept : IsKept drained
unfolding unparsed size sub_size
drained-IsKept = record { valid = drained_valid; settled = inl refl; some_bytes = omega arith }

drained-CanRead : CanRead drained
unfolding bytes_to_read message_size_set capacity sub_size
drained-CanRead = record { in_order = omega arith; room = omega arith }

process_client_side-BothKept_example :
    SideResult (process_client_side message_parsers true sockets serving tt proxied 5)
unfolding bytes_to_read message_size_set capacity sub_size
process_client_side-BothKept_example =
    process_client_side-BothKept message_parsers true sockets serving tt proxied 5
      (drained-IsKept, drained-IsKept) drained-CanRead (omega arith)

process_server_side-BothKept_example :
    SideResult (process_server_side message_parsers true sockets serving tt proxied 6)
unfolding bytes_to_read message_size_set capacity sub_size
process_server_side-BothKept_example =
    process_server_side-BothKept message_parsers true sockets serving tt proxied 6
      (drained-IsKept, drained-IsKept) drained-CanRead (omega arith)
