-- ===== src/Buffer/Readiness.antt =====
-- SocketBuffer: `readReady` and `writeReady` between two calls of the parser.
use xtracepp.Base.{◌≡◌, ◌⊎◌, true, false, arith}
use xtracepp.Buffer.{SocketBuffer, unparsed, incomplete_message, is_empty, read_ready, write_ready}
use xtracepp.Buffer.Wellformed.{IsValid, unparsed_exact}

-- Where the parser stops: nothing is left to parse, or the last message is incomplete.
abbrev pub IsSettled : SocketBuffer → Type 0
IsSettled b = (unparsed b ≡ 0) ⊎ (incomplete_message b ≡ true)

-- Of a settled buffer, what cannot be read into can be written from.
pub settled_ready :
    (b : SocketBuffer) → IsValid b → IsSettled b → read_ready b ≡ false → write_ready b ≡ true
unfolding read_ready write_ready is_empty
settled_ready b v s e = ground (arith, unparsed_exact v, v.parsed_within, v.reset)
