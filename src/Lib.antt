-- ===== src/Lib.antt =====
-- xtracepp, a proxy between X11 clients and an X server that logs what they say to each other. The
-- proxy accepts a connection from each client, opens one to the server for it, and polls both
-- sockets. What it reads from one side goes into the buffer of that side; the parser cuts the buffered
-- bytes into messages, logs them and marks them as parsed; parsed bytes are written to the other side.
--
-- Files, and the code that they model (paths from the repository's root):
-- - Buffer: SocketBuffer of src/include/SocketBuffer.hpp and src/SocketBuffer.cpp. The record holds
--   the vector and its four counters; each method is a function of the same name in snake_case, where
--   read_n, write_n and unload_to are the overloads with more arguments. What recv and send answer
--   is an argument. Buffer/Stream holds the abstract queue of bytes.
-- - Wire: Alignment, little_endian and _ordered of src/include/X11ProtocolParser.hpp.
-- - Session: Connection of src/include/Connection.hpp and src/Connection.cpp, less the buffers, which
--   the framing loops take beside it.
-- - Protocol: the types of the fields (src/include/protocol/common_types.hpp: how many bytes, which bits have
--   to be 0) and the structs of the messages, in the order of the headers that declare them
--   (src/include/protocol/requests.hpp, events.hpp and errors.hpp).
-- - Parser: src/X11ProtocolParser.cpp (Framing for logClientMessages and logServerMessages, Messages for
--   _logRequest, _logReply, _logEvent and _logError), src/X11ProtocolParser__logConnectionSetup.cpp
--   (Setup) and src/X11ProtocolParser__parseListMember.cpp (ListMembers). Parsers keep what they
--   change, their asserts, and the number of bytes that they parse; the text that they print is left
--   out. Which members are formatted is kept, as formatting asserts on them; those that only the
--   option for verbose output shows have no assert. The framing loops and Messages take the functions
--   for the single messages as an argument, the record MessageParsers.
-- - Parser/Requests, Parser/Replies, Parser/Events and Parser/Errors: the functions of
--   src/X11ProtocolParser__parseRequest.cpp and its siblings for replies, events and errors, and the tables
--   of src/X11ProtocolParser__core_requests.cpp and its siblings. A function of the source that differs
--   from another in its struct, what follows the struct, and the members that it shows is one
--   generic function at these: parse_own, parse_reply, own_event, own_error.
-- - Parser/Stash, Parser/Extensions and Parser/Dispatch: the stash of strings, QueryExtension, InternAtom and
--   src/extensions, and message_parsers, the record MessageParsers of all these functions. A stashed
--   string is a view: an address and a length, read from what memory holds later.
-- - Proxy: src/ProxyX11Server.cpp and src/include/ProxyX11Server.hpp: the connections and the table of
--   polled sockets; Proxy/Polling for _processPolledSockets and _openConnection, with what the sockets
--   answer as an argument; Proxy/Authority for the entries of the authority file. An unordered map
--   is a list in the order in which a loop meets it.
-- - Settings: the options on extensions of src/Settings.cpp and src/include/Settings.hpp, as a list of the
--   options that getopt_long finds.
-- - Tests: runs at concrete inputs.
-- - Base: shared names, lists measured by native numbers, maps, size_t, and Outcome: a call returns,
--   aborts (a failed assert, or an exception that nothing catches), or leaves the process by exit.
--
-- Numbers are native; size_t is 64 bits wide and wraps around where the code adds and subtracts. A byte
-- is read modulo 256. The framing loops run on fuel, one more than the bytes in the buffer: each round
-- that goes on parses at least one byte. The reading of the authority file needs as much fuel as
-- there are entries.
--
-- Not modelled: the text of the log and the table of atoms that it names, the other options, display names,
-- the edit of the authority file, the clients that run before the queue, and the system calls
-- themselves.
pub mod Base
pub mod Wire
pub mod Buffer
pub mod Session
pub mod Protocol
pub mod Parser
pub mod Settings
pub mod Proxy
pub mod Tests
