-- ===== src/Tests/Sessions.antt =====
-- Connections at concrete inputs.
use xtracepp.Base.{◌≡◌, false, [], ◌∷◌, some}
use xtracepp.Session.{
  Connection, RequestOpcodes, new_connection, enable_extension, disable_extension,
  extension_enabled, big_requests_name,
}
use xtracepp.Session.Extensions.{known, extension_enabled-toggles}

abbrev fresh : Connection
fresh = (new_connection 4).0

abbrev create_gc : RequestOpcodes
create_gc = record { major = 55; minor = 0 }

-- The next number is 1, and 1 is still open.
abbrev wrapped : Connection
wrapped = record fresh { sequence = 65535; request_opcodes_by_seq_num = (0, create_gc) ∷ [] }

extension_enabled-toggles_example :
    (extension_enabled (enable_extension fresh big_requests_name) big_requests_name
      ≡ known big_requests_name fresh.extensions)
    × (extension_enabled (disable_extension fresh big_requests_name) big_requests_name ≡ false)
extension_enabled-toggles_example =
    extension_enabled-toggles fresh big_requests_name big_requests_name

abbrev connected : Connection
connected = record fresh { client_fd = some 5; server_fd = some 6 }
