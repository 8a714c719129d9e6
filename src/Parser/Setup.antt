-- ===== src/Parser/Setup.antt =====
-- src/X11ProtocolParser__logConnectionSetup.cpp: the messages that open a connection. A version of
-- the protocol that is not 11.0 ends the process. `sz - bytes_parsed` is a `size_t`.
use xtracepp.Base.{
  ℕ, ◌+◌, ◌-◌, Bool, true, false, ◌&&◌, ◌||◌, List, leb, ◌==◌, if◌then◌else◌, drop, Outcome, ok,
  exited, require, ◌>>=◌, ◌>>◌, sub_size,
}
use xtracepp.Wire.Alignment.{pad, units, aligned_size}
use xtracepp.Wire.ByteOrder.{byte_at, byteswap_for}
use xtracepp.Session.{Status, open_, failed, authentication}
use xtracepp.Parser.Fields.{Order, u8, u16}
use xtracepp.Parser.ListMembers.{parse_fixed, parse_list_of, parse_screen}

abbrev pub bool_eq : Bool → Bool → Bool
bool_eq true b = b
bool_eq false true = false
bool_eq false false = true

-- `Initiation::MSBFIRST` and `Initiation::LSBFIRST`.
abbrev pub known_order : ℕ → Bool
known_order b = b == b'B' || b == b'l'

unfoldable pub log_initiation : Order → List ℕ → ℕ → Outcome ℕ
unfolding byteswap_for u16 parse_list_of parse_fixed
log_initiation o d sz = do
  require (leb 12 sz)
  require (known_order (byte_at d 0))
  require (bool_eq o.byteswap (byteswap_for o.little_endian (byte_at d 0)))
  let name_len = u16 o d 6
  let data_len = u16 o d 8
  authorization ← parse_list_of (parse_fixed 1) data_len (drop (12 + pad name_len) d) data_len
  require (12 + pad name_len + pad data_len == sz)
  ok (12 + pad name_len + pad data_len)

unfoldable pub log_refusal : Order → List ℕ → ℕ → Outcome ℕ
unfolding u8 u16
log_refusal o d sz = do
  require (leb 8 sz)
  require (u8 o d 0 == 0)
  let bytes_parsed = 8 + pad (u8 o d 1)
  require (u16 o d 6 == units (bytes_parsed - 8))
  ok bytes_parsed

unfoldable pub log_further_authentication : Order → List ℕ → ℕ → Outcome ℕ
unfolding u8 u16
log_further_authentication o d sz = do
  require (leb 8 sz)
  require (u8 o d 0 == 2)
  let bytes_parsed = 8 + aligned_size (u16 o d 6)
  require (u16 o d 6 == units (bytes_parsed - 8))
  ok bytes_parsed

unfoldable pub log_acceptance : Order → List ℕ → ℕ → Outcome ℕ
unfolding u8 u16 parse_list_of parse_fixed parse_screen
log_acceptance o d sz = do
  require (leb 32 sz)
  if u16 o d 2 == 11 && u16 o d 4 == 0
      then (do
        require (u8 o d 0 == 1)
        let before_formats = 8 + 32 + pad (u16 o d 24)
        formats ←
            parse_list_of (parse_fixed 8) (u8 o d 29) (drop before_formats d)
              (sub_size sz before_formats)
        let before_roots = before_formats + formats
        roots ←
            parse_list_of (parse_screen o) (u8 o d 28) (drop before_roots d)
              (sub_size sz before_roots)
        let bytes_parsed = before_roots + roots
        require (u16 o d 6 == units (bytes_parsed - 8))
        ok bytes_parsed)
      else exited

-- `InitResponse`: the answer of the server, and the state of the connection after it.
unfoldable pub log_init_response : Order → Status → List ℕ → ℕ → Outcome (Status × ℕ)
unfolding u8 log_refusal log_further_authentication log_acceptance
log_init_response o status d sz = do
  require (leb 8 sz)
  let success = u8 o d 0
  (next, bytes_parsed) ←
      if success == 0
      then (do n ← log_refusal o d sz; ok (failed, n))
      else if success == 2
      then (do n ← log_further_authentication o d sz; ok (authentication, n))
      else if success == 1
      then (do n ← log_acceptance o d sz; ok (open_, n))
      else ok (status, 0)
  require (leb bytes_parsed sz)
  ok (next, bytes_parsed)
