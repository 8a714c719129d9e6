-- ===== src/Parser/Extensions/Lasting.antt =====
-- What the replies to InternAtom and BigReqEnable leave behind, in
-- src/X11ProtocolParser__parseReply.cpp and src/extensions/big_requests.
use xtracepp.Base.{
  ℕ, ◌≡◌, ◌≢◌, refl, sym, ap, ◌∙◌, Bool, true, not, List, some, ok, aborted, >>=-eq-ok,
  require-eq-ok, ok-injective,
}
use xtracepp.Session.{Connection, big_requests_name, extension_enabled, enable_extension}
use xtracepp.Session.Extensions.{known, extension_enabled-toggles}
use xtracepp.Parser.Fields.{u16, u32}
use xtracepp.Parser.Messages.{order_of}
use xtracepp.Parser.Replies.Windows.{parse_intern_atom_reply}
use xtracepp.Parser.Stash.{View, ParserState, find_stashed, stash_string}
use xtracepp.Parser.Extensions.{
  intern_atom_reply_changes, parse_big_req_enable_reply, big_req_enable_reply_changes,
}

-- A reply to InternAtom that names no atom leaves the string of its request in the stash, so that the
-- next request with that sequence number that stashes a string stops the process.
pub intern_atom_reply_changes-none :
    (little_endian : Bool) (p q : ParserState) (conn after : Connection) (d sent : List ℕ)
    (sz n : ℕ) (old new : View)
    → u32 (order_of little_endian conn) d 8 ≡ 0
    → find_stashed conn.id (u16 (order_of little_endian conn) d 2) p.stashed_strings ≡ some old
    → intern_atom_reply_changes little_endian p conn d sz ≡ ok (q, after, sent, n)
    → stash_string q conn.id (u16 (order_of little_endian conn) d 2) new ≡ aborted
unfolding intern_atom_reply_changes stash_string
intern_atom_reply_changes-none little_endian p q conn after d sent sz n old new none there e =
    let (m, _, e1) = >>=-eq-ok (parse_intern_atom_reply little_endian conn d sz) _ e in
    let same = ok-injective (rw none at e1) in
    let kept : p ≡ q = ap (λ (r : ParserState × Connection × List ℕ × ℕ). r.0) same in
    rw (← kept) (rw there refl)

-- Once a reply to BigReqEnable is accepted on a connection that knows the extension, no other one is:
-- its assert fails.
pub big_req_enable_reply_changes-again :
    (little_endian : Bool) (p q p' : ParserState) (conn after : Connection) (d sent d' : List ℕ)
    (sz n sz' : ℕ) (r : ParserState × Connection × List ℕ × ℕ)
    → known big_requests_name conn.extensions ≡ true
    → big_req_enable_reply_changes little_endian p conn d sz ≡ ok (q, after, sent, n)
    → big_req_enable_reply_changes little_endian p' after d' sz' ≢ ok r
unfolding big_req_enable_reply_changes
big_req_enable_reply_changes-again little_endian p q p' conn after d sent d' sz n sz' r knows e
      again =
    let (m, _, e1) = >>=-eq-ok (parse_big_req_enable_reply little_endian conn d sz) _ e in
    let (_, e2) = require-eq-ok (not (extension_enabled conn big_requests_name)) _ e1 in
    let same : enable_extension conn big_requests_name ≡ after =
      ap (λ (s : ParserState × Connection × List ℕ × ℕ). s.1) (ok-injective e2) in
    let enabled : extension_enabled after big_requests_name ≡ true =
      rw (← same)
        ((extension_enabled-toggles conn big_requests_name big_requests_name).0 ∙ knows) in
    let (m', _, e3) = >>=-eq-ok (parse_big_req_enable_reply little_endian after d' sz') _ again in
    let (disabled, _) = require-eq-ok (not (extension_enabled after big_requests_name)) _ e3 in
    let wrong : not true ≡ true = sym (ap not enabled) ∙ disabled in cc
