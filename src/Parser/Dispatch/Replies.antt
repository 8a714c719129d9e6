-- ===== src/Parser/Dispatch/Replies.antt =====
-- `_logReply` of src/X11ProtocolParser.cpp with the functions that it calls: it takes whole replies.
use xtracepp.Base.{
  ℕ, ◌+◌, ◌%◌, ◌^◌, ◌≤◌, ◌≡◌, refl, sym, ap, ◌∙◌, ◌⊎◌, inl, inr, Bool, false, not, List, [], ◌∷◌,
  arith, leb, ◌==◌, ==_iff, if◌then◌else◌, Bool-cases, Option, none, some, Outcome, ok, >>=-eq-ok,
  require-eq-ok, ok-injective, find,
}
use xtracepp.Wire.Alignment.{aligned_size}
use xtracepp.Session.{
  Connection, RequestOpcodes, lookup_request, extension_enabled, big_requests_name,
}
use xtracepp.Settings.{Choices}
use xtracepp.Parser.Fields.{u8, u16, u32}
use xtracepp.Parser.Messages.{order_of, log_reply}
use xtracepp.Protocol.{sizeof_struct}
use xtracepp.Parser.Replies.{ReplyParser}
use xtracepp.Parser.Replies.Core.{is_core_request}
use xtracepp.Parser.Replies.Windows.{parse_intern_atom_reply}
use xtracepp.Parser.Replies.Control.{parse_query_extension_reply}
use xtracepp.Parser.Replies.Whole.{IsWholeReply, parse_reply-IsWhole}
use xtracepp.Parser.Replies.Suffixes.{nothing_more}
use xtracepp.Parser.Replies.Aligned.{nothing_more-IsAligned}
use xtracepp.Parser.Replies.Sized.Windows.{parse_intern_atom_reply-IsWhole}
use xtracepp.Parser.Replies.Sized.Control.{parse_query_extension_reply-IsWhole}
use xtracepp.Parser.Replies.Sized.{parse_reply_to-IsWhole, parse_unknown_reply-IsWhole}
use xtracepp.Parser.Stash.{Extension, big_requests, ParserState, unstash_string, read_view}
use xtracepp.Parser.Extensions.{
  StateReply, intern_atom_reply_changes, query_extension_reply_changes, name_denied, put_byte,
  big_req_enable_reply, parse_big_req_enable_reply, big_req_enable_reply_changes,
}
use xtracepp.Parser.Extensions.Denied.{enable_present-ok}
use xtracepp.Parser.Dispatch.{unchanged_reply, core_reply, extension_reply_to, message_parsers}

module _ (little_endian : Bool) where
  abbrev TakesWholeReply : StateReply → Type 0
  TakesWholeReply parser =
      (p : ParserState) (conn : Connection) (d : List ℕ) (sz : ℕ) (q : ParserState)
      (after : Connection) (sent : List ℕ) (n : ℕ)
      → parser p conn d sz ≡ ok (q, after, sent, n)
      → n ≡ (32 + aligned_size (u32 (order_of little_endian conn) d 4)) % 2 ^ 32

  reply_counted :
      {p q : ParserState} {conn after : Connection} {d sent : List ℕ} {m n : ℕ}
      → ◌≡◌ {A = Outcome (ParserState × Connection × List ℕ × ℕ)}
          (ok (p, conn, d, m))
          (ok (q, after, sent, n))
      → m ≡ n
  reply_counted same = ap (λ (r : ParserState × Connection × List ℕ × ℕ). r.3) (ok-injective same)

  unchanged_reply-TakesWholeReply :
      (parser : ReplyParser)
      → IsWholeReply little_endian parser
      → TakesWholeReply (unchanged_reply parser)
  unchanged_reply-TakesWholeReply parser whole p conn d sz q after sent n e =
      let (m, e0, e1) = >>=-eq-ok (parser conn d sz) _ e in
      whole conn d sz n (e0 ∙ ap ok (reply_counted e1))

  big_req_enable_reply-TakesWhole : TakesWholeReply (big_req_enable_reply_changes little_endian)
  unfolding big_req_enable_reply_changes parse_big_req_enable_reply sizeof_struct
  big_req_enable_reply-TakesWhole p conn d sz q after sent n e =
      let (m, e0, e1) = >>=-eq-ok (parse_big_req_enable_reply little_endian conn d sz) _ e in
      let (_, e2) = require-eq-ok (not (extension_enabled conn big_requests_name)) _ e1 in
      parse_reply-IsWhole little_endian big_req_enable_reply nothing_more
        ("maximum_request_length" ∷ []) refl nothing_more-IsAligned conn d sz n
        (e0 ∙ ap ok (reply_counted e2))

  intern_atom_reply-TakesWhole : TakesWholeReply (intern_atom_reply_changes little_endian)
  unfolding intern_atom_reply_changes
  intern_atom_reply-TakesWhole p conn d sz q after sent n e =
      let o = order_of little_endian conn in
      let (m, e0, e1) = >>=-eq-ok (parse_intern_atom_reply little_endian conn d sz) _ e in
      let same : m ≡ n = elim (Bool-cases (u32 o d 8 == 0)) [
        | inl none_ ↦ reply_counted (rw none_ at e1)
        | inr atom ↦
            let ((view, r), _, e2) =
              >>=-eq-ok (unstash_string p conn.id (u16 o d 2)) _ (rw atom at e1) in
            reply_counted e2
      ] in
      parse_intern_atom_reply-IsWhole little_endian conn d sz n (e0 ∙ ap ok same)

  query_extension_reply-TakesWhole :
      (choices : Choices) → TakesWholeReply (query_extension_reply_changes little_endian choices)
  unfolding query_extension_reply_changes
  query_extension_reply-TakesWhole choices p conn d sz q after sent n e =
      let (m, e0, e1) = >>=-eq-ok (parse_query_extension_reply little_endian conn d sz) _ e in
      let ((view, r), _, e2) =
        >>=-eq-ok (unstash_string p conn.id (u16 (order_of little_endian conn) d 2)) _ e1 in
      let name = read_view p.memory view in
      let (_, _, same) =
        enable_present-ok little_endian choices r conn name
          (if name_denied choices name then put_byte 8 0 d else d) m q after sent n e2 in
      parse_query_extension_reply-IsWhole little_endian conn d sz n (e0 ∙ ap ok (sym same))

  core_reply-TakesWhole :
      (choices : Choices) (major : ℕ)
      → (major == 117) ≡ false
      → TakesWholeReply (core_reply little_endian choices major)
  unfolding core_reply
  core_reply-TakesWhole choices major other = elim (Bool-cases (major == 16)) [
    | inl interns ↦ rw (interns, core_reply) intern_atom_reply-TakesWhole
    | inr not_16 ↦ elim (Bool-cases (major == 98)) [
      | inl queries ↦
          rw (not_16, core_reply)
            (rw (queries, core_reply) (query_extension_reply-TakesWhole choices))
      | inr rest ↦
          rw (not_16, core_reply)
            (rw (rest, core_reply)
              (unchanged_reply-TakesWholeReply _
                (parse_reply_to-IsWhole little_endian major other)))
    ]
  ]

  extension_reply_to-TakesWhole :
      (extension : Option Extension) (minor : ℕ)
      → TakesWholeReply (extension_reply_to little_endian extension minor)
  unfolding extension_reply_to
  extension_reply_to-TakesWhole none minor =
      unchanged_reply-TakesWholeReply _ (parse_unknown_reply-IsWhole little_endian)
  extension_reply_to-TakesWhole (some big_requests) minor = elim (Bool-cases (minor == 0)) [
    | inl enables ↦ rw (enables, extension_reply_to) big_req_enable_reply-TakesWhole
    | inr other ↦
        rw (other, extension_reply_to)
          (unchanged_reply-TakesWholeReply _ (parse_unknown_reply-IsWhole little_endian))
  ]

  reply-TakesWhole :
      (choices : Choices) (major minor : ℕ)
      → (major == 117) ≡ false
      → TakesWholeReply ((message_parsers little_endian choices).reply major minor)
  unfolding message_parsers
  reply-TakesWhole choices major minor other p conn d sz q after sent n e =
      elim (Bool-cases (is_core_request major)) [
        | inl core ↦
            core_reply-TakesWhole choices major other p conn d sz q after sent n
              (rw (core, message_parsers) at e)
        | inr not_core ↦
            extension_reply_to-TakesWhole (find major p.major_opcodes) minor p conn d sz q after
              sent n (rw (not_core, message_parsers) at e)
      ]

  -- With the functions that it calls, `_logReply` takes the whole reply that the header announces,
  -- counted in 32 bits, and its bytes are there; the request that it answers is open, and is not
  -- GetPointerMapping, of which nothing is said.
  pub log_reply-whole :
      (choices : Choices) (p q : ParserState) (conn after : Connection) (d sent : List ℕ) (sz n : ℕ)
      → log_reply (message_parsers little_endian choices) little_endian p conn d sz
        ≡ ok (q, after, sent, n)
      → (opcodes : RequestOpcodes) × (lookup_request conn (u16 (order_of little_endian conn) d 2)
          ≡ ok opcodes)
        × (n ≤ sz)
        × ((opcodes.major ≡ 117)
            ⊎ (n ≡ (32 + aligned_size (u32 (order_of little_endian conn) d 4)) % 2 ^ 32))
  unfolding log_reply
  log_reply-whole choices p q conn after d sent sz n e =
      let o = order_of little_endian conn in
      let (_, e1) = require-eq-ok (leb 32 sz) _ e in
      let (_, e2) = require-eq-ok (u8 o d 0 == 1) _ e1 in
      let (opcodes, open_, e3) = >>=-eq-ok (lookup_request conn (u16 o d 2)) _ e2 in
      let ((r, before, d', m), taken, e4) =
        >>=-eq-ok
          ((message_parsers little_endian choices).reply opcodes.major opcodes.minor p conn d sz) _
          e3 in
      let (_, e5) = require-eq-ok (not (m == 0)) _ e4 in
      let (room, e6) = require-eq-ok (leb m sz) _ e5 in
      let same : m ≡ n = reply_counted e6 in
      (
        opcodes,
        open_,
        ground arith,
        elim (Bool-cases (opcodes.major == 117)) [
          | inl mapping ↦ inl ((==_iff _ _).0 mapping)
          | inr other ↦ inr (
              sym same
              ∙ reply-TakesWhole choices opcodes.major opcodes.minor other p conn d sz r before d' m
                  taken)
        ],
      )
