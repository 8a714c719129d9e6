-- ===== src/Parser/Dispatch/Requests.antt =====
-- `_logRequest` of src/X11ProtocolParser.cpp with the functions that it calls: it takes whole requests.
use xtracepp.Base.{
  ℕ, ◌%◌, ◌≤◌, ◌≡◌, ◌≢◌, refl, sym, ap, ◌∙◌, ◌⊎◌, inl, inr, Bool, not, List, [], arith, leb, ◌==◌,
  ==_iff, Bool-cases, Option, none, some, Outcome, ok, >>=-eq-ok, require-eq-ok, ok-injective, find,
}
use xtracepp.Wire.ByteOrder.{field16}
use xtracepp.Session.{Connection, register_request}
use xtracepp.Settings.{Choices}
use xtracepp.Parser.Fields.{u8}
use xtracepp.Parser.Messages.{order_of, log_request}
use xtracepp.Parser.Framing.Requests.{request_size}
use xtracepp.Protocol.{sizeof_struct}
use xtracepp.Protocol.Requests.Properties.{intern_atom}
use xtracepp.Protocol.Requests.Control.{query_extension}
use xtracepp.Parser.Requests.{RequestParser, length_of_short}
use xtracepp.Parser.Requests.Properties.{parse_intern_atom}
use xtracepp.Parser.Requests.Control.{parse_query_extension}
use xtracepp.Parser.Requests.Whole.{IsWhole, parse_any-IsWhole}
use xtracepp.Parser.Requests.Whole.Suffixes.{no_suffix-IsAligned}
use xtracepp.Parser.Requests.Whole.Properties.{parse_intern_atom-IsWhole}
use xtracepp.Parser.Requests.Whole.Control.{parse_query_extension-IsWhole}
use xtracepp.Parser.Requests.Whole.Core.{parse_request-IsWhole, parse_unknown_request-IsWhole}
use xtracepp.Parser.Replies.Core.{is_core_request}
use xtracepp.Parser.Events.{event_at}
use xtracepp.Parser.Stash.{Extension, big_requests, ParserState}
use xtracepp.Parser.Extensions.{
  StateRequest, stash_name, intern_atom_request, query_extension_request, parse_extension_request,
  parse_big_req_enable, extension_request,
}
use xtracepp.Parser.Dispatch.{
  unchanged_request, core_request, extension_request_to, message_parsers,
}

module _ (little_endian : Bool) where
  abbrev TakesWhole : StateRequest → Type 0
  TakesWhole parser =
      (p : ParserState) (conn : Connection) (d : List ℕ) (sz : ℕ) (q : ParserState)
      (after : Connection) (n : ℕ)
      → parser p conn d sz ≡ ok (q, after, n)
      → (n % 4 ≡ 0)
        × (field16 little_endian d 2 ≢ 0 → n ≡ request_size (order_of little_endian conn) d)

  counted :
      {p q : ParserState} {conn after : Connection} {m n : ℕ}
      → ◌≡◌ {A = Outcome (ParserState × Connection × ℕ)} (ok (p, conn, m)) (ok (q, after, n))
      → m ≡ n
  counted same = ap (λ (r : ParserState × Connection × ℕ). r.2) (ok-injective same)

  unchanged_request-TakesWhole :
      (parser : RequestParser)
      → IsWhole little_endian parser
      → TakesWhole (unchanged_request parser)
  unchanged_request-TakesWhole parser whole p conn d sz q after n e =
      let (m, e0, e1) = >>=-eq-ok (parser conn d sz) _ e in
      whole conn d sz n (e0 ∙ ap ok (counted e1))

  intern_atom_request-TakesWhole : TakesWhole (intern_atom_request little_endian)
  unfolding intern_atom_request
  intern_atom_request-TakesWhole p conn d sz q after n e =
      let (m, e0, e1) = >>=-eq-ok (parse_intern_atom little_endian conn d sz) _ e in
      let (r, _, e2) = >>=-eq-ok (stash_name little_endian intern_atom p conn d sz) _ e1 in
      parse_intern_atom-IsWhole little_endian conn d sz n (e0 ∙ ap ok (counted e2))

  query_extension_request-TakesWhole : TakesWhole (query_extension_request little_endian)
  unfolding query_extension_request
  query_extension_request-TakesWhole p conn d sz q after n e =
      let (m, e0, e1) = >>=-eq-ok (parse_query_extension little_endian conn d sz) _ e in
      let (r, _, e2) = >>=-eq-ok (stash_name little_endian query_extension p conn d sz) _ e1 in
      parse_query_extension-IsWhole little_endian conn d sz n (e0 ∙ ap ok (counted e2))

  parse_big_req_enable-IsWhole : IsWhole little_endian (parse_big_req_enable little_endian)
  unfolding parse_big_req_enable parse_extension_request sizeof_struct
  parse_big_req_enable-IsWhole conn d sz n e =
      let (_, e1) = require-eq-ok (leb 2 sz) _ e in
      let (_, e2) = require-eq-ok (u8 (order_of little_endian conn) d 1 == 0) _ e1 in
      parse_any-IsWhole little_endian extension_request
        (record { two_bytes = refl; aligned = refl }) _ no_suffix-IsAligned length_of_short [] conn
        d sz n e2

  core_request-TakesWhole : (major : ℕ) → TakesWhole (core_request little_endian major)
  unfolding core_request
  core_request-TakesWhole major = elim (Bool-cases (major == 16)) [
    | inl interns ↦ rw (interns, core_request) (intern_atom_request-TakesWhole)
    | inr other ↦ elim (Bool-cases (major == 98)) [
      | inl queries ↦
          rw (other, core_request) (rw (queries, core_request) query_extension_request-TakesWhole)
      | inr rest ↦
          rw (other, core_request)
            (rw (rest, core_request)
              (unchanged_request-TakesWhole _
                (parse_request-IsWhole little_endian (event_at little_endian) major)))
    ]
  ]

  extension_request_to-TakesWhole :
      (extension : Option Extension) (minor : ℕ)
      → TakesWhole (extension_request_to little_endian extension minor)
  unfolding extension_request_to
  extension_request_to-TakesWhole none minor =
      unchanged_request-TakesWhole _
        (parse_unknown_request-IsWhole little_endian (event_at little_endian))
  extension_request_to-TakesWhole (some big_requests) minor = elim (Bool-cases (minor == 0)) [
    | inl enables ↦
        rw (enables, extension_request_to)
          (unchanged_request-TakesWhole _ parse_big_req_enable-IsWhole)
    | inr other ↦
        rw (other, extension_request_to)
          (unchanged_request-TakesWhole _
            (parse_unknown_request-IsWhole little_endian (event_at little_endian)))
  ]

  request-TakesWhole :
      (choices : Choices) (major minor : ℕ)
      → TakesWhole ((message_parsers little_endian choices).request major minor)
  unfolding message_parsers
  request-TakesWhole choices major minor p conn d sz q after n e =
      elim (Bool-cases (is_core_request major)) [
        | inl core ↦
            core_request-TakesWhole major p conn d sz q after n (rw (core, message_parsers) at e)
        | inr other ↦
            extension_request_to-TakesWhole (find major p.major_opcodes) minor p conn d sz q after n
              (rw (other, message_parsers) at e)
      ]

  -- With the functions that it calls, `_logRequest` takes a whole number of units of four bytes, which are
  -- there, and with a short length the whole request that its header announces.
  pub log_request-whole :
      (choices : Choices) (p q : ParserState) (conn after : Connection) (d : List ℕ) (sz n : ℕ)
      → log_request (message_parsers little_endian choices) little_endian p conn d sz
        ≡ ok (q, after, n)
      → (n % 4 ≡ 0)
        × (n ≤ sz)
        × ((field16 little_endian d 2 ≡ 0) ⊎ (n ≡ request_size (order_of little_endian conn) d))
  unfolding log_request register_request
  log_request-whole choices p q conn after d sz n e =
      let o = order_of little_endian conn in
      let registered = (register_request conn (u8 o d 0) 0).0 in
      let (_, e1) = require-eq-ok (leb 4 sz) _ e in
      let ((r, before, m), taken, e2) =
        >>=-eq-ok
          ((message_parsers little_endian choices).request (u8 o d 0) (u8 o d 1) p registered d sz)
          _ e1 in
      let (_, e3) = require-eq-ok (not (m == 0)) _ e2 in
      let (room, e4) = require-eq-ok (leb m sz) _ e3 in
      let same : m ≡ n = counted e4 in
      let (aligned, sized) =
        request-TakesWhole choices (u8 o d 0) (u8 o d 1) p registered d sz r before m taken in
      (
        rw (← same) aligned,
        ground arith,
        elim (Bool-cases (field16 little_endian d 2 == 0)) [
          | inl long ↦ inl ((==_iff _ _).0 long)
          | inr short ↦ inr (sym same ∙ sized (λ zero. grind arith))
        ],
      )
