-- ===== src/Parser/Closing.antt =====
-- src/X11ProtocolParser.cpp: which request a reply or an error belongs to, and when it is closed.
use xtracepp.Base.{
  ℕ, ◌≡◌, refl, sym, ap, ◌∙◌, ◌≢◌, Bool, true, false, not, ◌||◌, List, arith, ◌==◌, leb,
  if◌then◌else◌, Outcome, ok, aborted, require, ◌>>=◌, >>=-eq-ok, find-erase, ==_iff,
}
use xtracepp.Session.{
  Connection, RequestOpcodes, lookup_request, unregister_request, Status, unestablished, open_,
  failed, authentication,
}
use xtracepp.Parser.Fields.{Order, u8, u16}
use xtracepp.Parser.Setup.{
  log_init_response, log_refusal, log_acceptance, log_further_authentication,
}
use xtracepp.Parser.Messages.{MessageParsers, order_of, log_reply, log_error, list_fonts_with_info}
use xtracepp.Parser.Framing.{log_server, is_open}

-- Only its own number is closed.
lookup_request-unregister_request :
    (c : Connection) (s j : ℕ)
    → lookup_request (unregister_request c s) j ≡ (if s == j then aborted else lookup_request c j)
unfolding lookup_request unregister_request
lookup_request-unregister_request c s j =
    ground (arith, find-erase s j c.request_opcodes_by_seq_num)

is_open-eq : (t : Status) → require (is_open t) ≡ ok tt → t ≡ open_
is_open-eq open_ e = refl
is_open-eq Status.unestablished e = cc
is_open-eq Status.closed e = cc
is_open-eq Status.failed e = cc
is_open-eq Status.authentication e = cc

abbrev answers : Status → ℕ → Outcome (Status × ℕ)
answers status n = ok (status, n)

-- Only the success byte 1 makes the status open.
log_init_response_opens :
    (o : Order) (before : Status) (d : List ℕ) (sz : ℕ) (status : Status) (n : ℕ)
    → before ≡ unestablished
    → log_init_response o before d sz ≡ ok (status, n)
    → status ≡ open_
    → u8 o d 0 ≡ 1
unfolding log_init_response
log_init_response_opens o before d sz status n fresh e opened =
    let (_, _, a) = >>=-eq-ok (require (leb 8 sz)) _ e in
    let ((next, m), answered, b) = >>=-eq-ok _ _ a in
    let (_, _, ends) = >>=-eq-ok (require (leb m sz)) _ b in
    let same : next ≡ open_ = cc in
    by_success (u8 o d 0 == 0) (u8 o d 0 == 2) (u8 o d 0 == 1) next m refl answered same
  where
    by_success :
        (refused further accepted : Bool) (next : Status) (m : ℕ)
        → (u8 o d 0 == 1) ≡ accepted
        → (if refused
            then (log_refusal o d sz >>= answers failed)
            else if further
            then (log_further_authentication o d sz >>= answers authentication)
            else if accepted
            then (log_acceptance o d sz >>= answers open_)
            else ok (before, 0))
          ≡ ok (next, m)
        → next ≡ open_
        → u8 o d 0 ≡ 1
    by_success true further accepted next m is e f =
        let (_, _, g) = >>=-eq-ok (log_refusal o d sz) _ e in cc
    by_success false true accepted next m is e f =
        let (_, _, g) = >>=-eq-ok (log_further_authentication o d sz) _ e in cc
    by_success false false true next m is e f = (==_iff (u8 o d 0) 1).0 is
    by_success false false false next m is e f = cc

module _ {P : Type 0} (parsers : MessageParsers P) (little_endian : Bool) where
  -- An error closes the request that it names, and no other.
  pub log_error-lookup_request :
      (p : P) (conn c : Connection) (d : List ℕ) (sz n j : ℕ)
      → log_error parsers little_endian p conn d sz ≡ ok (c, n)
      → lookup_request c j
        ≡ (if u16 (order_of little_endian conn) d 2 == j then aborted else lookup_request conn j)
  unfolding log_error
  log_error-lookup_request p conn c d sz n j e =
      let o = order_of little_endian conn in
      let (_, _, a) = >>=-eq-ok (require (leb 32 sz)) _ e in
      let (_, _, b) = >>=-eq-ok (require (u8 o d 0 == 0)) _ a in
      let (_, _, ends) = >>=-eq-ok (parsers.error (u8 o d 1) p conn d sz) _ b in
      let same : unregister_request conn (u16 o d 2) ≡ c = cc in
      ap (λ (t : Connection). lookup_request t j) (sym same)
      ∙ lookup_request-unregister_request conn (u16 o d 2) j

  -- A reply to a number that is not open stops the process.
  pub log_reply_unknown :
      (p : P) (conn : Connection) (d : List ℕ) (sz : ℕ) (r : P × Connection × List ℕ × ℕ)
      → lookup_request conn (u16 (order_of little_endian conn) d 2) ≡ aborted
      → log_reply parsers little_endian p conn d sz ≢ ok r
  unfolding log_reply
  log_reply_unknown p conn d sz r unknown e =
      let o = order_of little_endian conn in
      let (_, _, a) = >>=-eq-ok (require (leb 32 sz)) _ e in
      let (_, _, b) = >>=-eq-ok (require (u8 o d 0 == 1)) _ a in
      let (_, found, _) = >>=-eq-ok (lookup_request conn (u16 o d 2)) _ b in cc

  -- A reply that is logged belongs to an open request, goes to the function for the opcodes of that
  -- request, and closes it, unless it is one of ListFontsWithInfo that more replies follow.
  pub log_reply_lem :
      (p q : P) (conn c : Connection) (d d' : List ℕ) (sz n : ℕ)
      → log_reply parsers little_endian p conn d sz ≡ ok (q, c, d', n)
      → let o = order_of little_endian conn in
        (opcodes : RequestOpcodes) × (after : Connection) × (lookup_request conn (u16 o d 2)
          ≡ ok opcodes)
        × (parsers.reply opcodes.major opcodes.minor p conn d sz ≡ ok (q, after, d', n))
        × ((j : ℕ)
            → lookup_request c j ≡ (
                if not (opcodes.major == list_fonts_with_info) || u8 o d' 1 == 0
                then (if u16 o d 2 == j then aborted else lookup_request after j)
                else lookup_request after j))
  unfolding log_reply
  log_reply_lem p q conn c d d' sz n e =
      let o = order_of little_endian conn in
      let (_, _, a) = >>=-eq-ok (require (leb 32 sz)) _ e in
      let (_, _, b) = >>=-eq-ok (require (u8 o d 0 == 1)) _ a in
      let (opcodes, found, f) = >>=-eq-ok (lookup_request conn (u16 o d 2)) _ b in
      let ((q', after, d'', n'), answered, g) =
        >>=-eq-ok (parsers.reply opcodes.major opcodes.minor p conn d sz) _ f in
      let (_, _, h) = >>=-eq-ok (require (not (n' == 0))) _ g in
      let (_, _, ends) = >>=-eq-ok (require (leb n' sz)) _ h in
      let last : Bool = not (opcodes.major == list_fonts_with_info) || u8 o d'' 1 == 0 in
      let same_q : q' ≡ q = cc in
      let same_d : d'' ≡ d' = cc in
      let same_n : n' ≡ n = cc in
      let same : (if last then unregister_request after (u16 o d 2) else after) ≡ c = cc in
      let answer : parsers.reply opcodes.major opcodes.minor p conn d sz ≡ ok (q, after, d', n) =
        cc in
      (
        opcodes,
        after,
        found,
        answer,
        λ j.
            ap (λ (t : Connection). lookup_request t j) (sym same)
            ∙ closed last after (u16 o d 2) j
            ∙ ap
                (λ (t : List ℕ).
                  if not (opcodes.major == list_fonts_with_info) || u8 o t 1 == 0
                  then (if u16 o d 2 == j then aborted else lookup_request after j)
                  else lookup_request after j)
                same_d,
      )
    where
      closed :
          (last : Bool) (after : Connection) (s j : ℕ)
          → lookup_request (if last then unregister_request after s else after) j ≡ (
              if last
              then (if s == j then aborted else lookup_request after j)
              else lookup_request after j)
      closed true after s j = lookup_request-unregister_request after s j
      closed false after s j = refl

  -- The first answer of the server can only open the connection: on any other the `assert` that
  -- follows it fails, or the process exits.
  pub log_server_opens :
      (p : P) (conn : Connection) (d : List ℕ) (sz : ℕ) (r : P × Connection × List ℕ × ℕ)
      → conn.status ≡ unestablished
      → log_server parsers little_endian unestablished p conn d sz ≡ ok r
      → (r.1.status ≡ open_) × (u8 (order_of little_endian conn) d 0 ≡ 1)
  unfolding log_server
  log_server_opens p conn d sz r before e =
      let o = order_of little_endian conn in
      let ((status, n), answered, a) = >>=-eq-ok (log_init_response o conn.status d sz) _ e in
      let (_, tested, ends) = >>=-eq-ok (require (is_open status)) _ a in
      let opened : status ≡ open_ = is_open-eq status tested in
      let same : record conn { status = status } ≡ r.1 = cc in
      (
        ap (λ (t : Connection). t.status) (sym same) ∙ opened,
        log_init_response_opens o conn.status d sz status n before answered opened,
      )
