-- ===== src/Parser/Extensions/Denied.antt =====
-- `_parseReply< QueryExtension >` of src/X11ProtocolParser__parseReply.cpp: what a client learns of an
-- extension that the settings deny.
use Prim.Native.String.{String}
use xtracepp.Base.{
  ℕ, zero, suc, ◌≡◌, refl, sym, ap, ◌∙◌, ◌⊎◌, inl, inr, Bool, true, false, not, List, [], ◌∷◌,
  arith, get_or, ◌==◌, Bool-cases, some, Option-cases, ok, >>=-eq-ok, require-eq-ok, ok-injective,
}
use xtracepp.Wire.ByteOrder.{ordered8}
use xtracepp.Session.{Connection, big_requests_name}
use xtracepp.Settings.{Choices}
use xtracepp.Parser.Fields.{Order, u8, u16}
use xtracepp.Parser.Messages.{order_of}
use xtracepp.Parser.Replies.Control.{parse_query_extension_reply}
use xtracepp.Parser.Stash.{
  View, ParserState, find_stashed, erase_stashed, unstash_string, read_view, bytes_eq, name_bytes,
}
use xtracepp.Parser.Extensions.{
  find_extension, name_denied, put_byte, enable_extension_parsing, enable_present,
  query_extension_reply_changes,
}

get_or-put_byte : (i : ℕ) (d : List ℕ) → get_or (put_byte i 0 d) i 0 ≡ 0
unfolding put_byte
get_or-put_byte i [] = refl
get_or-put_byte zero (x ∷ d) = refl
get_or-put_byte (suc i) (x ∷ d) = get_or-put_byte i d

absent : (o : Order) (d : List ℕ) → u8 o (put_byte 8 0 d) 8 ≡ 0
unfolding u8 ordered8
absent o d = rw (get_or-put_byte 8 d) (ground arith)

-- What `unstash_string` takes is what stands under the number, and nothing else is changed.
unstash_string-ok :
    (p q : ParserState) (conn_id seq_num : ℕ) (view : View)
    → unstash_string p conn_id seq_num ≡ ok (view, q)
    → (find_stashed conn_id seq_num p.stashed_strings ≡ some view)
      × (q.major_opcodes ≡ p.major_opcodes)
unfolding unstash_string
unstash_string-ok p q conn_id seq_num view e =
    elim (Option-cases (find_stashed conn_id seq_num p.stashed_strings)) [
      | inl nothing ↦ let refused = rw nothing at e in cc
      | inr (there, found) ↦
          let same : (
            there,
            record p { stashed_strings = erase_stashed conn_id seq_num p.stashed_strings },
          )
              ≡ (view, q) =
            ok-injective (rw found at e) in
          (
            found ∙ ap (λ (r : View × ParserState). some r.0) same,
            sym (ap (λ (r : View × ParserState). r.1.major_opcodes) same),
          )
    ]

-- The only extension in the table is BIG-REQUESTS.
enabled_name :
    (choices : Choices) (p q : ParserState) (name : List ℕ) (major : ℕ) (key : String)
    → enable_extension_parsing choices p name major ≡ ok (key, q)
    → key ≡ big_requests_name
unfolding enable_extension_parsing find_extension
enabled_name choices p q name major key e =
    let (_, e1) = require-eq-ok (not (name_denied choices name)) _ e in
    elim (Bool-cases (bytes_eq (name_bytes big_requests_name) name)) [
      | inr other ↦ let refused = rw other at e1 in cc
      | inl there ↦
          let same = ok-injective (rw there at e1) in
          sym (ap (λ (r : String × ParserState). r.0) same)
    ]

module _ (little_endian : Bool) (choices : Choices) (p : ParserState) (conn : Connection)
    (name d : List ℕ) (m : ℕ) where
  enable_present-absent :
      u8 (order_of little_endian conn) d 8 ≡ 0
      → enable_present little_endian choices p conn name d m ≡ ok (p, conn, d, m)
  unfolding enable_present
  enable_present-absent e = rw (e, enable_present) refl

  pub enable_present-ok :
      (q : ParserState) (after : Connection) (sent : List ℕ) (n : ℕ)
      → enable_present little_endian choices p conn name d m ≡ ok (q, after, sent, n)
      → (after ≡ conn) × (sent ≡ d) × (n ≡ m)
  unfolding enable_present
  enable_present-ok q after sent n e =
      let o = order_of little_endian conn in
      elim (Bool-cases (u8 o d 8 == 0)) [
        | inl gone ↦
            let same = ok-injective (rw (gone, enable_present) at e) in
            (
              sym (ap (λ (r : ParserState × Connection × List ℕ × ℕ). r.1) same),
              sym (ap (λ (r : ParserState × Connection × List ℕ × ℕ). r.2) same),
              sym (ap (λ (r : ParserState × Connection × List ℕ × ℕ). r.3) same),
            )
        | inr present ↦
            let ((key, r), enabled, e1) =
              >>=-eq-ok (enable_extension_parsing choices p name (u8 o d 9)) _
                (rw (present, enable_present) at e) in
            let big : key ≡ big_requests_name =
              enabled_name choices p r name (u8 o d 9) key enabled in
            let same = ok-injective (rw big at e1) in
            (
              sym (ap (λ (r : ParserState × Connection × List ℕ × ℕ). r.1) same),
              sym (ap (λ (r : ParserState × Connection × List ℕ × ℕ). r.2) same),
              sym (ap (λ (r : ParserState × Connection × List ℕ × ℕ). r.3) same),
            )
      ]

-- The reply to QueryExtension tells a client of an extension only if the settings allow the name that is
-- read where the view of the request points. Else its `present` is 0 and no major opcode is
-- added; and no reply enables an extension for the connection.
pub query_extension_reply_changes_lem :
    (little_endian : Bool) (choices : Choices) (p q : ParserState) (conn after : Connection)
    (d sent : List ℕ) (sz n : ℕ)
    → query_extension_reply_changes little_endian choices p conn d sz ≡ ok (q, after, sent, n)
    → let o = order_of little_endian conn in
      (after ≡ conn)
      × (view : View) × (find_stashed conn.id (u16 o d 2) p.stashed_strings ≡ some view)
      × (((name_denied choices (read_view p.memory view) ≡ true)
            × (u8 o sent 8 ≡ 0)
            × (sent ≡ put_byte 8 0 d)
            × (q.major_opcodes ≡ p.major_opcodes))
          ⊎ ((name_denied choices (read_view p.memory view) ≡ false) × (sent ≡ d)))
unfolding query_extension_reply_changes
query_extension_reply_changes_lem little_endian choices p q conn after d sent sz n e =
    let o = order_of little_endian conn in
    let (m, _, e1) = >>=-eq-ok (parse_query_extension_reply little_endian conn d sz) _ e in
    let ((view, r), took, e2) = >>=-eq-ok (unstash_string p conn.id (u16 o d 2)) _ e1 in
    let (found, kept) = unstash_string-ok p r conn.id (u16 o d 2) view took in
    let name = read_view p.memory view in
    elim (Bool-cases (name_denied choices name)) [
      | inr allowed ↦
          let (same, whole, _) =
            enable_present-ok little_endian choices r conn name d m q after sent n
              (rw allowed at e2) in
          (same, view, found, inr (allowed, whole))
      | inl denied ↦
          let e3 : enable_present little_endian choices r conn name (put_byte 8 0 d) m
              ≡ ok (q, after, sent, n) =
            rw denied at e2 in
          let same = ok-injective (
            sym (
              enable_present-absent little_endian choices r conn name (put_byte 8 0 d) m
                (absent o d))
            ∙ e3) in
          let zeroed : put_byte 8 0 d ≡ sent =
            ap (λ (r : ParserState × Connection × List ℕ × ℕ). r.2) same in
          (
            sym (ap (λ (r : ParserState × Connection × List ℕ × ℕ). r.1) same),
            view,
            found,
            inl (
              denied,
              rw (← zeroed) (absent o d),
              sym zeroed,
              sym (ap (λ (r : ParserState × Connection × List ℕ × ℕ). r.0.major_opcodes) same)
                  ∙ kept,
            ),
          )
    ]
