-- ===== src/Parser/Requests/Arcs.antt =====
-- src/X11ProtocolParser__parseRequest.cpp, `_parseRequest< PolyArc >`: `arcs_sz` takes the length in units
-- of four bytes for one in bytes.
use xtracepp.Base.{
  ℕ, ◌+◌, ◌*◌, ◌/◌, ◌%◌, ◌^◌, ◌<◌, ◌≡◌, ◌≢◌, refl, sym, ap, ◌∙◌, Bool, true, false, List, [], ◌∷◌,
  arith, leb, ◌==◌, ==_iff, if◌then◌else◌, ok, require, ◌>>◌, >>=-eq-ok, require-eq-ok,
  ok-injective, add_u32, add_size, sub_size,
}
use xtracepp.Wire.Alignment.{pad, units}
use xtracepp.Session.{Connection, big_requests_name, extension_enabled}
use xtracepp.Parser.Fields.{u8, u16}
use xtracepp.Parser.Messages.{order_of}
use xtracepp.Parser.ListMembers.{parse_fixed, parse_list_from, parse_list_of}
use xtracepp.Parser.ListSizes.{parse_list_from-size}
use xtracepp.Protocol.{sizeof_struct}
use xtracepp.Protocol.Requests.{base_encoding_sz}
use xtracepp.Protocol.Requests.Drawing.{poly_arc}
use xtracepp.Parser.Requests.{
  FixedEncoding, fixed_of, fixed_encoding, base_sz, parsing_of, parse_own, parse_any, parse_rest,
  length_holds, exact_length, Shown, in_encoding,
}
use xtracepp.Parser.Requests.Suffixes.{list_of, suffix_data}
use xtracepp.Parser.Requests.Drawing.{arcs_sz, parse_poly_arc}

-- The number of arcs that the loop is given is never the number of arcs in the request.
arcs_ct-wrong : (n : ℕ) → n < 2 ^ 14 → sub_size (3 + 3 * n) 12 / 12 % 2 ^ 16 ≢ n
unfolding sub_size
arcs_ct-wrong n small e = omega arith

counted :
    (n ct listed suffix_sz tl : ℕ)
    → n < 2 ^ 14
    → ct < 2 ^ 16
    → listed ≡ 0 + ct * 12
    → pad listed ≡ suffix_sz
    → tl ≡ 3 + 3 * n
    → tl ≡ units (add_u32 12 suffix_sz)
    → ct ≡ n
unfolding pad units add_u32 add_size
counted n ct listed suffix_sz tl small few l p t u = omega arith

module _ (little_endian : Bool) (conn : Connection) (d : List ℕ) (sz : ℕ) (shown : List Shown) where
  arcs_refused :
      (fe : FixedEncoding) (n m : ℕ)
      → n < 2 ^ 14
      → fe.big_request ≡ false
      → fe.bytes_parsed ≡ 12
      → fe.tl_aligned_units ≡ 3 + 3 * n
      → parse_rest
          (λ r.
            require (u8 r.order r.message 0 == 68)
            >> list_of (λ o. parse_fixed 12) arcs_sz (λ q. arcs_sz q / 12) r)
          exact_length
          shown
          (parsing_of little_endian poly_arc conn d sz fe)
        ≢ ok m
  unfolding parse_rest length_holds list_of parse_list_of arcs_sz base_sz base_encoding_sz
      sizeof_struct
  arcs_refused fe n m small short base announced e =
      let r = parsing_of little_endian poly_arc conn d sz fe in
      let (suffix_sz, one, e1) =
        >>=-eq-ok
          (require (u8 r.order d 0 == 68)
            >> list_of (λ o. parse_fixed 12) arcs_sz (λ q. arcs_sz q / 12) r)
          _ e in
      let (holds, _) =
        require-eq-ok (fe.tl_aligned_units == units (add_u32 fe.bytes_parsed suffix_sz)) _ e1 in
      let (_, one1) = require-eq-ok (u8 r.order d 0 == 68) _ one in
      let ct : ℕ = arcs_sz r / 12 % 2 ^ 16 in
      let (listed, list, one2) =
        >>=-eq-ok (parse_list_from (parse_fixed 12) ct (suffix_data r) (arcs_sz r) 0) _ one1 in
      let padded : pad listed ≡ suffix_sz = ok-injective one2 in
      let sized = parse_list_from-size 12 ct (suffix_data r) (arcs_sz r) 0 listed list in
      let wrong : arcs_sz r ≡ sub_size (3 + 3 * n) 12 =
        rw short (ap (λ (t : ℕ). sub_size t 12) announced) in
      let right : fe.tl_aligned_units ≡ units (add_u32 12 suffix_sz) =
        (==_iff _ _).0 holds ∙ ap (λ (b : ℕ). units (add_u32 b suffix_sz)) base in
      let same =
        counted n ct listed suffix_sz fe.tl_aligned_units small (omega arith) sized padded announced
          right in
      arcs_ct-wrong n small (ap (λ (t : ℕ). t / 12 % 2 ^ 16) (sym wrong) ∙ same)

-- A PolyArc request of any number of arcs, its length right, is never accepted: its assert fails.
pub poly_arc_refused :
    (little_endian : Bool) (conn : Connection) (d : List ℕ) (sz n m : ℕ)
    → n < 2 ^ 14
    → u16 (order_of little_endian conn) d 2 ≡ 3 + 3 * n
    → parse_poly_arc little_endian conn d sz ≢ ok m
unfolding parse_poly_arc parse_own parse_any fixed_encoding sizeof_struct
poly_arc_refused little_endian conn d sz n m small length_ e =
    let o = order_of little_endian conn in
    let big : Bool = u16 o d 2 == 0 in
    let (fe, e0, e1) = >>=-eq-ok (fixed_encoding little_endian poly_arc conn d sz) _ e in
    let (_, f1) = require-eq-ok (leb (base_encoding_sz poly_arc) sz) _ e0 in
    let (_, f2) =
      require-eq-ok (if big then extension_enabled conn big_requests_name else true) _ f1 in
    let (_, f3) =
      require-eq-ok ((fixed_of o poly_arc d big).bytes_parsed == base_sz poly_arc big) _ f2 in
    let same : fixed_of o poly_arc d big ≡ fe = ok-injective f3 in
    let short : big ≡ false = ground arith in
    arcs_refused little_endian conn d sz (in_encoding "drawable" ∷ in_encoding "gc" ∷ []) fe n m
      small (sym (ap (λ (f : FixedEncoding). f.big_request) same) ∙ short)
      (sym (ap (λ (f : FixedEncoding). f.bytes_parsed) same) ∙ rw short refl)
      (sym (ap (λ (f : FixedEncoding). f.tl_aligned_units) same) ∙ rw short length_) e1
