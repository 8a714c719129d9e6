-- ===== src/Parser/ListMembers.antt =====
-- src/X11ProtocolParser__parseListMember.cpp, and `_parseLISTof` of src/include/X11ProtocolParser.hpp:
-- how many bytes the members of a list and the whole list take. A sum here stays far below 2 ^ 32,
-- so that `bytes_parsed` does not wrap.
use xtracepp.Base.{
  ℕ, zero, suc, ◌+◌, ◌≤◌, ◌<◌, ◌≡◌, Bool, true, false, List, arith, ltb, leb, ◌==◌, if◌then◌else◌,
  drop, Option, none, some, Outcome, ok, aborted, require, ◌>>=◌, ◌>>◌, >>=-eq-ok, sub_size,
  sub_size_exact, size_mod,
}
use xtracepp.Wire.Alignment.{pad}
use xtracepp.Parser.Fields.{Order, u8, u16}

-- A `_parseListMember`: from the bytes at `data` and `sz`, the number of bytes parsed.
abbrev pub Member : Type 0
Member = List ℕ → ℕ → Outcome ℕ

-- Integers and structs of fixed size.
unfoldable pub parse_fixed : ℕ → Member
parse_fixed n d sz = do require (leb n sz); ok n

unfoldable pub parse_list_from : Member → ℕ → List ℕ → ℕ → ℕ → Outcome ℕ
parse_list_from member zero d sz parsed = ok parsed
parse_list_from member (suc n) d sz parsed = do
  m ← member (drop parsed d) (sub_size sz parsed)
  parse_list_from member n d sz (parsed + m)

-- `_parseLISTof` with a count of members.
unfoldable pub parse_list_of : Member → ℕ → Member
unfolding parse_list_from
parse_list_of member memb_ct d sz = parse_list_from member memb_ct d sz 0

-- `_parseLISTof` with no count: members until the padded length reaches `sz`. `none`: no fuel left.
unfoldable pub parse_list_to : ℕ → Member → List ℕ → ℕ → ℕ → Option (Outcome ℕ)
parse_list_to zero member d sz parsed = none
parse_list_to (suc fuel) member d sz parsed = elim (ltb (pad parsed) sz) [
  | false ↦ some (ok parsed)
  | true ↦ elim (member (drop parsed d) (sub_size sz parsed)) [
    | ok m ↦ parse_list_to fuel member d sz (parsed + m)
    | aborted ↦ some aborted
    | Outcome.exited ↦ some Outcome.exited
  ]
]

-- `STR`: a length byte, and the name.
unfoldable pub parse_str : Order → Member
unfolding u8
parse_str o d sz = do require (leb 1 sz); ok (1 + u8 o d 0)

-- `HOST::family_names` has names at 0, 1, 2, 5 and 6.
abbrev pub known_family : ℕ → Bool
known_family f = if ltb f 3 then true else if f == 5 then true else f == 6

unfoldable pub parse_host : Order → Member
unfolding u8 u16 parse_list_of parse_fixed
parse_host o d sz = do
  require (leb 4 sz)
  require (known_family (u8 o d 0))
  address ← parse_list_of (parse_fixed 1) (u16 o d 2) (drop 4 d) (sub_size sz 4)
  ok (4 + pad (u16 o d 2))

unfoldable pub parse_depth : Order → Member
unfolding u16 parse_list_of parse_fixed
parse_depth o d sz = do
  require (leb 8 sz)
  visuals ← parse_list_of (parse_fixed 24) (u16 o d 2) (drop 8 d) (sub_size sz 8)
  require (leb (8 + visuals) sz)
  ok (8 + visuals)

unfoldable pub parse_screen : Order → Member
unfolding u8 parse_list_of parse_depth
parse_screen o d sz = do
  require (leb 40 sz)
  depths ← parse_list_of (parse_depth o) (u8 o d 39) (drop 40 d) (sub_size sz 40)
  require (leb (40 + depths) sz)
  ok (40 + depths)

abbrev pub font_shift : ℕ
font_shift = 255

unfoldable pub parse_textitem8 : Order → Member
unfolding u8
parse_textitem8 o d sz = do
  require (leb 2 sz)
  ok (if u8 o d 0 == font_shift then 5 else 2 + u8 o d 0)

unfoldable pub parse_textitem16 : Order → Member
unfolding u8 parse_list_of parse_fixed
parse_textitem16 o d sz = do
  require (leb 2 sz)
  if u8 o d 0 == font_shift then ok 5 else (do
    string ← parse_list_of (parse_fixed 2) (u8 o d 0) (drop 2 d) (sub_size sz 2)
    ok (2 + string))

-- A member that takes no more than it is given.
abbrev pub Bounded : Member → Type 0
Bounded member = (d : List ℕ) (sz n : ℕ) → sz < size_mod → member d sz ≡ ok n → n ≤ sz

pub parse_fixed-Bounded : (k : ℕ) → Bounded (parse_fixed k)
unfolding parse_fixed
parse_fixed-Bounded k d sz n fits e = ground arith

parse_list_from-le :
    (member : Member)
    → Bounded member
    → (memb_ct : ℕ) (d : List ℕ) (sz parsed n : ℕ) → sz < size_mod
    → parsed ≤ sz
    → parse_list_from member memb_ct d sz parsed ≡ ok n
    → n ≤ sz
unfolding parse_list_from
parse_list_from-le member bounded zero d sz parsed n fits h e = ground arith
parse_list_from-le member bounded (suc k) d sz parsed n fits h e =
    let (m, one, rest) = >>=-eq-ok (member (drop parsed d) (sub_size sz parsed)) _ e in
    let left = sub_size_exact sz parsed fits h in
    let few = bounded (drop parsed d) (sub_size sz parsed) m (omega arith) one in
    parse_list_from-le member bounded k d sz (parsed + m) n fits (omega arith) rest

pub parse_list_of-Bounded :
    (member : Member) (memb_ct : ℕ) → Bounded member → Bounded (parse_list_of member memb_ct)
unfolding parse_list_of
parse_list_of-Bounded member memb_ct bounded d sz n fits e =
    parse_list_from-le member bounded memb_ct d sz 0 n fits (omega arith) e

pub parse_depth-Bounded : (o : Order) → Bounded (parse_depth o)
unfolding parse_depth
parse_depth-Bounded o d sz n fits e =
    let (_, _, e1) = >>=-eq-ok (require (leb 8 sz)) _ e in
    let (visuals, _, e2) =
      >>=-eq-ok (parse_list_of (parse_fixed 24) (u16 o d 2) (drop 8 d) (sub_size sz 8)) _ e1 in
    ground arith

-- The SCREENs of an acceptance, with their depths and visuals nested, never take more bytes than
-- the message has left.
pub parse_screen-Bounded : (o : Order) → Bounded (parse_screen o)
unfolding parse_screen
parse_screen-Bounded o d sz n fits e =
    let (_, _, e1) = >>=-eq-ok (require (leb 40 sz)) _ e in
    let (depths, _, e2) =
      >>=-eq-ok (parse_list_of (parse_depth o) (u8 o d 39) (drop 40 d) (sub_size sz 40)) _ e1 in
    ground arith
