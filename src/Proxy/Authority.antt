-- ===== src/Proxy/Authority.antt =====
-- src/ProxyX11Server.cpp, `_copyAuthentication`: reading the entries of the authority file, and writing
-- them back. `ntohs` and `htons` make the first byte of a field the high one on every host.
pub mod Fields
pub mod RoundTrip
use xtracepp.Base.{
  ℕ, zero, suc, ◌+◌, ◌-◌, ◌*◌, ◌/◌, ◌%◌, Bool, true, false, List, [], ◌∷◌, ◌++◌, ltb, leb, ◌==◌,
  if◌then◌else◌, length, take, drop, replicate, Option, none, some, Outcome, ok, aborted, exited,
  require, ◌>>=◌, ◌>>◌,
}

-- `_XAuthInfo`, where a length and its C string are a list.
pub record XAuthInfo : Type 0 where
  pub family : ℕ
  pub addr : List ℕ
  pub display : List ℕ
  pub name : List ℕ
  pub data_ : List ℕ

abbrev pub host_name_max : ℕ
host_name_max = 64

abbrev pub name_max : ℕ
name_max = 255

abbrev pub auth_data_sz : ℕ
auth_data_sz = 16

-- Two bytes, the high one first. A read that comes short fails every read after it, so that in the
-- end `data_len` is 0 and its `assert` fails.
unfoldable pub read_u16 : List ℕ → Outcome (ℕ × List ℕ)
read_u16 (hi ∷ lo ∷ rest) = ok (hi * 256 + lo, rest)
read_u16 _ = aborted

-- A length and as many bytes, which have to leave room for the final NUL.
unfoldable pub read_string : ℕ → List ℕ → Outcome (List ℕ × List ℕ)
unfolding read_u16
read_string max bytes = do
  (len, rest) ← read_u16 bytes
  require (ltb len max)
  require (leb len (length rest))
  ok (take len rest, drop len rest)

-- Where the file ends within the data of the last entry, the rest of the data stays 0.
unfoldable pub read_data : List ℕ → Outcome (List ℕ × List ℕ)
unfolding read_u16
read_data bytes = do
  (len, rest) ← read_u16 bytes
  require (len == auth_data_sz)
  ok (take auth_data_sz rest ++ replicate (auth_data_sz - length rest) 0, drop auth_data_sz rest)

unfoldable pub read_entry : List ℕ → Outcome (XAuthInfo × List ℕ)
unfolding read_u16 read_string read_data
read_entry bytes = do
  (family, after_family) ← read_u16 bytes
  (addr, after_addr) ← read_string host_name_max after_family
  (display, after_display) ← read_string host_name_max after_addr
  (name, after_name) ← read_string name_max after_display
  (data_, rest) ← read_data after_name
  ok (record { family = family; addr = addr; display = display; name = name; data_ = data_ }, rest)

-- An entry is read even from an empty file; after each one `peek` sees whether the file is at its end.
-- `none`: no fuel left.
unfoldable pub read_entries : ℕ → List ℕ → Option (Outcome (List XAuthInfo))
unfolding read_entry
read_entries zero bytes = none
read_entries (suc fuel) bytes = elim (read_entry bytes) [
  | aborted ↦ some aborted
  | exited ↦ some exited
  | ok read ↦ elim read.1 [
    | [] ↦ some (ok (read.0 ∷ []))
    | b ∷ rest ↦ elim (read_entries fuel (b ∷ rest)) [
      | none ↦ none
      | some r ↦ some (r >>= λ entries. ok (read.0 ∷ entries))
    ]
  ]
]

unfoldable pub write_u16 : ℕ → List ℕ
write_u16 n = n / 256 % 256 ∷ n % 256 ∷ []

unfoldable pub write_string : List ℕ → List ℕ
unfolding write_u16
write_string s = write_u16 (length s) ++ s

unfoldable pub write_entry : XAuthInfo → List ℕ
unfolding write_u16 write_string
write_entry a =
    write_u16 a.family
    ++ (write_string a.addr
        ++ (write_string a.display ++ (write_string a.name ++ write_string a.data_)))

unfoldable pub write_entries : List XAuthInfo → List ℕ
unfolding write_entry
write_entries [] = []
write_entries (a ∷ entries) = write_entry a ++ write_entries entries
