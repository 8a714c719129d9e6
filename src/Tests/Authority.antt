-- ===== src/Tests/Authority.antt =====
-- The authority file at concrete inputs.
use xtracepp.Base.{◌≡◌, refl, [], ◌∷◌, arith, replicate, some, ok, aborted}
use xtracepp.Proxy.Authority.{XAuthInfo, read_entries, write_entries, read_entry, read_u16}
use xtracepp.Proxy.Authority.Fields.{IsEntry}
use xtracepp.Proxy.Authority.RoundTrip.{read_entries-write_entries}

-- An entry for display 1 of a local host, and one for display 0.
abbrev local_one : XAuthInfo
local_one = record {
  family = 256;
  addr = b'h' ∷ [];
  display = b'1' ∷ [];
  name = b'M' ∷ b'I' ∷ b'T' ∷ [];
  data_ = replicate 16 7;
}

abbrev local_zero : XAuthInfo
local_zero = record local_one { display = b'0' ∷ [] }

local_one-IsEntry : IsEntry local_one
local_one-IsEntry = record {
  family_fits = omega arith;
  addr_fits = omega arith;
  display_fits = omega arith;
  name_fits = omega arith;
  data_whole = refl;
}

local_zero-IsEntry : IsEntry local_zero
local_zero-IsEntry = record {
  family_fits = omega arith;
  addr_fits = omega arith;
  display_fits = omega arith;
  name_fits = omega arith;
  data_whole = refl;
}

read_entries-write_entries_example :
    read_entries 2 (write_entries (local_one ∷ local_zero ∷ []))
    ≡ some (ok (local_one ∷ local_zero ∷ []))
read_entries-write_entries_example =
    read_entries-write_entries local_one (local_zero ∷ []) 2 local_one-IsEntry
      (local_zero-IsEntry, tt) (omega arith)

-- An empty file fails an assert.
empty_file : read_entries 1 [] ≡ some aborted
unfolding read_entries read_entry read_u16
empty_file = refl
