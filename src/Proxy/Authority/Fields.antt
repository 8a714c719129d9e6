-- ===== src/Proxy/Authority/Fields.antt =====
-- src/ProxyX11Server.cpp: a field of the authority file that was written is read again.
use xtracepp.Base.{
  ℕ, ◌+◌, ◌*◌, ◌/◌, ◌%◌, ◌-◌, ◌≤◌, ◌<◌, ◌≡◌, refl, sym, ap, ◌∙◌, true, List, ◌++◌, arith, leb,
  lt→ltb, le→leb, length, length-append, take, drop, take-append_length, drop-append_length,
  append_assoc, append-nil, ok,
}
use xtracepp.Proxy.Authority.{
  XAuthInfo, host_name_max, name_max, auth_data_sz, read_string, read_data, read_entry, write_u16,
  write_string, write_entry,
}

-- The two bytes of a field make up its value.
u16_same : (n : ℕ) → n < 65536 → n / 256 % 256 * 256 + n % 256 ≡ n
u16_same n h = omega arith

pub read_string-write_string :
    (max : ℕ) (s rest : List ℕ)
    → max ≤ 65536
    → length s < max
    → read_string max (write_string s ++ rest) ≡ ok (s, rest)
unfolding read_string write_string
read_string-write_string max s rest h k =
    let inside : leb (length s) (length (s ++ rest)) ≡ true =
      le→leb _ _ (omega (arith, length-append s rest)) in
    rw
      (
        u16_same (length s) (omega arith),
        lt→ltb (length s) max k,
        inside,
        take-append_length s rest,
        drop-append_length s rest,
      )
      refl

pub read_data-write_string :
    (s rest : List ℕ) → length s ≡ auth_data_sz → read_data (write_string s ++ rest) ≡ ok (s, rest)
unfolding read_data write_string
read_data-write_string s rest e =
    let none_short : auth_data_sz - length (s ++ rest) ≡ 0 = omega (arith, length-append s rest) in
    let taken : take auth_data_sz (s ++ rest) ≡ s =
      ap (λ (t : ℕ). take t (s ++ rest)) (sym e) ∙ take-append_length s rest in
    let left : drop auth_data_sz (s ++ rest) ≡ rest =
      ap (λ (t : ℕ). drop t (s ++ rest)) (sym e) ∙ drop-append_length s rest in
    rw (u16_same (length s) (omega arith), e, taken, left, none_short)
      (ap (λ (t : List ℕ). ok (t, rest)) (append-nil s))

-- What an entry has to be for its lengths to fit: so is every entry that was read.
pub record IsEntry (a : XAuthInfo) : Type 0 where
  pub family_fits : a.family < 65536
  pub addr_fits : length a.addr < host_name_max
  pub display_fits : length a.display < host_name_max
  pub name_fits : length a.name < name_max
  pub data_whole : length a.data_ ≡ auth_data_sz

pub read_entry-write_entry :
    (a : XAuthInfo) (rest : List ℕ) → IsEntry a → read_entry (write_entry a ++ rest) ≡ ok (a, rest)
unfolding read_entry write_entry
read_entry-write_entry a rest h =
    let data_ : List ℕ = write_string a.data_ in
    let name : List ℕ = write_string a.name in
    let display : List ℕ = write_string a.display in
    let addr : List ℕ = write_string a.addr in
    let split : (addr ++ (display ++ (name ++ data_))) ++ rest
        ≡ addr ++ (display ++ (name ++ (data_ ++ rest))) =
      append_assoc addr (display ++ (name ++ data_)) rest
      ∙ ap (λ (t : List ℕ). addr ++ t)
          (append_assoc display (name ++ data_) rest
            ∙ ap (λ (t : List ℕ). display ++ t) (append_assoc name data_ rest)) in
    ap (λ (t : List ℕ). read_entry (write_u16 a.family ++ t)) split
    ∙ rw
        (
          u16_same a.family h.family_fits,
          read_string-write_string host_name_max a.addr (display ++ (name ++ (data_ ++ rest)))
              (omega arith) h.addr_fits,
          read_string-write_string host_name_max a.display (name ++ (data_ ++ rest)) (omega arith)
              h.display_fits,
          read_string-write_string name_max a.name (data_ ++ rest) (omega arith) h.name_fits,
          read_data-write_string a.data_ rest h.data_whole,
        )
        refl
