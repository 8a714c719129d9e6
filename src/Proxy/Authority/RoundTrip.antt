-- ===== src/Proxy/Authority/RoundTrip.antt =====
-- src/ProxyX11Server.cpp: the authority file that was written is read again.
use xtracepp.Base.{
  ℕ, zero, suc, ◌<◌, ◌≡◌, refl, sym, ap, ◌∙◌, List, [], ◌∷◌, ◌++◌, arith, length, All, some, ok,
}
use xtracepp.Proxy.Authority.{
  XAuthInfo, read_entry, read_entries, write_u16, write_entry, write_entries,
}
use xtracepp.Proxy.Authority.Fields.{IsEntry, read_entry-write_entry}

-- An entry takes at least its family.
write_entry-cons : (a : XAuthInfo) → (b : ℕ) × (more : List ℕ) × (write_entry a ≡ b ∷ more)
unfolding write_entry write_u16
write_entry-cons a = (_, _, refl)

read_entries_last :
    (fuel : ℕ) (bytes : List ℕ) (a : XAuthInfo)
    → read_entry bytes ≡ ok (a, [])
    → read_entries (suc fuel) bytes ≡ some (ok (a ∷ []))
unfolding read_entries
read_entries_last fuel bytes a e = rw (read_entries, e) refl

read_entries_next :
    (fuel : ℕ) (bytes rest : List ℕ) (b : ℕ) (a : XAuthInfo) (entries : List XAuthInfo)
    → read_entry bytes ≡ ok (a, b ∷ rest)
    → read_entries fuel (b ∷ rest) ≡ some (ok entries)
    → read_entries (suc fuel) bytes ≡ some (ok (a ∷ entries))
unfolding read_entries
read_entries_next fuel bytes rest b a entries e more = rw (read_entries, e, more) refl

-- What `_copyAuthentication` writes, a later run reads back: every entry whose lengths fit, in
-- order. There has to be one, since an empty file fails an assert.
pub read_entries-write_entries :
    (a : XAuthInfo) (entries : List XAuthInfo) (fuel : ℕ)
    → IsEntry a
    → All IsEntry entries
    → length entries < fuel
    → read_entries fuel (write_entries (a ∷ entries)) ≡ some (ok (a ∷ entries))
unfolding write_entries
read_entries-write_entries a entries zero h all enough = absurd (omega arith)
read_entries-write_entries a [] (suc fuel) h all enough =
    read_entries_last fuel (write_entry a ++ []) a (read_entry-write_entry a [] h)
read_entries-write_entries a (c ∷ entries) (suc fuel) h (k, all) enough =
    let (b, more, starts) = write_entry-cons c in
    let rest : List ℕ = write_entries (c ∷ entries) in
    let begins : rest ≡ b ∷ (more ++ write_entries entries) =
      ap (λ (t : List ℕ). t ++ write_entries entries) starts in
    read_entries_next fuel (write_entry a ++ rest) (more ++ write_entries entries) b a (c ∷ entries)
      (read_entry-write_entry a rest h ∙ ap (λ (t : List ℕ). ok (a, t)) begins)
      (ap (read_entries fuel) (sym begins)
        ∙ read_entries-write_entries c entries fuel k all (omega arith))
