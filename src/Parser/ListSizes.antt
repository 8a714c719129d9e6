-- ===== src/Parser/ListSizes.antt =====
-- src/include/X11ProtocolParser.hpp, `_parseLISTof`, and src/X11ProtocolParser__parseListMember.cpp: when
-- a list of members of fixed size is taken, and how many bytes it takes.
use xtracepp.Base.{
  ℕ, zero, suc, ◌+◌, ◌*◌, ◌-◌, ◌≤◌, ◌<◌, ◌≡◌, refl, subst, inl, inr, false, List, arith, leb,
  if◌then◌else◌, Bool-cases, leb→le, le→leb, drop, ok, aborted, >>=-eq-ok, require-eq-ok,
  ok-injective, ◌∙◌, ◌%◌, sub_size, sub_size_exact, size_mod,
}
use native.Mathlib.Nat.{suc-mul}
use xtracepp.Parser.ListMembers.{Member, parse_fixed, parse_list_from, parse_list_of}

parse_list_from_fixed :
    (k memb_ct : ℕ) (d : List ℕ) (sz parsed : ℕ)
    → sz < size_mod
    → parsed ≤ sz
    → parse_list_from (parse_fixed k) memb_ct d sz parsed
      ≡ (if leb (parsed + memb_ct * k) sz then ok (parsed + memb_ct * k) else aborted)
unfolding parse_list_from parse_fixed
parse_list_from_fixed k zero d sz parsed fits h =
    let same : parsed + zero * k ≡ parsed = omega arith in rw (same, le→leb parsed sz h) refl
parse_list_from_fixed k (suc n) d sz parsed fits h =
    let left : sub_size sz parsed ≡ sz - parsed = sub_size_exact sz parsed fits h in
    let step : parsed + suc n * k ≡ parsed + k + n * k = omega (arith, suc-mul n k) in
    elim (Bool-cases (leb k (sub_size sz parsed))) [
      | inl room ↦
          rw (room, step)
            (parse_list_from_fixed k n d sz (parsed + k) fits
              (omega (arith, leb→le k (sub_size sz parsed) room)))
      | inr full ↦
          let beyond : leb (parsed + k + n * k) sz ≡ false = ground (arith, full, left) in
          rw (full, step, beyond) refl
    ]

-- A list of `memb_ct` members of `k` bytes each is taken exactly where it fits in `sz`.
pub parse_list_of_fixed :
    (k memb_ct : ℕ) (d : List ℕ) (sz : ℕ)
    → sz < size_mod
    → parse_list_of (parse_fixed k) memb_ct d sz
      ≡ (if leb (memb_ct * k) sz then ok (memb_ct * k) else aborted)
unfolding parse_list_of
parse_list_of_fixed k memb_ct d sz fits =
    let none_yet : 0 + memb_ct * k ≡ memb_ct * k = omega arith in
    subst
      (λ (t : ℕ).
        parse_list_from (parse_fixed k) memb_ct d sz 0 ≡ (if leb t sz then ok t else aborted))
      none_yet (parse_list_from_fixed k memb_ct d sz 0 fits (omega arith))

-- A list of members of one size that is accepted has the size of all its members.
pub parse_list_from-size :
    (k n : ℕ) (d : List ℕ) (sz p r : ℕ)
    → parse_list_from (parse_fixed k) n d sz p ≡ ok r
    → r ≡ p + n * k
unfolding parse_list_from
parse_list_from-size k zero d sz p r e = let same : p ≡ r = ok-injective e in omega arith
parse_list_from-size k (suc n) d sz p r e =
    let (m, one, rest) = >>=-eq-ok (parse_fixed k (drop p d) (sub_size sz p)) _ e in
    let sized : k ≡ m =
      unfold parse_fixed in
      ok-injective (require-eq-ok (leb k (sub_size sz p)) (λ _. ok k) one).1 in
    parse_list_from-size k n d sz (p + m) r rest ∙ rw (← sized) (grind arith)

-- A member that takes whole units.
abbrev pub IsAlignedMember : Member → Type 0
IsAlignedMember one = (d : List ℕ) (sz m : ℕ) → one d sz ≡ ok m → m % 4 ≡ 0

pub parse_list_from-aligned :
    (one : Member) (n : ℕ) (d : List ℕ) (sz p r : ℕ)
    → IsAlignedMember one
    → p % 4 ≡ 0
    → parse_list_from one n d sz p ≡ ok r
    → r % 4 ≡ 0
unfolding parse_list_from
parse_list_from-aligned one zero d sz p r whole h e =
    let same : p ≡ r = ok-injective e in omega arith
parse_list_from-aligned one (suc n) d sz p r whole h e =
    let (m, first, rest) = >>=-eq-ok (one (drop p d) (sub_size sz p)) _ e in
    let aligned = whole (drop p d) (sub_size sz p) m first in
    parse_list_from-aligned one n d sz (p + m) r whole (omega arith) rest
