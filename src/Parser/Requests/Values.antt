-- ===== src/Parser/Requests/Values.antt =====
-- `_parseLISTofVALUE` of src/include/X11ProtocolParser.hpp: how many bytes the values take.
use xtracepp.Base.{
  ℕ, ◌+◌, ◌*◌, ◌/◌, ◌%◌, ◌^◌, ◌≤◌, ◌<◌, ◌≡◌, inl, inr, true, List, [], ◌∷◌, arith, leb, ◌==◌,
  if◌then◌else◌, Bool-cases, drop, length, ok, require, ◌>>◌, >>=-eq-ok, require-eq-ok,
  ok-injective, add_u32, sub_size, size_mod,
}
use xtracepp.Parser.Fields.{Order}
use xtracepp.Protocol.{FieldType}
use xtracepp.Parser.Requests.Suffixes.{parse_formatted, parse_values}

-- The bits of the mask that stand for a value, from bit `i` on.
unfoldable pub values_ct : ℕ → ℕ → List FieldType → ℕ
values_ct mask i [] = 0
values_ct mask i (t ∷ types) =
    (if mask / 2 ^ i % 2 == 0 then 0 else 1) + values_ct mask (i + 1) types

room_for_value : (sz m : ℕ) → sz < size_mod → m ≤ sz → leb 4 (sub_size sz m) ≡ true → m + 4 ≤ sz
unfolding sub_size
room_for_value sz m fits within h = ground arith

-- A list of values that is accepted takes four bytes for each bit of the mask that stands for a value,
-- and no more than there are.
pub parse_values_lem :
    (o : Order) (mask : ℕ) (d : List ℕ) (sz i : ℕ) (types : List FieldType) (value_ct m n : ℕ)
    → sz < size_mod
    → m ≤ sz
    → m + 4 * length types < 2 ^ 32
    → parse_values o mask d sz i types value_ct m ≡ ok n
    → (n ≡ m + 4 * values_ct mask i types) × (n ≤ sz)
unfolding parse_values values_ct add_u32
parse_values_lem o mask d sz i [] value_ct m n fits within few e =
    let same : m ≡ n = ok-injective (require-eq-ok (m == value_ct * 4) (λ _. ok m) e).1 in
    (omega arith, omega arith)
parse_values_lem o mask d sz i (t ∷ types) value_ct m n fits within few e =
    elim (Bool-cases (mask / 2 ^ i % 2 == 0)) [
      | inl absent ↦
          let (counted, bounded) =
            parse_values_lem o mask d sz (i + 1) types value_ct m n fits within (omega arith)
              (rw (absent, parse_values) at e) in
          rw absent (omega arith, bounded)
      | inr there ↦
          let (_, both, rest) =
            >>=-eq-ok
              (require (leb 4 (sub_size sz m)) >> parse_formatted o t (drop m d) (sub_size sz m)) _
              (rw (there, parse_values) at e) in
          let (room, _) =
            require-eq-ok (leb 4 (sub_size sz m))
              (λ _. parse_formatted o t (drop m d) (sub_size sz m)) both in
          let inside = room_for_value sz m fits within room in
          let (counted, bounded) =
            parse_values_lem o mask d sz (i + 1) types (value_ct + 1) (add_u32 m 4) n fits
              (omega arith) (omega arith) rest in
          rw there (omega arith, bounded)
    ]
