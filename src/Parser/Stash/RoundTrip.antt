-- ===== src/Parser/Stash/RoundTrip.antt =====
-- `_stashString` and `_unstashString` of src/X11ProtocolParser.cpp: what is stashed is found again.
use xtracepp.Base.{
  ℕ, ◌≡◌, refl, ap, inl, inr, Bool-cases, Option-cases, ok-injective, true, List, [], ◌∷◌, arith,
  ◌==◌, ◌&&◌, if◌then◌else◌, none, some, ok,
}
use xtracepp.Parser.Stash.{
  View, Stashed, ParserState, has_id, find_stashed, erase_stashed, stash_string, unstash_string,
}

find_stashed-erase_stashed :
    (conn_id seq_num other_id other_num : ℕ) (m : List Stashed)
    → find_stashed other_id other_num (erase_stashed conn_id seq_num m) ≡ (
        if (conn_id == other_id) && (seq_num == other_num)
        then none
        else find_stashed other_id other_num m)
unfolding find_stashed erase_stashed
find_stashed-erase_stashed conn_id seq_num other_id other_num [] = ground arith
find_stashed-erase_stashed conn_id seq_num other_id other_num (s ∷ rest) =
    ground (arith, find_stashed-erase_stashed conn_id seq_num other_id other_num rest)

erase_absent :
    (conn_id seq_num : ℕ) (m : List Stashed)
    → find_stashed conn_id seq_num m ≡ none
    → erase_stashed conn_id seq_num m ≡ m
unfolding find_stashed erase_stashed
erase_absent conn_id seq_num [] e = refl
erase_absent conn_id seq_num (s ∷ rest) e = elim (Bool-cases (has_id conn_id seq_num s)) [
  | inl here ↦ let found = rw here at e in cc
  | inr there ↦
      rw there
        (ap (λ (m : List Stashed). s ∷ m) (erase_absent conn_id seq_num rest (rw there at e)))
]

has_id_self :
    (conn_id seq_num : ℕ) (view : View)
    → has_id conn_id seq_num (record { conn_id = conn_id; seq_num = seq_num; view = view }) ≡ true
has_id_self conn_id seq_num view = ground arith

-- A string is only stashed under the number of a request that has none. It is found again under it,
-- which leaves everything as it was before, and the strings of other requests are found as before.
pub unstash_string-stash_string :
    (p q : ParserState) (conn_id seq_num other_id other_num : ℕ) (view : View)
    → stash_string p conn_id seq_num view ≡ ok q
    → (find_stashed conn_id seq_num p.stashed_strings ≡ none)
      × (unstash_string q conn_id seq_num ≡ ok (view, p))
      × (find_stashed other_id other_num q.stashed_strings ≡ (
          if (conn_id == other_id) && (seq_num == other_num)
          then some view
          else find_stashed other_id other_num p.stashed_strings))
unfolding stash_string unstash_string find_stashed erase_stashed
unstash_string-stash_string p q conn_id seq_num other_id other_num view e =
    elim (Option-cases (find_stashed conn_id seq_num p.stashed_strings)) [
      | inr (old, found) ↦ let refused = rw found at e in cc
      | inl none_yet ↦
          let s : Stashed = record { conn_id = conn_id; seq_num = seq_num; view = view } in
          let after : record p { stashed_strings = s ∷ p.stashed_strings } ≡ q =
            ok-injective (rw none_yet at e) in
          (
            none_yet,
            rw (← after, has_id_self conn_id seq_num view)
                (rw
                  (
                    has_id_self conn_id seq_num view,
                    erase_absent conn_id seq_num p.stashed_strings none_yet,
                  )
                  refl),
            rw (← after) refl,
          )
    ]
