-- ===== src/Parser/Stash.antt =====
-- The strings that a request names and its reply needs: `_stashString` and `_unstashString` of
-- src/X11ProtocolParser.cpp. What is kept is a `std::string_view`: where the bytes stand in the buffer of
-- the client and how many they are, not the bytes.
pub mod RoundTrip
use Prim.Native.Char.{code}
use Prim.Native.String.{String, [] as empty, ◌∷◌ as prepend}
use xtracepp.Base.{
  ℕ, zero, suc, ◌+◌, ◌%◌, Bool, true, false, not, ◌&&◌, List, [], ◌∷◌, ◌==◌, if◌then◌else◌, Option,
  none, some, Outcome, ok, aborted, require, ◌>>=◌, ◌>>◌,
}

-- Where the bytes of a message stand, and what byte memory holds at an address. Messages that are read
-- later change it.
pub record Memory : Type 0 where
  pub address : List ℕ → ℕ
  pub byte : ℕ → ℕ

pub record View : Type 0 where
  pub at : ℕ
  pub len : ℕ

-- An entry of `_stashed_strings`, with the two parts of its key.
pub record Stashed : Type 0 where
  pub conn_id : ℕ
  pub seq_num : ℕ
  pub view : View

-- The extensions whose messages the program has functions for: the keys of `_extensions`.
pub data Extension : Type 0 where
  big_requests : Extension

-- What the parsers of messages change: `_stashed_strings`, and `_major_opcodes` beyond the core ones.
pub record ParserState : Type 0 where
  pub stashed_strings : List Stashed
  pub major_opcodes : List (ℕ × Extension)
  pub memory : Memory

-- `operator==` of `_StashedStringID`.
abbrev pub has_id : ℕ → ℕ → Stashed → Bool
has_id conn_id seq_num s = (s.conn_id == conn_id) && (s.seq_num == seq_num)

unfoldable pub find_stashed : ℕ → ℕ → List Stashed → Option View
find_stashed conn_id seq_num [] = none
find_stashed conn_id seq_num (s ∷ rest) =
    if has_id conn_id seq_num s then some s.view else find_stashed conn_id seq_num rest

unfoldable pub erase_stashed : ℕ → ℕ → List Stashed → List Stashed
erase_stashed conn_id seq_num [] = []
erase_stashed conn_id seq_num (s ∷ rest) =
    if has_id conn_id seq_num s
    then erase_stashed conn_id seq_num rest
    else s ∷ erase_stashed conn_id seq_num rest

abbrev stash_under : Option View → ParserState → Stashed → Outcome ParserState
stash_under none p s = ok (record p { stashed_strings = s ∷ p.stashed_strings })
stash_under (some view) p s = aborted

-- It is asserted that nothing is stashed for the request.
unfoldable pub stash_string : ParserState → ℕ → ℕ → View → Outcome ParserState
unfolding find_stashed
stash_string p conn_id seq_num view =
    stash_under (find_stashed conn_id seq_num p.stashed_strings) p
      (record { conn_id = conn_id; seq_num = seq_num; view = view })

abbrev unstash_found : Option View → ParserState → ℕ → ℕ → Outcome (View × ParserState)
unstash_found none p conn_id seq_num = aborted
unstash_found (some view) p conn_id seq_num =
    ok (view, record p { stashed_strings = erase_stashed conn_id seq_num p.stashed_strings })

-- It is asserted that something is.
unfoldable pub unstash_string : ParserState → ℕ → ℕ → Outcome (View × ParserState)
unfolding find_stashed erase_stashed
unstash_string p conn_id seq_num =
    unstash_found (find_stashed conn_id seq_num p.stashed_strings) p conn_id seq_num

-- The characters of a view, as memory has them when they are read.
unfoldable pub read_from : (ℕ → ℕ) → ℕ → ℕ → List ℕ
read_from byte zero at = []
read_from byte (suc n) at = byte at % 256 ∷ read_from byte n (at + 1)

unfoldable pub read_view : Memory → View → List ℕ
unfolding read_from
read_view memory v = read_from memory.byte v.len v.at

-- The characters of a name of the program, each a byte.
unfoldable pub name_bytes : String → List ℕ
name_bytes empty = []
name_bytes (prepend c s) = code c ∷ name_bytes s

unfoldable pub bytes_eq : List ℕ → List ℕ → Bool
bytes_eq [] [] = true
bytes_eq [] (b ∷ bs) = false
bytes_eq (a ∷ as_) [] = false
bytes_eq (a ∷ as_) (b ∷ bs) = (a == b) && bytes_eq as_ bs
