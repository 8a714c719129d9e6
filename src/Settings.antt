-- ===== src/Settings.antt =====
-- src/Settings.cpp and src/include/Settings.hpp: which X extensions the options allow.
pub mod Extensions
use Prim.Native.String.{String}
use text.Mathlib.Text.{◌==◌ as str_eq}
use xtracepp.Base.{
  Bool, true, false, not, List, [], ◌∷◌, if◌then◌else◌, Option, none, some, Outcome, ok, exited,
  require, ◌>>=◌, ◌>>◌,
}
use xtracepp.Session.{big_requests_name}

-- `Settings::_recognized_extensions`: the others are commented out.
abbrev pub recognized_extensions : List String
recognized_extensions = big_requests_name ∷ []

-- A set of names, as a list.
unfoldable pub contains : String → List String → Bool
contains name [] = false
contains name (n ∷ names) = if str_eq n name then true else contains name names

unfoldable pub erase_name : String → List String → List String
erase_name name [] = []
erase_name name (n ∷ names) =
    if str_eq n name then erase_name name names else n ∷ erase_name name names

abbrev pub is_empty_set : List String → Bool
is_empty_set [] = true
is_empty_set (n ∷ names) = false

-- `-e` and `-E` of the command line, in order: a name to deny, no name to deny all, a name to allow.
pub data ExtensionOption : Type 0 where
  deny : String → ExtensionOption
  deny_all : ExtensionOption
  allow : String → ExtensionOption

-- `enabled_extensions` and `disabled_extensions`.
pub record Choices : Type 0 where
  pub enabled : List String
  pub disabled : List String

-- `_validateExtensionName` ends the process for a name that is not recognized.
unfoldable pub validate_extension_name : String → Outcome (Unit {0})
unfolding contains
validate_extension_name name = if contains name recognized_extensions then ok tt else exited

-- `emplace` of a name that is there changes nothing.
abbrev pub emplace_name : String → List String → List String
emplace_name name names = if contains name names then names else name ∷ names

-- The cases `e` and `E` of the loop over the options: the two exclude each other.
unfoldable pub choose : Choices → ExtensionOption → Outcome Choices
unfolding validate_extension_name contains
choose c deny_all =
    if is_empty_set c.enabled then ok (record c { disabled = recognized_extensions }) else exited
choose c (deny name) =
    if is_empty_set c.enabled
    then (do
      validate_extension_name name
      ok (record c { disabled = emplace_name name c.disabled }))
    else exited
choose c (allow name) =
    if is_empty_set c.disabled
    then (do validate_extension_name name; ok (record c { enabled = emplace_name name c.enabled }))
    else exited

unfoldable pub choose_all : Choices → List ExtensionOption → Outcome Choices
unfolding choose
choose_all c [] = ok c
choose_all c (o ∷ options) = do d ← choose c o; choose_all d options

abbrev pub no_choices : Choices
no_choices = record { enabled = []; disabled = [] }

-- `for ( e_name : disabled_extensions ) _allowed_extensions.erase( e_name )`.
unfoldable pub erase_all : List String → List String → List String
unfolding erase_name
erase_all [] allowed = allowed
erase_all (n ∷ names) allowed = erase_all names (erase_name n allowed)

-- The names of the first list that are not in the second leave the allowed ones.
unfoldable pub erase_others : List String → List String → List String → List String
unfolding contains erase_name
erase_others [] enabled allowed = allowed
erase_others (n ∷ names) enabled allowed =
    erase_others names enabled (if contains n enabled then allowed else erase_name n allowed)

unfoldable pub allowed_extensions : Choices → List String
unfolding erase_all erase_others
allowed_extensions c =
    let left = erase_all c.disabled recognized_extensions in
    if is_empty_set c.enabled then left else erase_others recognized_extensions c.enabled left

unfoldable pub extension_denied : Choices → String → Bool
unfolding allowed_extensions contains
extension_denied c name = not (contains name (allowed_extensions c))
