-- ===== src/Settings/Extensions.antt =====
-- src/Settings.cpp: what the sets of enabled and disabled names come to.
use Prim.Native.String.{String}
use text.Mathlib.Text.{◌==◌ as str_eq}
use text.Mathlib.TextEquality.{eq_iff}
use xtracepp.Base.{
  ◌≡◌, ap, inl, inr, Bool-cases, Bool, true, false, not, ◌&&◌, ◌||◌, List, [], ◌∷◌, arith,
  if◌then◌else◌,
}
use xtracepp.Settings.{
  Choices, recognized_extensions, contains, erase_name, is_empty_set, erase_all, erase_others,
  allowed_extensions, extension_denied,
}

contains-erase_name :
    (name other : String) (names : List String)
    → contains name (erase_name other names) ≡ (not (str_eq other name) && contains name names)
unfolding contains erase_name
contains-erase_name name other [] = ground arith
contains-erase_name name other (n ∷ names) =
    ground (
      arith,
      eq_iff n name,
      eq_iff n other,
      eq_iff other name,
      contains-erase_name name other names,
    )

contains-erase_all :
    (name : String) (gone names : List String)
    → contains name (erase_all gone names) ≡ (not (contains name gone) && contains name names)
unfolding contains erase_all
contains-erase_all name [] names = ground arith
contains-erase_all name (g ∷ gone) names =
    ground
      (arith, contains-erase_all name gone (erase_name g names), contains-erase_name name g names)

contains-erase_others :
    (name : String) (all enabled names : List String)
    → contains name (erase_others all enabled names)
      ≡ ((not (contains name all) || contains name enabled) && contains name names)
unfolding contains erase_others
contains-erase_others name [] enabled names = ground arith
contains-erase_others name (n ∷ all) enabled names = elim (Bool-cases (str_eq n name)) [
  | inl same ↦
      let found : contains n enabled ≡ contains name enabled =
        ap (λ (t : String). contains t enabled) ((eq_iff n name).0 same) in
      ground (
        arith,
        same,
        found,
        contains-erase_others name all enabled names,
        contains-erase_others name all enabled (erase_name n names),
        contains-erase_name name n names,
      )
  | inr differs ↦ ground (
    arith,
    differs,
    contains-erase_others name all enabled names,
    contains-erase_others name all enabled (erase_name n names),
    contains-erase_name name n names,
  )
]

-- An extension is allowed if xtracepp recognizes it, it is not denied, and it is among the enabled ones
-- where there are any; every other is denied.
pub extension_denied_lem :
    (c : Choices) (name : String)
    → extension_denied c name
      ≡ not (
          contains name recognized_extensions
          && (not (contains name c.disabled)
              && (is_empty_set c.enabled || contains name c.enabled)))
unfolding extension_denied allowed_extensions
extension_denied_lem c name =
    by_enabled (is_empty_set c.enabled) (contains-erase_all name c.disabled recognized_extensions) (
      contains-erase_others name recognized_extensions c.enabled
        (erase_all c.disabled recognized_extensions))
  where
    by_enabled :
        (empty : Bool)
        → contains name (erase_all c.disabled recognized_extensions)
          ≡ (not (contains name c.disabled) && contains name recognized_extensions)
        → contains name (
            erase_others recognized_extensions c.enabled
              (erase_all c.disabled recognized_extensions))
          ≡ ((not (contains name recognized_extensions) || contains name c.enabled)
              && contains name (erase_all c.disabled recognized_extensions))
        → not (
            contains name (
              if empty
              then erase_all c.disabled recognized_extensions
              else erase_others recognized_extensions c.enabled
                  (erase_all c.disabled recognized_extensions)))
          ≡ not (
              contains name recognized_extensions
              && (not (contains name c.disabled) && (empty || contains name c.enabled)))
    by_enabled true left others = ground (arith, left)
    by_enabled false left others = ground (arith, left, others)

abbrev exclusive : Choices → Bool
exclusive c = is_empty_set c.enabled || is_empty_set c.disabled
