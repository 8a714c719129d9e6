-- ===== src/Tests/Options.antt =====
-- The options on X extensions at concrete inputs.
use xtracepp.Base.{◌≡◌, refl, not, ◌&&◌, ◌||◌, [], ◌∷◌, exited}
use xtracepp.Session.{big_requests_name}
use xtracepp.Settings.{
  allow, Choices, no_choices, choose, choose_all, validate_extension_name, contains, is_empty_set,
  recognized_extensions, extension_denied,
}
use xtracepp.Settings.Extensions.{extension_denied_lem}

abbrev none_allowed : Choices
none_allowed = record { enabled = []; disabled = recognized_extensions }

extension_denied_lem_example :
    extension_denied none_allowed big_requests_name
    ≡ not (
        contains big_requests_name recognized_extensions
        && (not (contains big_requests_name none_allowed.disabled)
            && (is_empty_set none_allowed.enabled
                || contains big_requests_name none_allowed.enabled)))
extension_denied_lem_example = extension_denied_lem none_allowed big_requests_name

-- A name that is not recognized ends the process.
unknown_name : choose_all no_choices (allow "SHAPE" ∷ []) ≡ exited
unfolding choose_all choose validate_extension_name contains
unknown_name = refl
