-- ===== src/Session/Extensions.antt =====
-- src/include/Connection.hpp: the extensions that a connection may enable.
use Prim.Native.String.{String}
use text.Mathlib.Text.{◌==◌ as str_eq}
use text.Mathlib.TextEquality.{eq_iff}
use xtracepp.Base.{◌≡◌, Bool, true, false, List, [], ◌∷◌, arith, if◌then◌else◌, ◌&&◌}
use xtracepp.Session.{
  Connection, set_toggle, toggle_of, enable_extension, disable_extension, extension_enabled,
}

-- The map has an entry for the extension: only these can be enabled.
unfoldable pub known : String → List (String × Bool) → Bool
known name [] = false
known name ((key, v) ∷ m) = if str_eq key name then true else known name m

toggle_of-set_toggle :
    (name other : String) (on : Bool) (m : List (String × Bool))
    → toggle_of other (set_toggle name on m)
      ≡ (if str_eq name other then known name m && on else toggle_of other m)
unfolding toggle_of set_toggle known
toggle_of-set_toggle name other on [] = ground arith
toggle_of-set_toggle name other on ((key, v) ∷ m) = ground (
  arith,
  eq_iff name other,
  eq_iff key name,
  eq_iff key other,
  toggle_of-set_toggle name other on m,
)

-- Enabling an extension enables it, if the connection knows it, and disabling it disables it; no
-- other extension changes.
pub extension_enabled-toggles :
    (c : Connection) (name other : String)
    → (extension_enabled (enable_extension c name) other
        ≡ (if str_eq name other then known name c.extensions else extension_enabled c other))
      × (extension_enabled (disable_extension c name) other
          ≡ (if str_eq name other then false else extension_enabled c other))
unfolding extension_enabled enable_extension disable_extension
extension_enabled-toggles c name other = (
  ground (arith, toggle_of-set_toggle name other true c.extensions),
  ground (arith, toggle_of-set_toggle name other false c.extensions),
)
