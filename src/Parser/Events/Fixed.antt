-- ===== src/Parser/Events/Fixed.antt =====
-- An event of the core protocol that is parsed is 32 bytes.
use xtracepp.Base.{
  ℕ, ◌≤◌, ◌≡◌, refl, inl, inr, Bool, List, [], ◌&∷◌, arith, leb, ◌==◌, ==_iff, drop, find, find-All,
  All, Option-cases, ok, >>=-eq-ok, require-eq-ok, ok-injective, sym, ◌∙◌,
}
use Prim.Native.String.{String}
use xtracepp.Session.{Connection}
use xtracepp.Parser.ListMembers.{parse_list_of, parse_fixed}
use xtracepp.Protocol.{Struct, sizeof_struct}
use xtracepp.Protocol.Events.{
  input_event, motion_notify_event, boundary_event, focus_event, keymap_notify_event, expose_event,
  graphics_exposure_event, no_exposure_event, visibility_notify_event, create_notify_event,
  destroy_notify_event, unmap_notify_event, map_notify_event, map_request_event,
  reparent_notify_event, configure_notify_event, configure_request_event, gravity_notify_event,
  resize_request_event, circulate_notify_event, circulate_request_event, property_notify_event,
  selection_clear_event, selection_request_event, selection_notify_event, colormap_notify_event,
  client_message_event, mapping_notify_event,
}
use xtracepp.Parser.Requests.Properties.{parse_event}
use xtracepp.Parser.Replies.{replying, format_members}
use xtracepp.Parser.Events.{
  EventParser, event_code, any_event, own_event, event_as, core_events, event_at, parse_input_event,
  parse_key_press_event, parse_key_release_event, parse_button_press_event,
  parse_button_release_event, parse_motion_notify_event, parse_boundary_event,
  parse_enter_notify_event, parse_leave_notify_event, parse_focus_event, parse_focus_in_event,
  parse_focus_out_event, parse_keymap_notify_event, parse_expose_event,
  parse_graphics_exposure_event, parse_no_exposure_event, parse_visibility_notify_event,
  parse_create_notify_event, parse_destroy_notify_event, parse_unmap_notify_event,
  parse_map_notify_event, parse_map_request_event, parse_reparent_notify_event,
  parse_configure_notify_event, parse_configure_request_event, parse_gravity_notify_event,
  parse_resize_request_event, parse_circulate_notify_event, parse_circulate_request_event,
  parse_property_notify_event, parse_selection_clear_event, parse_selection_request_event,
  parse_selection_notify_event, parse_colormap_notify_event, parse_client_message_event,
  parse_mapping_notify_event,
}

module _ (little_endian : Bool) where
  -- What is parsed is 32 bytes, of which all are there.
  abbrev IsFixed : EventParser → Type 0
  IsFixed parser =
      (conn : Connection) (d : List ℕ) (sz n : ℕ) → parser conn d sz ≡ ok n → (n ≡ 32) × (32 ≤ sz)

  -- The event with the code has it, and the code is one of the core protocol.
  abbrev IsEventOf : ℕ → EventParser → Type 0
  IsEventOf code parser =
      (conn : Connection) (d : List ℕ) (sz n : ℕ)
      → parser conn d sz ≡ ok n
      → (n ≡ 32) × (32 ≤ sz) × (event_code little_endian conn d ≡ code) × (2 ≤ code) × (code ≤ 34)

  any_event-IsFixed :
      (s : Struct) (shown : List String)
      → sizeof_struct s ≡ 32
      → IsFixed (any_event little_endian s shown)
  unfolding any_event
  any_event-IsFixed s shown whole conn d sz n e =
      let (room, e1) = require-eq-ok (leb 32 sz) _ e in
      let (_, e2) = require-eq-ok (sizeof_struct s == 32) _ e1 in
      let (_, _, e3) = >>=-eq-ok (format_members (replying little_endian s conn d sz) shown) _ e2 in
      (sym (ok-injective e3) ∙ whole, ground arith)

  own_event-IsEventOf :
      (s : Struct) (code : ℕ) (shown : List String)
      → sizeof_struct s ≡ 32
      → (2 ≤ code) × (code ≤ 34)
      → IsEventOf code (own_event little_endian s code shown)
  unfolding own_event
  own_event-IsEventOf s code shown whole (low, high) conn d sz n e =
      let (room, e1) = require-eq-ok (leb 32 sz) _ e in
      let (own, e2) = require-eq-ok (event_code little_endian conn d == code) _ e1 in
      let (_, e3) = require-eq-ok (sizeof_struct s == 32) _ e2 in
      let (_, _, e4) = >>=-eq-ok (format_members (replying little_endian s conn d sz) shown) _ e3 in
      (sym (ok-injective e4) ∙ whole, ground arith, (==_iff _ _).0 own, low, high)

  event_as-IsEventOf :
      (code : ℕ) (base : EventParser)
      → IsFixed base
      → (2 ≤ code) × (code ≤ 34)
      → IsEventOf code (event_as little_endian code base)
  unfolding event_as
  event_as-IsEventOf code base fixed (low, high) conn d sz n e =
      let (_, e1) = require-eq-ok (leb 4 sz) _ e in
      let (own, e2) = require-eq-ok (event_code little_endian conn d == code) _ e1 in
      let (whole, room) = fixed conn d sz n e2 in (whole, room, (==_iff _ _).0 own, low, high)

  parse_keymap_notify-IsEventOf : IsEventOf 11 (parse_keymap_notify_event little_endian)
  unfolding parse_keymap_notify_event sizeof_struct
  parse_keymap_notify-IsEventOf conn d sz n e =
      let (m, e0, e1) =
        >>=-eq-ok (own_event little_endian keymap_notify_event 11 [] conn d sz) _ e in
      let (_, _, e2) = >>=-eq-ok (parse_list_of (parse_fixed 1) 31 (drop 1 d) 31) _ e1 in
      own_event-IsEventOf keymap_notify_event 11 [] refl (omega arith) conn d sz n (e0 ∙ e2)

  core_events-IsEventOf :
      All (λ (entry : ℕ × EventParser). IsEventOf entry.0 entry.1) (core_events little_endian)
  unfolding sizeof_struct parse_input_event parse_key_press_event parse_key_release_event
      parse_button_press_event parse_button_release_event parse_motion_notify_event
      parse_boundary_event parse_enter_notify_event parse_leave_notify_event parse_focus_event
      parse_focus_in_event parse_focus_out_event parse_expose_event parse_graphics_exposure_event
      parse_no_exposure_event parse_visibility_notify_event parse_create_notify_event
      parse_destroy_notify_event parse_unmap_notify_event parse_map_notify_event
      parse_map_request_event parse_reparent_notify_event parse_configure_notify_event
      parse_configure_request_event parse_gravity_notify_event parse_resize_request_event
      parse_circulate_notify_event parse_circulate_request_event parse_property_notify_event
      parse_selection_clear_event parse_selection_request_event parse_selection_notify_event
      parse_colormap_notify_event parse_client_message_event parse_mapping_notify_event
  core_events-IsEventOf =
      event_as-IsEventOf 2 _ (any_event-IsFixed input_event _ refl) (omega arith)
      &∷ event_as-IsEventOf 3 _ (any_event-IsFixed input_event _ refl) (omega arith)
      &∷ event_as-IsEventOf 4 _ (any_event-IsFixed input_event _ refl) (omega arith)
      &∷ event_as-IsEventOf 5 _ (any_event-IsFixed input_event _ refl) (omega arith)
      &∷ own_event-IsEventOf motion_notify_event 6 _ refl (omega arith)
      &∷ event_as-IsEventOf 7 _ (any_event-IsFixed boundary_event _ refl) (omega arith)
      &∷ event_as-IsEventOf 8 _ (any_event-IsFixed boundary_event _ refl) (omega arith)
      &∷ event_as-IsEventOf 9 _ (any_event-IsFixed focus_event _ refl) (omega arith)
      &∷ event_as-IsEventOf 10 _ (any_event-IsFixed focus_event _ refl) (omega arith)
      &∷ parse_keymap_notify-IsEventOf
      &∷ own_event-IsEventOf expose_event 12 _ refl (omega arith)
      &∷ own_event-IsEventOf graphics_exposure_event 13 _ refl (omega arith)
      &∷ own_event-IsEventOf no_exposure_event 14 _ refl (omega arith)
      &∷ own_event-IsEventOf visibility_notify_event 15 _ refl (omega arith)
      &∷ own_event-IsEventOf create_notify_event 16 _ refl (omega arith)
      &∷ own_event-IsEventOf destroy_notify_event 17 _ refl (omega arith)
      &∷ own_event-IsEventOf unmap_notify_event 18 _ refl (omega arith)
      &∷ own_event-IsEventOf map_notify_event 19 _ refl (omega arith)
      &∷ own_event-IsEventOf map_request_event 20 _ refl (omega arith)
      &∷ own_event-IsEventOf reparent_notify_event 21 _ refl (omega arith)
      &∷ own_event-IsEventOf configure_notify_event 22 _ refl (omega arith)
      &∷ own_event-IsEventOf configure_request_event 23 _ refl (omega arith)
      &∷ own_event-IsEventOf gravity_notify_event 24 _ refl (omega arith)
      &∷ own_event-IsEventOf resize_request_event 25 _ refl (omega arith)
      &∷ own_event-IsEventOf circulate_notify_event 26 _ refl (omega arith)
      &∷ own_event-IsEventOf circulate_request_event 27 _ refl (omega arith)
      &∷ own_event-IsEventOf property_notify_event 28 _ refl (omega arith)
      &∷ own_event-IsEventOf selection_clear_event 29 _ refl (omega arith)
      &∷ own_event-IsEventOf selection_request_event 30 _ refl (omega arith)
      &∷ own_event-IsEventOf selection_notify_event 31 _ refl (omega arith)
      &∷ own_event-IsEventOf colormap_notify_event 32 _ refl (omega arith)
      &∷ own_event-IsEventOf client_message_event 33 _ refl (omega arith)
      &∷ own_event-IsEventOf mapping_notify_event 34 _ refl (omega arith)
      &∷ tt

  -- An event that `_parseEvent` accepts is one of the core protocol, 32 bytes, of which all are there.
  pub parse_event-core :
      (conn : Connection) (d : List ℕ) (sz n : ℕ)
      → parse_event little_endian (event_at little_endian) conn d sz ≡ ok n
      → (n ≡ 32)
        × (32 ≤ sz)
        × (2 ≤ event_code little_endian conn d)
        × (event_code little_endian conn d ≤ 34)
  unfolding parse_event event_at event_code
  parse_event-core conn d sz n e =
      let code = event_code little_endian conn d in
      let (_, e1) = require-eq-ok (leb 32 sz) _ e in
      let (m, e2, e3) = >>=-eq-ok (event_at little_endian code conn d sz) _ e1 in
      let (_, e4) = require-eq-ok (m == 32) _ e3 in
      let same : m ≡ n = ok-injective e4 in
      elim (Option-cases (find code (core_events little_endian))) [
        | inl unknown ↦ cc
        | inr (parser, found) ↦
            let (whole, room, _, low, high) =
              find-All (λ (entry : ℕ × EventParser). IsEventOf entry.0 entry.1) code
                (core_events little_endian) parser core_events-IsEventOf found conn d sz m
                (rw found at e2) in
            (sym same ∙ whole, room, low, high)
      ]
