-- ===== src/Protocol/Events.antt =====
-- src/include/protocol/events.hpp: the structs of the events, each 32 bytes.
mod Input
mod Windows
mod Clients
pub use xtracepp.Protocol.Events.Input.{
  input_event, motion_notify_event, boundary_event, focus_event, keymap_notify_event,
}
pub use xtracepp.Protocol.Events.Windows.{
  expose_event, graphics_exposure_event, no_exposure_event, visibility_notify_event,
  create_notify_event, destroy_notify_event, unmap_notify_event, map_notify_event,
  map_request_event, reparent_notify_event, configure_notify_event, configure_request_event,
  gravity_notify_event, resize_request_event, circulate_notify_event, circulate_request_event,
}
pub use xtracepp.Protocol.Events.Clients.{
  property_notify_event, selection_clear_event, selection_request_event, selection_notify_event,
  colormap_notify_event, client_message_event, mapping_notify_event,
}
