-- ===== src/Parser.antt =====
-- src/X11ProtocolParser.cpp and the files beside it: cutting the byte streams into X11 messages.
-- What is printed is left out; every function keeps the number of bytes that it parses, its
-- asserts and its changes of state.
pub mod Fields
pub mod ListMembers
pub mod ListSizes
pub mod Setup
pub mod Messages
pub mod Sizing
pub mod Framing
pub mod Closing
pub mod Requests
pub mod Replies
pub mod Events
pub mod Errors
pub mod Stash
pub mod Extensions
pub mod Dispatch
