-- ===== src/Tests.antt =====
-- Runs of the definitions at concrete inputs.
mod Buffers
mod Framing
mod Closing
mod Sessions
mod Proxies
mod Polling
mod Authority
mod Options
mod Requests
mod Responses
