-- ===== src/Tests.antt =====
-- Runs of the development at concrete inputs, with one implementation of the third-party crates and
-- a codec whose messages are non-empty byte strings.
mod Codec
mod Exchange
mod Streams
mod Headers
mod Calls
mod Negotiation
mod Web
mod Unary
mod Health
mod Services
mod Details
mod Codegen
mod H3
mod Listener
mod Settings
mod Deadline
