-- ===== src/Tests.antt =====
-- The theorems at concrete inputs, and runs of the definitions, by part.
mod Jids
mod Parsers
mod Encodings
mod Schedules
mod Limits
mod Buffers
mod Texts
mod Families
mod Clients
mod Elements
mod Sessions
mod Integers
