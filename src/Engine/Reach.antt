-- ===== src/Engine/Reach.antt =====
-- The engines that the public operations lead to: what holds from one call to the next.
pub mod Core
pub mod Live
pub mod Events
pub mod Closing
