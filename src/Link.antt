-- ===== src/Link.antt =====
-- lib/cmux/cmux_client.c and lib/cmux/cmux_server.c at the two ends of one link.
pub mod Received
pub mod Terminals
pub mod Control
pub mod Races
pub mod Maximum
pub mod Guards
pub mod Short
pub mod Multiplex
pub mod Frames
pub mod Acts
pub mod Handles
pub mod Callbacks
pub mod System
