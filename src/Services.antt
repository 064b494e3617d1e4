-- ===== src/Services.antt =====
-- lib/cmux/services: the codecs of the control channel's services, a module for each.
pub mod Address
pub mod ModemStatus
pub mod LineStatus
pub mod ServiceNegotiation
pub mod ParameterNegotiation
pub mod PortNegotiation
pub mod Steady
pub mod Statuses
