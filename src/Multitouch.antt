-- ===== src/Multitouch.antt =====
-- "Multitouch Support": the interface, its engines and the transducers that they are told of.
pub mod Transducer
pub mod ForceClick
pub mod Message
pub mod Contacts
pub mod Native
pub mod Interface
mod Samples
mod Tests
