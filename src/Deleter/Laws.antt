-- ===== src/Deleter/Laws.antt =====
-- What a deletion leaves (api/resourcedeleter.go).
pub mod Steps
pub mod Released
pub mod Spared
pub mod Bindings
pub mod Rules
