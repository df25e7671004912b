-- ===== src/Bindings.antt =====
-- config/bindings.go: key bindings.
pub mod Names
pub mod Parse
pub mod Grammar
pub mod Lookup
pub mod Meaning
pub mod Layers
