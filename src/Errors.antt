-- ===== src/Errors.antt =====
-- The package errors: result codes, the taxonomy, the problem envelope, its rendering.
pub mod Codes
pub mod Registry
pub mod Problem
pub mod Taxonomy
pub mod Envelope
pub mod Relay
pub mod ToProblem
pub mod Render
pub mod Journey
pub mod Tests
