-- ===== src/Release.antt =====
-- internal/release/release.go: versions, manifests and the verification of an update.
pub mod Order
pub mod Identifier
pub mod Pattern
pub mod Version
mod PreRelease
pub mod Precedence
pub mod Manifest
pub mod Verify
pub mod Package
pub mod Hex
pub mod Identity
pub mod Value
pub mod Numbers
