-- ===== src/Shamir.antt =====
-- internal/shamir/shamir.go: Shamir secret sharing over GF(2^8).
pub mod Gf
pub mod Field
pub mod Lagrange
pub mod Raw
pub mod Codec
pub mod Share
