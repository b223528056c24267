-- ===== src/Bracket.antt =====
-- internal/engine/bracket.go: seeded single elimination.
pub mod Seeds
pub mod Generate
