-- ===== src/Compose.antt =====
-- src/compose.ts: the composition of types, which is the meet of their constraints, the dispatch to the
-- branches of a union, and the check of a value against a type.
pub mod Meet
pub mod Bounds
pub mod Pairs
pub mod Contradiction
pub mod Lattice
pub mod Check
pub mod Lower
pub mod Select
pub mod Fuel
pub mod Expr
pub mod Backward
mod Tests
