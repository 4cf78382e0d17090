-- ===== src/Space.antt =====
-- src-v2/validity.ts, relations.ts, elect.ts, designate.ts, procedure.ts, evaluate.ts, case.ts and
-- trajectory.ts: readings of the laws, the claims and the cells of a space, as plain functions.
pub mod Validity
pub mod Relations
pub mod Designate
pub mod Elect
pub mod Procedure
pub mod Evaluate
pub mod Case
pub mod Trajectory
mod Tests
