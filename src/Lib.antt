-- ===== src/Lib.antt =====
-- A verification library for the second engine of sequence: a store of typed cells, addressed by
-- dotted paths, whose every change is a block that is admitted, composed and propagated.
--
-- The parts, and where each is modelled:
-- Prelude: names of the library, Boolean tests, lists, association lists and text.
-- Lang: values, constraints and types (src/type.ts). A number is an integer, an object has an
--     identity beside its content, and `undefined` is a value.
-- Lang/Vocabulary: the constructors of constraints and types and the queries on types (src/type.ts); an
--     object among the arguments comes with its identity. Clauses has the constructors over constraints and
--     options, Template reads a text with holes, where the text of a number is the parameter `show`, and
--     Template/Splits is about what it finds.
-- Kernel/Data: the records of src-v2/sequence.ts; `Store` is the object `Sequence`.
-- Kernel/Tree: `findCell`, `ensureCell`, `walk`, `childSegments`. A cell is named by the segments of
--     its path, where the source holds a reference to it.
-- Kernel/Host: the code of the host, and `onInsert`. A guard, an emitter, an observer or an impl is a
--     program of calls of the public methods, which is what the engine documents; an impl may fail.
-- Kernel/Guards: `installBuiltinGuards`, `pathMatchesGlob`, `scopeMatches`, `collectPaths`.
-- Kernel/Exec: state passing with overflow, and the elementary writes.
-- Kernel/Step: `composeAtCell`, `applyDelta`, `installRule`, `registerRefEdges`,
--     `wireTemporalWatches`, `traverse`, `sameType`.
-- Kernel/Calls: `runGuard`, `computeDerived`, `dispatchRule`, and the body of `insert` with its observers.
-- Kernel/Propagate: `propagate` and `fireAccess`.
-- Kernel/Insert: `step`, `get`, `tryAutoExpand`, and the public `insert` and `get`.
-- Kernel/Trace: a relation on stores that every elementary write satisfies holds across every
--     operation; Kernel/Moves, Kernel/Invariant, Kernel/Evolution and Kernel/Flags are its uses.
-- Kernel/Silent and Kernel/Quiet: what a write where nothing listens does;
--     Kernel/ReadBack: such a write read back.
-- Compose/Meet: the loop of `composeConstraints` (src/compose.ts) for any table of pair handlers;
--     Compose/Bounds: its rows for `min`, `max` and `range`, their checks, and the check for crossed
--     bounds. Bounds are integers; the messages of `never` are left out.
-- Compose/Pairs: `pairHandlers`, over the composition of nested types; Compose/Contradiction:
--     `detectContradiction`; Compose/Lattice: `compose`, `composeOr`, `composeConstraints`, `covers`,
--     `selectFirstBranch`. They call one
--     another on parts of their arguments, and the model counts the depth of the calls in fuel. Parameters:
--     `misses`, the floating point test that a deadline is missed, and in Compose/Check, `check`, the test
--     `matches` of a regular expression. Compose/Lower compares the two for types without functions and segments,
--     Compose/Select has the order of the branches, and Compose/Fuel the depth that is enough: three levels
--     for each type inside the two.
-- Compose/Backward: `backwardInfer`, `backwardInferWildcard`, `backwardInferMapped` and
--     `backwardInferIdentity` (src/compose.ts), over `compose` with as many nested calls as are enough.
-- Compose/Expr: `evaluateExpr` and `exprConcreteness` (src/compose.ts), over integers; `Expr` is in
--     src/type.ts.
-- Stdlib/Partition: src-v2/stdlib/partition.ts, a guard over the kernel; Refusal is what an
--     `insert` that it refuses does.
-- Stdlib/Snapshot: src-v2/stdlib/snapshot.ts, `captureSnapshot` and `restoreSnapshot` for entries.
-- Space/Relations, Space/Validity, Space/Elect, Space/Designate: src-v2/relations.ts,
--     src-v2/validity.ts, src-v2/elect.ts and src-v2/designate.ts. The text of a number in the key of a sort
--     is a parameter; an allocation rule of an unknown order, which the source refuses, is no value of the
--     model.
-- Space/Procedure: src-v2/procedure.ts. Plan has `planProcedure`, `procedureGaps` and `lintSecretFlow`,
--     Config `planProcessorConfig`; Gaps, Secrets and Config/Agrees compare them and follow the secrets. A
--     throw is `none`; the messages of errors are left out, and the text of a value that is no string
--     is the parameter `show`.
-- Space/Evaluate: src-v2/evaluate.ts. The file itself has the addresses of a state, Arguments `resolveArg`,
--     `collectAtTerms` and `resolveExprArg`, Judge `evaluateConstraint`; Ordering, Clauses and Counts are about
--     its verdicts, and Gather about the evidence that it reads. A throw is `none`; the texts that the
--     platform makes are the record `Platform`.
-- Space/Case: src-v2/case.ts. The file itself has `declareConcern`, `readConcern` and `cellTimeBound`, Walk
--     `caseWalk` with `accessScore` of src-v2/stdlib/reader.ts, and Search its queue. A score is two calls of
--     `get`, which may fire rules and change the kernel during the walk, so the walk runs in the kernel's monad
--     and reads each cell anew where the source does; it takes the number of its rounds as given. Search also
--     has a plain search of a graph; Search/Pushes, Search/Once and Walk/Ends show that as many rounds as the
--     tree has cells are enough for it and what it visits, and Walk/Steady that the walk follows it where the
--     scores leave the cells as they are. Walk/Yields is about what is yielded, and Walk/Silent about the score
--     of a path whose counters no rule is in scope of.
-- Space/Trajectory: src-v2/trajectory.ts, `expiryFromTrajectory`, over a parameter for the floating point
--     arithmetic on one trend; Earliest is about the expiry that it chooses.
-- Dsl/Tokenizer: src/dsl/tokenizer.ts, the lexer of the type language; Read has the position and the
--     loops inside a token, Progress shows that the lexer ends. Its fuel is one round for each
--     character and one for the end. The columns count code points.
-- Kernel/Tests, Stdlib/Tests, Space/Tests, Space/Procedure/Tests, Space/Evaluate/Tests,
--     Space/Case/Walk/Tests, Space/Trajectory/Tests, Dsl/Tests, Lang/Tests and Compose/Tests: the theorems at
--     concrete stores, types, texts and claims.
--
-- `step`, `get` and the host's code call one another. The source bounds the depth of `step` by 128, but
-- the host may insert from within a guard without a bound, so the model counts the nesting of the
-- calls in fuel, and `none` is the overflow of the stack. The loops over a set that grows while it
-- is read (the edges out of a cell, the watchers of a prefix) take the same fuel as their bound.
-- Kernel/Quiet shows a class of inputs where two levels are enough.
--
-- The kernel takes the composition, the check, the specificity and the text of types as the interface
-- `Lattice` of Kernel/Host; of src/compose.ts only the parts named above are modelled, not the
-- specificity and the floating point distributions. Not modelled:
-- a guard, an emitter or an observer that throws; the change of the registries and of the observers
-- while a call runs. A guard's context holds the cell as it was when the
-- guard was called. The names that every JavaScript object inherits are no keys of the tables that
-- the source keeps in plain objects. The first engine, the parser and the rest of
-- the standard library are not modelled.

pub mod Prelude
pub mod Lang
pub mod Compose
pub mod Kernel
pub mod Stdlib
pub mod Space
pub mod Dsl
