-- ===== src/Concord/Store.antt =====
-- apps/server/src/concord/store.ts: the document store. The promise chain of a document runs its
-- operations one after the other, so an operation is a function on the state. What is authorized is
-- an argument of each operation. Persistence is left out: it follows each change and changes nothing.
pub mod State
pub mod Messages
pub mod Commit
pub mod Write
pub mod Resolve
pub mod Leases
pub mod KeepBoth
pub mod Views
pub mod Promises
pub mod Effects
pub mod Edits
pub mod Settling
pub mod Exclusion
pub mod Anchors
pub mod Sizes
pub mod BothKept
pub mod Shown
pub mod Present
pub mod Runs
pub mod Soundness
pub mod Steps
pub mod SoundRuns
pub mod ByHand
mod Examples
mod ConflictExamples
