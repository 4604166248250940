-- ===== src/Refine.antt =====
-- The code against the abstract file system: a dataset represents a file system, and each operation
-- of the code has on it the result and the effect that the abstract one has.
pub mod Slots
pub mod Represents
pub mod WriteSlots
pub mod Writes
pub mod Reads
pub mod Keeps
pub mod Names
pub mod Find
pub mod NextName
pub mod Walk
pub mod LastName
pub mod Parse
pub mod Delete
pub mod Gone
pub mod AbsolutePath
pub mod Context
pub mod Commands
pub mod Create
pub mod Session
pub mod Listing
pub mod Items
pub mod ObjectListing
pub mod Stat
pub mod Lines
pub mod ChildText
pub mod Child
pub mod Listed
pub mod Clients
pub mod Makers
pub mod Rename
pub mod Reparent
pub mod UnixListing
pub mod Said
pub mod Shell
pub mod Script
pub mod Defects
pub mod Orphans
