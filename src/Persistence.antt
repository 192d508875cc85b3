-- ===== src/Persistence.antt =====
-- persistence/: the tables, the session and the repository.
pub mod Rows
pub mod Session
pub mod Repository
pub mod Post
pub mod Transition
pub mod Total
pub mod Graphs
pub mod Refusals
pub mod Evolution
