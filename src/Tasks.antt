-- ===== src/Tasks.antt =====
-- core/task_registry: tasks with checklists and comments.
pub mod Rows
pub mod Board
pub mod Checklists
pub mod Listing
pub mod Laws
