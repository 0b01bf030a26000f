-- ===== src/Workspace.antt =====
-- internal/workspacefile: the files of a workspace.
pub mod Text
pub mod Paths
pub mod Files
mod Tests
