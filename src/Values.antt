-- ===== src/Values.antt =====
-- pkg/helmvalues/values.go: the nested values of charts, and the paths that address them.
pub mod Tree
pub mod Text
pub mod Path
