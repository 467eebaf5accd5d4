-- ===== src/Semantic.antt =====
-- src/semantic: the structural diff and the three-way merge of trees.
pub mod Diff
pub mod Merge
