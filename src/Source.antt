-- ===== src/Source.antt =====
-- src/source: documents, and the dotenv format.
pub mod Node
pub mod NodePath
pub mod Layout
pub mod Document
pub mod Dotenv
pub mod Formats
