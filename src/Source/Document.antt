-- ===== src/Source/Document.antt =====
-- src/source/document.rs: documents and the errors of the formats. The reasons, which are fixed
-- messages, are left out.
use gitveil.Base.{Bool, ◌&&◌, ◌==◌}
use gitveil.Config.{SourceFormat, format_eq}
use gitveil.Source.NodePath.{NodePath}
use gitveil.Source.Node.{Node}
use gitveil.Source.Node.Equality.{node_eq}
use gitveil.Source.Layout.{Layout, layout_eq}

pub record SourceDocument : Type 0 where
  pub format : SourceFormat
  pub root : Node
  pub layout : Layout

unfoldable pub semantic_eq : SourceDocument → SourceDocument → Bool
semantic_eq a b = a.format == b.format && a.root == b.root && a.layout == b.layout

pub data SourceError : Type 0 where
  non_utf8 parse_error : SourceFormat → SourceError
  duplicate_key unsupported_key : SourceFormat → NodePath → SourceError
  conflict_markers generate_error : SourceFormat → SourceError
  layout_mismatch : NodePath → SourceError
