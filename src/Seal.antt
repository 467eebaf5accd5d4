-- ===== src/Seal.antt =====
-- src/seal/plan.rs: what `seal` does with a document, and the checks of its inputs.
pub mod Command
pub mod Verified
pub mod Sealing
use gitveil.Base.{
  ℕ, Bool, true, false, ◌||◌, ◌↔◌, ◌≡◌, ◌≢◌, List, arith, Option, none, some, if◌then◌else◌, Str,
  codes, any, starts_with, contains_str, lines,
}
use gitveil.Config.{format_eq, format_beq_iff}
use gitveil.Source.Node.Equality.{node_beq_iff}
use gitveil.Source.Layout.{layout_beq_iff}
use gitveil.Source.Document.{SourceDocument, semantic_eq}

pub data SealAction : Type 0 where
  preserve_baseline encrypt_new edit_existing : SealAction

unfoldable pub plan_seal : SourceDocument → Option SourceDocument → SealAction
unfolding semantic_eq
plan_seal desired none = encrypt_new
plan_seal desired (some existing) =
    if semantic_eq desired existing then preserve_baseline else edit_existing

unfoldable pub result_matches : SourceDocument → SourceDocument → Bool
unfolding semantic_eq
result_matches desired actual = semantic_eq desired actual

-- The bytes of an ASCII text are its code points.
unfoldable pub resembles_envelope : List ℕ → Bool
unfolding starts_with contains_str
resembles_envelope input =
    starts_with (codes "gitveil_v") input || contains_str (codes "\nsops:") input

-- The start of a conflict marker's line.
abbrev pub is_marker : Str → Bool
is_marker line =
    starts_with (codes "<<<<<<<") line
    || starts_with (codes "=======") line
    || starts_with (codes ">>>>>>>") line

-- The input is decoded by `std::str::from_utf8`, a parameter.
unfoldable pub ciphertext_has_conflict_markers : (List ℕ → Option Str) → List ℕ → Bool
unfolding any starts_with lines
ciphertext_has_conflict_markers from_utf8 input = elim (from_utf8 input) [
  | none ↦ false
  | some text ↦ any is_marker (lines text)
]

-- Two documents are semantically equal exactly if they have the same format, ordered tree and
-- layout.
pub semantic_eq_iff : (a b : SourceDocument) → (semantic_eq a b ≡ true) ↔ (a ≡ b)
unfolding semantic_eq
semantic_eq_iff a b = ground (
  arith,
  format_beq_iff a.format b.format,
  node_beq_iff a.root b.root,
  layout_beq_iff a.layout b.layout,
)

-- `seal` leaves the ciphertext as it is exactly where it decrypts to the desired document, encrypts
-- anew exactly where there is none, and otherwise edits it.
pub plan_seal_iff :
    (desired : SourceDocument) (baseline : Option SourceDocument)
    → ((plan_seal desired baseline ≡ preserve_baseline) ↔ (baseline ≡ some desired))
      × ((plan_seal desired baseline ≡ encrypt_new) ↔ (baseline ≡ none))
      × ((plan_seal desired baseline ≡ edit_existing)
          ↔ ((baseline ≢ some desired) × (baseline ≢ none)))
unfolding plan_seal
plan_seal_iff desired none = ground arith
plan_seal_iff desired (some existing) = ground (arith, semantic_eq_iff desired existing)
