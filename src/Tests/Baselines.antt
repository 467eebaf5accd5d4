-- ===== src/Tests/Baselines.antt =====
-- Baseline records and opens of small documents, with toy crates.
use gitveil.Base.{
  ℕ, suc, ◌%◌, true, false, ◌≡◌, refl, ap, subst, ok, collect_sorted, some_injective, List, [], ◌∷◌,
  arith, none, some, Str, codes, map, all, contains, ◌⊎◌, get, list_eq, nat_eq, list_beq,
}
use gitveil.Config.{dotenv, json}
use gitveil.Source.Node.{
  Node, mapping, sequence, scalar, tagged, string, integer, float, bool, null, date_time, end,
  field, nil, entries, node_beq,
}
use gitveil.Source.Layout.{lf, unquoted, DotenvLayout, Layout}
use gitveil.Source.Document.{SourceDocument, semantic_eq}
use gitveil.Source.Dotenv.Generate.{generate}
use gitveil.Baseline.{
  Digests, UnitView, root_unit, root_view, unit_view, unit_keys, units_of, unit_bytes, key_domain,
}
use gitveil.Baseline.Framing.{IsSized, Collision, SameFields, frame_injective}
use gitveil.Baseline.Record.{
  CipherSummary, BaselineRecord, is_unchanged, capture, unit_matches, diff_plain, diff_cipher,
  unit_of, unit_digests, cipher_digests, salt_bytes,
}
use gitveil.Baseline.Trust.{Reliable, AreBytes, SameView, unit_matches-capture}
use gitveil.Baseline.Compare.{IsDifference, diff-IsDifference, diff-capture}
use gitveil.Open.{OpenPlan, mapping_keys, merge_units}
use gitveil.Open.Plan.{plan_open}
use gitveil.Open.Units.{outcome, get-merge_units}
use gitveil.Open.Keeping.{HasUnit, IsSynchronised, plan_open-HasUnit, plan_open-capture}
use gitveil.Open.Roots.{plan_open-IsSynchronised}

abbrev pub node_text : Node → List ℕ
node_text (scalar (string s)) = 1 ∷ map suc s
node_text (mapping fs) = 2 ∷ []
node_text (sequence vs) = 3 ∷ []
node_text (scalar s) = 4 ∷ []
node_text (tagged t v) = 5 ∷ []

abbrev pub toy : Digests
toy = record {
  node_json = node_text;
  entry_json = λ (e : DotenvLayout). 6 ∷ map suc e.key;
  layout_json = λ (l : Layout). 7 ∷ [];
  as_bytes = λ s. s;
  sha256 = map (λ n. n % 256);
  hex_encode = λ bytes. bytes;
  hex_decode = some;
}

nonzero : (s : Str) → contains (map suc s) 0 ≡ false
unfolding contains
nonzero [] = refl
nonzero (c ∷ s) = ground (arith, nonzero s)

node_text-nonzero : (node : Node) → contains (node_text node) 0 ≡ false
unfolding contains
node_text-nonzero (scalar (string s)) = nonzero s
node_text-nonzero (scalar (integer s)) = refl
node_text-nonzero (scalar (float s)) = refl
node_text-nonzero (scalar (bool b)) = refl
node_text-nonzero (scalar null) = refl
node_text-nonzero (scalar (date_time s)) = refl
node_text-nonzero (mapping fs) = refl
node_text-nonzero (sequence vs) = refl
node_text-nonzero (tagged t v) = refl

low_bytes-AreBytes : (input : List ℕ) → AreBytes (map (λ n. n % 256) input)
unfolding all
low_bytes-AreBytes [] = refl
low_bytes-AreBytes (n ∷ input) = ground (arith, low_bytes-AreBytes input)

toy-Reliable : Reliable toy
unfolding contains
toy-Reliable = record {
  hex_round_trip = λ bytes h. refl;
  hash_bytes = low_bytes-AreBytes;
  node_nonzero = node_text-nonzero;
  entry_nonzero = λ entry. nonzero entry.key;
}

abbrev pub text : Str → Node
text s = scalar (string s)

abbrev pub entry : Str → DotenvLayout
entry key = record {
  key = key;
  exported = false;
  quote = unquoted;
  leading = [];
  inline_comment = none;
}

abbrev pub layout_of : List DotenvLayout → Layout
layout_of entries = record {
  line_ending = lf;
  trailing_newline = true;
  preamble_comments = [];
  dotenv = entries;
  template = none;
}

-- Documents with the keys `A` and `B`, and with `A` alone.
abbrev pair_of : Str → Str → SourceDocument
pair_of a b = record {
  format = dotenv;
  root = mapping (field (codes "A") (text a) (field (codes "B") (text b) end));
  layout = layout_of (entry (codes "A") ∷ entry (codes "B") ∷ []);
}

abbrev pub only_a : Str → SourceDocument
only_a a = record {
  format = dotenv;
  root = mapping (field (codes "A") (text a) end);
  layout = layout_of (entry (codes "A") ∷ []);
}

abbrev cipher : CipherSummary
cipher = record { units = (codes "A", codes "x") ∷ []; layout = codes "y" }

abbrev pub salt : List ℕ
salt = 1 ∷ 2 ∷ 3 ∷ []

abbrev recorded : BaselineRecord
recorded = capture toy (pair_of (codes "1") (codes "2")) cipher salt

-- The local side changed `A`, the remote side changed `B`.
abbrev merged : SourceDocument
merged = pair_of (codes "9") (codes "8")

plan_merges :
    plan_open toy generate
      (some (pair_of (codes "9") (codes "2")))
      (pair_of (codes "1") (codes "8"))
      (some recorded)
    ≡ record { document = some merged; conflicts = [] }
unfolding plan_open generate capture semantic_eq node_beq list_beq
plan_merges = refl

-- The view of a key of `pair_of`.
abbrev view_of : Str → Str → UnitView
view_of key value = record { node = text value; entry = some (entry key); layout = none }

plan_open-HasUnit_example :
    HasUnit merged (codes "A") (view_of (codes "A") (codes "9"))
    ⊎ IsSynchronised toy (some recorded) (codes "A") (view_of (codes "A") (codes "9"))
unfolding mapping_keys unit_view contains list_beq
plan_open-HasUnit_example =
    plan_open-HasUnit toy generate (pair_of (codes "9") (codes "2"))
      (pair_of (codes "1") (codes "8")) merged (some recorded) (codes "A")
      (view_of (codes "A") (codes "9")) refl refl (refl, (refl, tt))
      (ap (λ (plan : OpenPlan). plan.document) plan_merges) refl

fits :
    (view : UnitView)
    → unit_view (pair_of (codes "1") (codes "2")) (codes "A") ≡ some view
    → IsSized (unit_bytes toy view)
unfolding unit_view unit_bytes list_beq
fits view h =
    subst (λ v. IsSized (unit_bytes toy v))
      (some_injective (view_of (codes "A") (codes "1")) view h) (omega arith)

plan_open-capture_example :
    HasUnit merged (codes "A") (view_of (codes "A") (codes "9"))
    ⊎ (((original : UnitView) × (unit_view (pair_of (codes "1") (codes "2")) (codes "A")
            ≡ some original)
          × SameView toy original (view_of (codes "A") (codes "9")))
        ⊎ Collision toy)
unfolding mapping_keys unit_view unit_keys unit_bytes contains list_beq all
plan_open-capture_example =
    plan_open-capture toy toy-Reliable generate (pair_of (codes "1") (codes "2"))
      (pair_of (codes "9") (codes "2")) (pair_of (codes "1") (codes "8")) merged cipher salt
      (codes "A") (view_of (codes "A") (codes "9")) refl refl (refl, (refl, tt)) (refl, (refl, tt))
      refl (omega arith) (omega arith) (omega arith) fits
      (ap (λ (plan : OpenPlan). plan.document) plan_merges) refl

unit_matches-capture_example :
    ((original : UnitView) × (unit_view (pair_of (codes "1") (codes "2")) (codes "A")
        ≡ some original)
      × SameView toy original (view_of (codes "A") (codes "1")))
    ⊎ Collision toy
unfolding unit_view unit_keys unit_bytes unit_matches capture contains list_beq all
unit_matches-capture_example =
    unit_matches-capture toy toy-Reliable (pair_of (codes "1") (codes "2")) cipher salt (codes "A")
      (view_of (codes "A") (codes "1")) (refl, (refl, tt)) refl (omega arith) (omega arith)
      (omega arith) fits refl

get-merge_units_example :
    get
      (codes "B")
      (merge_units toy (only_a (codes "1")) (pair_of (codes "1") (codes "8")) none).merged
    ≡ outcome toy none (codes "B") none (some (view_of (codes "B") (codes "8")))
unfolding unit_view mapping_keys contains list_beq
get-merge_units_example =
    get-merge_units toy none (only_a (codes "1")) (pair_of (codes "1") (codes "8"))
      (field (codes "A") (text (codes "1")) end)
      (field (codes "A") (text (codes "1")) (field (codes "B") (text (codes "8")) end)) (codes "B")
      refl refl (refl, (refl, tt))

abbrev items : SourceDocument
items = record { format = json; root = sequence nil; layout = layout_of [] }

-- A local mapping that no record has is replaced by a remote sequence, without a conflict.
mapping_replaced :
    plan_open toy (λ d. ok []) (some (only_a (codes "1"))) items none
    ≡ record { document = some items; conflicts = [] }
unfolding plan_open unit_view semantic_eq node_beq list_beq
mapping_replaced = refl

plan_open-IsSynchronised_example :
    (only_a (codes "1") ≡ only_a (codes "1"))
    × IsSynchronised toy (some (capture toy items cipher salt)) root_unit (root_view items)
unfolding plan_open capture unit_view semantic_eq node_beq list_beq
plan_open-IsSynchronised_example =
    plan_open-IsSynchronised toy (λ d. ok []) items (only_a (codes "1")) (only_a (codes "1"))
      (some (capture toy items cipher salt)) refl refl

frame_injective_example : SameFields salt (codes "A") (codes "body") salt (codes "A") (codes "body")
frame_injective_example =
    frame_injective key_domain salt (codes "A") (codes "body") salt (codes "A") (codes "body")
      (omega arith) (omega arith) (omega arith) (omega arith) (omega arith) (omega arith) refl

diff-IsDifference_example :
    IsDifference recorded.keys
      (collect_sorted (unit_digests toy (salt_bytes toy recorded) (units_of (only_a (codes "1")))))
      (diff_plain toy recorded (only_a (codes "1")))
    × IsDifference recorded.cipher_units
        (collect_sorted (cipher_digests toy (salt_bytes toy recorded) cipher.units))
        (diff_cipher toy recorded cipher)
diff-IsDifference_example = diff-IsDifference toy recorded (only_a (codes "1")) cipher

diff-capture_example :
    (is_unchanged (diff_plain toy recorded (pair_of (codes "1") (codes "2"))) ≡ true)
    × (is_unchanged (diff_cipher toy recorded cipher) ≡ true)
unfolding all
diff-capture_example =
    diff-capture toy toy-Reliable (pair_of (codes "1") (codes "2")) cipher salt refl

diff_removed : (diff_plain toy recorded (only_a (codes "1"))).removed ≡ codes "B" ∷ []
unfolding diff_plain capture list_beq
diff_removed = refl

-- Two leaves of different paths have one unit.
unit_of_dotted : unit_of (codes "a.b") ≡ codes "a"
unfolding unit_of list_beq
unit_of_dotted = refl
