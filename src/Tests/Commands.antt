-- ===== src/Tests/Commands.antt =====
-- The commands on one small pair of files, with toy tools: the ciphertext is the byte 1, and its
-- decryption the byte 2.
use gitveil.Base.{
  filter, ℕ, false, List, [], ◌∷◌, ◌≡◌, ◌==◌, refl, Option, none, some, if◌then◌else◌, codes, ok,
  err, list_beq, list_eq, nat_eq,
}
use gitveil.Config.{dotenv}
use gitveil.Manifest.{Manifest}
use gitveil.Source.Node.{node_beq}
use gitveil.Source.Document.{generate_error}
use gitveil.Source.Formats.{Adapter}
use gitveil.Baseline.Record.{BaselineRecord, capture, from_envelope}
use gitveil.Envelope.Yaml.{Value, string, mapping, end}
use gitveil.Envelope.{Codecs}
use gitveil.Workflow.{Tools, World, ResolvedManifestEntry}
use gitveil.Resolve.Command.{Merged, seal_merged}
use gitveil.Resolve.Narrowed.{IsNarrowed, seal_merged-IsNarrowed}
use gitveil.Workflow.{SopsFailure}
use gitveil.Classify.{classify}
use gitveil.History.{Repository, plaintext_in_history, verify}
use gitveil.Envelope.Ciphertext.{parse}
use gitveil.Seal.Command.{sealed, seal_entry}
use gitveil.Seal.Sealing.{Seals, seal_entry-Seals}
use gitveil.Open.Command.{opened, open_entry}
use gitveil.Open.Written.{Opens, open_entry-Opens}
use gitveil.Seal.{ciphertext_has_conflict_markers}
use gitveil.Status.{pair_status}
use gitveil.Status.Clean.{IsSynchronised, pair_status-IsSynchronised}
use gitveil.Tests.Envelopes.{named, sample, codecs, envelope}
use gitveil.Tests.Baselines.{toy, only_a, entry, layout_of, salt}

abbrev decrypted : Value
decrypted = mapping (
    named (codes "gitveil_v1_dotenv")
      (mapping (
        named (codes "data") (mapping (named (codes "A") (string (codes "1")) end))
          (named (codes "layout") (string (codes "L")) end)))
      end)

abbrev pair_codecs : Codecs
pair_codecs = record codecs {
  yaml_to_string = λ v. some [];
  yaml_from_str = λ s. if s == (1 ∷ []) then some sample else some decrypted;
  layout_to_string = λ l. some (codes "L");
  layout_from_str = λ s. some (layout_of (entry (codes "A") ∷ []));
}

abbrev no_adapter : Adapter
no_adapter = record {
  read = λ text. err (generate_error dotenv);
  write = λ document. err (generate_error dotenv);
}

abbrev pub tools : Tools
tools = record {
  codecs = pair_codecs;
  adapters = record {
    from_utf8 = some;
    json_adapter = no_adapter;
    yaml_adapter = no_adapter;
    toml_adapter = no_adapter;
  };
  digests = toy;
  read_error = λ place. none;
  write_error = λ place bytes. none;
  save_error = λ place baseline. none;
  fresh_salt = salt;
  sops_decrypt = λ bytes place. ok (2 ∷ []);
  sops_encrypt_new = λ content place policy. ok (1 ∷ []);
  sops_edit = λ baseline content place. ok (1 ∷ []);
}

abbrev pub resolved : ResolvedManifestEntry
resolved = record {
  entry = record {
    path = codes ".env";
    format = dotenv;
    recipient_policy = codes "team";
    profile = codes "default";
  };
  recipient_policy = record { name = codes "team"; recipients = codes "age1zz" ∷ [] };
}

abbrev pub manifest : Manifest
manifest = record {
  recipient_policies = (codes "team", resolved.recipient_policy) ∷ [];
  entries = resolved.entry ∷ [];
}

-- The plaintext alone, and the ciphertext alone.
abbrev plain_world : World
plain_world = record {
  files = λ place. if place == codes ".env" then some (codes "A=1\n") else none;
  baselines = none;
}

abbrev cipher_world : World
cipher_world = record {
  files = λ place. if place == codes ".env" then none else some (1 ∷ []);
  baselines = none;
}

seal_runs : (seal_entry tools plain_world manifest resolved).0 ≡ ok sealed
unfolding seal_entry list_beq node_beq ciphertext_has_conflict_markers filter
seal_runs = refl

open_runs : (open_entry tools cipher_world resolved).0 ≡ ok opened
unfolding open_entry list_beq node_beq ciphertext_has_conflict_markers
open_runs = refl

seal_entry-Seals_example :
    Seals tools plain_world resolved (seal_entry tools plain_world manifest resolved)
seal_entry-Seals_example = seal_entry-Seals tools plain_world manifest resolved

open_entry-Opens_example :
    Opens tools cipher_world resolved (open_entry tools cipher_world resolved)
open_entry-Opens_example = open_entry-Opens tools cipher_world resolved

abbrev baseline : BaselineRecord
baseline = capture toy (only_a (codes "1")) (from_envelope envelope) salt

pair_status-IsSynchronised_example :
    (bytes : List ℕ) × (◌≡◌ {A = Option (List ℕ)} (some (1 ∷ [])) (some bytes))
    × (ciphertext_has_conflict_markers tools.codecs.from_utf8 bytes ≡ false)
    × (false ≡ false)
    × IsSynchronised tools resolved (some baseline) (some (codes "A=1\n")) bytes
unfolding pair_status list_beq capture from_envelope
pair_status-IsSynchronised_example =
    pair_status-IsSynchronised tools false resolved (some baseline) (some (codes "A=1\n"))
      (some (1 ∷ [])) refl

abbrev merged_pair : Merged
merged_pair = record {
  document = only_a (codes "1");
  bytes = 1 ∷ [];
  envelope = envelope;
  plaintext = codes "A=1\n";
  data_key_rotated = false;
}

seal_merged_runs : seal_merged tools resolved (1 ∷ []) (only_a (codes "1")) ≡ ok merged_pair
unfolding seal_merged list_beq node_beq parse
seal_merged_runs = refl

seal_merged-IsNarrowed_example : IsNarrowed tools resolved (1 ∷ []) (only_a (codes "1")) merged_pair
seal_merged-IsNarrowed_example =
    seal_merged-IsNarrowed tools resolved (1 ∷ []) (only_a (codes "1")) merged_pair seal_merged_runs

abbrev plain_codecs : Codecs
plain_codecs = record codecs { yaml_from_str = λ s. none }

-- A commit with a plaintext in it is reported.
abbrev repository : Repository
repository = record {
  touching_commits = λ place. if place == codes ".env" then ok (codes "c1" ∷ []) else ok [];
  revision_blob = λ commit place. ok (some (codes "A=1\n"));
}

verify_reports :
    verify plain_codecs repository manifest none
    ≡ ok (record {
      scanned_blobs = 0;
      violations = plaintext_in_history (codes "c1") (codes ".env") ∷ [];
    })
unfolding verify list_beq
verify_reports = refl

identity_first :
    classify (λ bytes. bytes) (codes "config: No identity matched")
    ≡ SopsFailure.identity_unavailable
unfolding classify
identity_first = refl
