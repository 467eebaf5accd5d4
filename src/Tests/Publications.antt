-- ===== src/Tests/Publications.antt =====
-- The publication of a registration and the convergence of ciphertexts on small disks.
use gitveil.Base.{
  true, [], ◌∷◌, ◌≡◌, ◌≢◌, ◌==◌, refl, none, some, if◌then◌else◌, codes, contains, ok, filter,
  list_beq, get, nat_eq, list_eq,
}
use gitveil.ManagedPath.{ManagedPath}
use gitveil.Recipient.{AgeRecipientPolicy}
use gitveil.Authorization.{FilePlan, rewrap}
use gitveil.Manifest.{ciphertext_path}
use gitveil.Git.{unmatched, rule}
use gitveil.Configure.{added}
use gitveil.Envelope.Ciphertext.{parse as parse_ciphertext}
use gitveil.Configure.Command.{ignore_path, ignore_states, visibility_paths}
use gitveil.Configure.Publication.{RegistrationPublication, publish_registration}
use gitveil.Configure.Publication.Order.{
  nothing_seen, Ends as PublicationEnds, monitor as publication_monitor,
}
use gitveil.Configure.Publication.Protected.{publish_registration-Accepts}
use gitveil.Configure.Publication.Quiet.{publish_registration-succeeds}
use gitveil.Script.Monitor.{Accepts, state_after}
use gitveil.Script.Disk.{Disk, Git, private_mode, run as run_on, trace}
use gitveil.Publishing.{Setting, manifest_path, ManifestPreparation}
use gitveil.Recipients.{AffectedFile, Ready, rewrapped, converged, published}
use gitveil.Recipients.Command.{run}
use gitveil.Recipients.Order.{start, monitor, Ends}
use gitveil.Recipients.Engine.{run-Accepts}
use gitveil.Tests.Baselines.{only_a}
use gitveil.Tests.Commands.{tools, resolved, manifest}
use gitveil.Tests.Manifests.{tables, codec, serde}

abbrev setting : Setting
setting = record {
  tools = tools;
  serde = serde;
  tables = tables;
  codec = codec;
  sops_client = ok tt;
  sops_rewrap = λ bytes policy. ok (1 ∷ []);
}

abbrev target : AgeRecipientPolicy
target = resolved.recipient_policy

abbrev plan : FilePlan
plan = record {
  path = codes ".env";
  action = rewrap;
  target_recipients = target.recipients;
  pending_additions = [];
  pending_removals = [];
}

abbrev file : AffectedFile
file = record { entry = resolved.entry; ciphertext = 1 ∷ [] }

abbrev preparation : ManifestPreparation
preparation = record { path = manifest_path; original = codes "old"; mode = 420 }

-- Git ignores `.env` and sees `.env.gitveil`.
abbrev git : Git
git = record {
  tracked = λ places. [];
  ignored = λ disk places.
      (
        codes ".env",
        rule (record {
          source = codes ".gitignore";
          line = 1;
          pattern = codes "/.env";
          ignored = true;
        }),
      )
      ∷ (codes ".env.gitveil", unmatched)
      ∷ [];
}

abbrev disk : Disk
disk = record {
  files = λ place.
      if place == manifest_path
      then some (codes "old")
      else if place == codes ".env"
      then some (codes "A=1\n")
      else if place == codes ".env.gitveil"
      then some (1 ∷ [])
      else none;
  modes = λ place. 420;
}

engine_runs :
    (run_on git disk
      (run setting manifest (codes "team") true preparation (codes "new") ((file, plan) ∷ []))).0
    ≡ ok (
      published,
      record {
        path = codes ".env";
        result = ok (record { outcome = rewrapped; pending_additions = []; pending_removals = [] });
      }
          ∷ [],
    )
unfolding run_on run list_beq parse_ciphertext filter
engine_runs = refl

run-Accepts_example :
    let (log, outcome, r) =
      trace git disk
        (run setting manifest (codes "team") true preparation (codes "new") ((file, plan) ∷ [])) in
    Accepts
      (monitor setting (codes "team") true preparation (codes "new") ((file, plan) ∷ []))
      start
      log
    × Ends setting
        (codes "team")
        true
        preparation
        (codes "new")
        ((file, plan) ∷ [])
        (state_after
          (monitor setting (codes "team") true preparation (codes "new") ((file, plan) ∷ []))
          start
          log)
        outcome
run-Accepts_example =
    run-Accepts setting manifest (codes "team") true preparation (codes "new") refl
      ((file, plan) ∷ [])
      (trace git disk
        (run setting manifest (codes "team") true preparation (codes "new") ((file, plan) ∷ []))).2

abbrev ready : Ready
ready = record {
  ciphertext = 1 ∷ [];
  plan = plan;
  resolved = resolved;
  document = only_a (codes "1");
}

converged_runs : converged setting ready target rewrap ≡ ok (some (1 ∷ [], rewrapped))
unfolding converged list_beq parse_ciphertext filter
converged_runs = refl

abbrev publication : RegistrationPublication
publication = record {
  manifest = preparation;
  plan = record { manifest = manifest; outcomes = (codes ".env", added) ∷ [] };
  existing_plaintext = codes ".env" ∷ [];
  ignore = record { path = ignore_path; original = none; candidate = codes "/.env\n"; mode = 420 };
  manifest_candidate = codes "new";
}

publish_registration-Accepts_example :
    let (log, outcome, r) = trace git disk (publish_registration setting publication) in
    Accepts (publication_monitor setting publication) nothing_seen log
    × PublicationEnds setting publication
        (state_after (publication_monitor setting publication) nothing_seen log)
        outcome
unfolding list_beq
publish_registration-Accepts_example =
    publish_registration-Accepts setting publication refl
      (trace git disk (publish_registration setting publication)).2

publish_registration-succeeds_example :
    (last : Disk) × (run_on git disk (publish_registration setting publication) ≡ (ok tt, last))
    × (last.files manifest_path ≡ some (codes "new"))
    × (last.files ignore_path ≡ some (codes "/.env\n"))
    × ((path : ManagedPath)
        → path ≢ manifest_path
        → path ≢ ignore_path
        → last.files path ≡ disk.files path)
    × ((path : ManagedPath)
        → path ≢ manifest_path
        → contains (codes ".env" ∷ []) path ≡ true
        → last.modes path ≡ private_mode)
unfolding list_beq ignore_states get visibility_paths ciphertext_path
publish_registration-succeeds_example =
    publish_registration-succeeds git setting publication disk refl refl refl (refl, tt)
      (((_, refl, refl), (_, refl, refl)), tt)
