-- ===== src/Lib.antt =====
-- A model of gitveil, a command that keeps encrypted companions of secret files in a Git
-- repository, and proofs about its functional core, the modules that scripts/check-functional-core.py
-- keeps free of effects, and about its commands on one managed pair of files.
--
-- Parts of the program and their files:
--   src/path.rs                 ManagedPath, with ManagedPath/Suffix
--   src/config.rs               Config
--   src/profile.rs              Profile
--   src/recipient.rs            Recipient, with Recipient/Drift
--   src/recipients/plan.rs      Authorization, with Authorization/{Files,Policy,Rejections}
--   src/manifest.rs             Manifest (mutations and selections), Manifest/Document (its JSON),
--                               with Manifest/Invariant, Manifest/Mutations, Manifest/Entries,
--                               Manifest/Select
--   src/source/document.rs      Source/NodePath, Source/Node, Source/Document, and Source/Layout with
--                               Source/Layout/Dotenv, Source/Layout/Merge,
--                               Source/Layout/Entries and Source/Layout/Keys
--   src/source/dotenv.rs        Source/Dotenv with Source/Dotenv/Parse and Source/Dotenv/Generate,
--                               and Source/Dotenv/Value and Source/Dotenv/Aligned on them
--   src/source/mod.rs           Source/Formats
--   src/semantic/diff.rs        Semantic/Diff, with Semantic/Diff/Exact
--   src/semantic/merge.rs       Semantic/Merge, with Semantic/Merge/Laws, Semantic/Merge/Order,
--                               Semantic/Merge/Loop and Semantic/Merge/Keys
--   src/seal/plan.rs            Seal
--   src/resolve/plan.rs         Resolve, with Resolve/Laws
--   src/configure/plan.rs       Configure (the registration) with Configure/Registration,
--                               Configure/Ignore (the block of .gitignore) with
--                               Configure/Ignore/{Lines,Newlines,Rules,Keeping}, and
--                               Configure/Visibility
--   src/envelope.rs             Envelope, Envelope/TypePath, Envelope/Ciphertext (the reader of
--                               encrypted files) with Envelope/Ciphertext/Sealed and
--                               Envelope/Ciphertext/Parsed, and Envelope/Decrypted; Envelope/Yaml has
--                               the value type of the YAML crate
--   src/baseline/record.rs      Baseline (units and digests) and Baseline/Record, with
--                               Baseline/Framing, Baseline/Trust and Baseline/Compare
--   src/open/plan.rs            Open (the two loops) and Open/Plan, with Open/Units, Open/Entries,
--                               Open/Keeping and Open/Roots
--   src/seal.rs                 Seal/Command, with Seal/Verified and Seal/Sealing
--   src/open.rs                 Open/Command, with Open/Written
--   src/status.rs               Status, with Status/Clean
--   src/resolve.rs              Resolve/Command, with Resolve/Narrowed
--   src/verify.rs               History
--   src/sops/classify.rs, src/age/classify.rs
--                               Classify
--   src/manifest_document.rs    Publishing, and Manifest/Written for `to_json_bytes`
--   src/recipients.rs           Recipients and Recipients/Command, with Recipients/Converged,
--                               Recipients/Order (the protocol), Recipients/Kept and
--                               Recipients/Engine
--   src/configure.rs            Configure/Command and Configure/Publication, with
--                               Configure/Publication/Order (the protocol), and Recovery, Finished,
--                               Protected and Quiet beside it
--   src/git/repository.rs       Git (the answers of Git), with Git/Matches
-- Script, with Script/Monitor and Script/Disk, has the requests of the commands that change the
-- configuration.
-- Workflow has what the commands on one entry share: the world (the files and the baselines), the
-- effects they call, and the error categories of src/error.rs; Workflow/Files says what an effect does to the files.
-- Tests has runs of the definitions and the theorems at concrete inputs.
--
-- The manifest names the managed files and the recipient policies. The planner of
-- `gitveil recipient` reads a policy and the recipients of the existing ciphertexts; the commands
-- that reconcile two versions of a file parse both to documents, a tree and a layout each, and use
-- the diff and the merges of trees and of layouts; `plan_merge` puts the two merges together for the
-- merge driver, and `plan_seal` compares documents. A document travels in an envelope: its decrypted
-- form is what SOPS encrypts, and the reader of the encrypted form gives the leaves and the
-- recipients. A baseline record has the digests of the units of a document and of a ciphertext, and
-- `plan_open` merges a decrypted document into the local one by it.
--
-- How the code is read. A Rust `String` is the list of its code points and a byte slice the list of
-- its bytes; a validated newtype (ManagedPath, PolicyName, ProfileName, AgeRecipient) is its text,
-- and a predicate says that its constructor accepts it. `IndexMap` is an association list in insertion
-- order, a `HashSet` is used through its membership test. A function that takes `&mut self` returns
-- the new value; on an error the caller keeps the old one. A list that the source pushes to is
-- returned. The error messages are left out, the error variants and what they carry are kept;
-- of an error of a command only its category is kept.
-- Loops are recursions on the list that they run over, so no fuel is needed; the recursion of
-- `merge_at` is on the base, because the source descends only where the base has children.
--
-- A command on one entry takes a world to an outcome and a world. What it does before its first write
-- only reads the world, so it is a function of it; then come the write and the record of the baseline,
-- each of which may fail. A failed write leaves the file as it was, since src/workspace.rs replaces a
-- file by a finished temporary one.
--
-- A command that changes the configuration (`gitveil init`, `add`, `recipient add` and `remove`) is a
-- `Script`, a tree that asks one request after the other and goes on with any answer: the reads, each
-- step of an atomic write (`validate`, `stage`, `persist`, `sync_parent`), the changes of modes, the
-- queries to Git and the saves of baselines. Nothing relates the answers, so a theorem about every run
-- (`Runs`, a relation of a script, its log and its outcome) holds under any interleaving with other
-- processes and any failures. A monitor watches the requests and answers: it remembers what was last
-- seen of the documents, and allows a request or not. Script/Disk answers the requests from a disk that
-- nothing else changes; there a run is a function. A script is finite, so every run of it ends. The
-- calls of SOPS and the parsers are functions inside a script, as they change no file.
--
-- Third-party code is a parameter: `Bech32` (the bech32 crate), `UnicodeTables`
-- (unicode_normalization and the case tables), `Json` (serde_json with the derived readers),
-- `TextDiff` (the line differ of the similar crate), `Adapters` (the JSON, YAML and TOML formats and
-- the UTF-8 decoder), `Codecs` (UTF-8, the YAML and JSON texts and base64 of the envelope), `Digests`
-- (SHA-256, hexadecimal and the JSON writers of the baseline; `Reliable` states what the proofs need
-- of them). A `BTreeMap` is an association list in the order of the keys (Base/Sorted). Where the
-- source panics on a salt that is not hexadecimal, the model has no bytes; the source's
-- constructors are meant to exclude such a record. `Tools` holds these parameters for a command, with
-- the failures of reads, writes and saves, the fresh salt, and the client of src/sops (decrypt,
-- encrypt, edit), whose answers are arbitrary; `Setting` adds what the configuration commands need.
--
-- Not modelled: the loops of the commands over the selected entries; the file system, the processes
-- of Git, SOPS and age, locks, IPC and temporary files (src/runtime, src/sops/client.rs,
-- src/sops/process.rs, src/age.rs, src/confine.rs, and the parts of src/git/repository.rs that start
-- processes); the discovery of the repository (`mutation_repository`); the directories of the baseline
-- store and of the identities (src/baseline.rs, src/identity.rs); the command line (src/cli.rs); and
-- the adapters around the JSON, YAML and TOML crates (src/source/json.rs, src/source/yaml.rs,
-- src/source/toml.rs, src/source/strict.rs).
pub mod Base
pub mod ManagedPath
pub mod Config
pub mod Profile
pub mod Recipient
pub mod Manifest
pub mod Source
pub mod Git
pub mod Script
pub mod Publishing
pub mod Recipients
pub mod Semantic
pub mod Authorization
pub mod Envelope
pub mod Baseline
pub mod Open
pub mod Workflow
pub mod Status
pub mod Classify
pub mod History
pub mod Seal
pub mod Resolve
pub mod Configure
mod Tests
