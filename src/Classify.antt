-- ===== src/Classify.antt =====
-- src/sops/classify.rs and src/age/classify.rs: what a tool's messages say about its failure. The lossy
-- decoding of UTF-8 is a parameter.
use gitveil.Base.{
  ℕ, Bool, ◌||◌, List, [], ◌∷◌, Str, codes, any, map, contains_str, to_ascii_lowercase,
  if◌then◌else◌, Option, Outcome, ok, ◌>>=◌, ◌>>◌, map_err, ok_or, fail_if, lines, is_empty,
}
use gitveil.Recipient.{AgeRecipient, Bech32, new_recipient}
use gitveil.Workflow.{ErrorCategory, SopsFailure}

-- The message in lower case.
abbrev pub message : (List ℕ → Str) → List ℕ → Str
message from_utf8_lossy stderr = map to_ascii_lowercase (from_utf8_lossy stderr)

-- `message.contains(needle)`
abbrev pub says : Str → Str → Bool
says text needle = contains_str needle text

abbrev pub identity_needles : List Str
identity_needles =
    codes "no identity matched"
    ∷ codes "failed to load age identities"
    ∷ codes "could not decrypt data key"
    ∷ codes "cannot get data key"
    ∷ codes "0 successful groups required"
    ∷ codes "no master key was able to decrypt"
    ∷ []

unfoldable pub classify : (List ℕ → Str) → List ℕ → SopsFailure
unfolding to_ascii_lowercase contains_str any
classify from_utf8_lossy stderr =
    let text = message from_utf8_lossy stderr in
    if says text (codes "mac mismatch")
      || says text (codes "integrity check failed")
      || says text (codes "could not verify data integrity")
    then SopsFailure.integrity
    else if any (λ needle. says text needle) identity_needles
    then SopsFailure.identity_unavailable
    else if says text (codes "config")
        || says text (codes "creation rule")
        || says text (codes "no matching creation rules")
    then SopsFailure.configuration
    else SopsFailure.execution

pub data GenerationFailure : Type 0 where
  no_space permission_denied read_only_filesystem output_io execution : GenerationFailure

pub data RecipientFailure : Type 0 where
  identity_unavailable invalid_identity protocol execution : RecipientFailure

unfoldable pub classify_generation : (List ℕ → Str) → List ℕ → GenerationFailure
unfolding to_ascii_lowercase contains_str
classify_generation from_utf8_lossy stderr =
    let text = message from_utf8_lossy stderr in
    if says text (codes "no space left on device")
    then no_space
    else if says text (codes "permission denied")
    then permission_denied
    else if says text (codes "read-only file system")
    then read_only_filesystem
    else if says text (codes "failed to open output file")
        || says text (codes "failed to close output file")
    then output_io
    else GenerationFailure.execution

unfoldable pub classify_recipient : (List ℕ → Str) → List ℕ → RecipientFailure
unfolding to_ascii_lowercase contains_str
classify_recipient from_utf8_lossy stderr =
    let text = message from_utf8_lossy stderr in
    if says text (codes "failed to open input file")
    then RecipientFailure.identity_unavailable
    else if says text (codes "failed to parse input")
        || says text (codes "no identities found in the input")
    then invalid_identity
    else if says text (codes "internal error: unexpected identity type")
    then RecipientFailure.protocol
    else RecipientFailure.execution

-- The loop over the lines of age's output.
unfoldable pub read_recipients : Bech32 → List Str → Outcome ErrorCategory (List AgeRecipient)
unfolding new_recipient
read_recipients codec [] = ok []
read_recipients codec ([] ∷ lines) = read_recipients codec lines
read_recipients codec ((c ∷ line) ∷ lines) = do
  recipient ← map_err (λ _. ErrorCategory.protocol) (new_recipient codec (c ∷ line))
  recipients ← read_recipients codec lines
  ok (recipient ∷ recipients)

-- The strict decoding of UTF-8 is the first argument.
unfoldable pub parse_recipients :
    (List ℕ → Option Str) → Bech32 → List ℕ → Outcome ErrorCategory (List AgeRecipient)
unfolding lines read_recipients
parse_recipients from_utf8 codec stdout = do
  text ← ok_or (from_utf8 stdout) ErrorCategory.protocol
  recipients ← read_recipients codec (lines text)
  fail_if (is_empty recipients) ErrorCategory.protocol
  ok recipients
