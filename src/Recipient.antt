-- ===== src/Recipient.antt =====
-- src/recipient.rs: age recipients, policy names and recipient policies. A validated newtype is
-- its text. The bech32 codec is a crate: its calls are the fields of `Bech32`.
pub mod Drift
use gitveil.Base.{
  ℕ, ◌+◌, ◌<◌, Bool, true, false, not, ◌&&◌, ◌||◌, List, [], ◌∷◌, ◌++◌, map, ◌≡◌, ◌==◌, Option,
  none, some, if◌then◌else◌, ltb, all, filter, length, is_empty, contains, Str, codes, is_lower,
  is_digit, to_ascii_lowercase, byte_len, Outcome, ok, err, ◌>>=◌, ◌>>◌, fail_if, ok_or, nat_eq,
  list_eq,
}

abbrev pub AgeRecipient : Type 0
AgeRecipient = Str

abbrev pub PolicyName : Type 0
PolicyName = Str

pub data RecipientError : Type 0 where
  invalid_policy_name invalid_age_recipient non_canonical_age_recipient : RecipientError
  empty_policy duplicate_age_recipient : RecipientError

-- `CheckedHrpstring::new::<Bech32>` with `hrp` and `byte_iter`, and `bech32::encode::<Bech32>`.
pub record Bech32 : Type 0 where
  pub decode : Str → Option (Str × List ℕ)
  pub encode : Str → List ℕ → Option Str

-- `AgeRecipient::new`
unfoldable pub new_recipient : Bech32 → Str → Outcome RecipientError AgeRecipient
unfolding to_ascii_lowercase
new_recipient codec value = do
  fail_if (not (value == map to_ascii_lowercase value)) non_canonical_age_recipient
  parsed ← ok_or (codec.decode value) invalid_age_recipient
  fail_if (not (parsed.0 == codes "age")) invalid_age_recipient
  fail_if (not (length parsed.1 == 32)) invalid_age_recipient
  canonical ← ok_or (codec.encode (codes "age") parsed.1) invalid_age_recipient
  fail_if (not (canonical == value)) non_canonical_age_recipient
  ok canonical

-- The first character of a policy name.
abbrev pub starts_lower : Str → Bool
starts_lower [] = false
starts_lower (c ∷ rest) = is_lower c

-- The characters behind the first: `characters.all(..)` after `characters.next()`.
abbrev pub tail_chars : Str → Str
tail_chars [] = []
tail_chars (c ∷ rest) = rest

abbrev pub is_name_char : ℕ → Bool
is_name_char c = is_lower c || is_digit c || c == b'-'

-- `PolicyName::new`
unfoldable pub new_policy_name : Str → Outcome RecipientError PolicyName
unfolding byte_len
new_policy_name value = do
  fail_if
      (ltb 64 (byte_len value)
        || not (starts_lower value)
        || not (all is_name_char (tail_chars value)))
      invalid_policy_name
  ok value

pub record AgeRecipientPolicy : Type 0 where
  pub name : PolicyName
  pub recipients : List AgeRecipient

-- `recipients.iter().any(|recipient| !seen.insert(recipient))`, from the values seen so far
unfoldable pub any_repeat : List Str → List Str → Bool
any_repeat seen [] = false
any_repeat seen (r ∷ rest) = contains seen r || any_repeat (r ∷ seen) rest

-- `AgeRecipientPolicy::new`
unfoldable pub new_policy :
    PolicyName → List AgeRecipient → Outcome RecipientError AgeRecipientPolicy
unfolding any_repeat
new_policy name recipients = do
  fail_if (is_empty recipients) empty_policy
  fail_if (any_repeat [] recipients) duplicate_age_recipient
  ok (record { name = name; recipients = recipients })

pub record RecipientSetDiff : Type 0 where
  pub added : ℕ
  pub removed : ℕ

-- `collect::<HashSet<_>>()`: one copy of each value.
unfoldable pub to_set : List Str → List Str
to_set [] = []
to_set (r ∷ rest) = let set = to_set rest in if contains set r then set else r ∷ set

-- `left.difference(&right)`
unfoldable pub difference : List Str → List Str → List Str
difference left right = filter (λ r. not (contains right r)) left

-- `AgeRecipientPolicy::diff`
unfoldable pub diff : AgeRecipientPolicy → List AgeRecipient → RecipientSetDiff
unfolding to_set difference
diff policy actual =
    let desired = to_set policy.recipients in
    let found = to_set actual in
    record {
      added = length (difference desired found);
      removed = length (difference found desired);
    }

-- `RecipientSetDiff::is_empty`
unfoldable pub is_aligned : RecipientSetDiff → Bool
is_aligned d = d.added == 0 && d.removed == 0

-- `AgeRecipientPolicy::matches`
unfoldable pub matches : AgeRecipientPolicy → List AgeRecipient → Bool
unfolding diff is_aligned
matches policy actual = is_aligned (diff policy actual)
