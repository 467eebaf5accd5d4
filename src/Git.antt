-- ===== src/Git.antt =====
-- src/git/repository.rs: what the program reads out of the answers of Git. The Git processes are
-- parameters. A `HashMap` of requested paths is the list of the paths; one keyed by a path and filled
-- by the program is an association list.
pub mod Matches
use gitveil.Base.{
  ℕ, zero, suc, ◌+◌, ◌*◌, ◌-◌, ◌^◌, ◌%◌, Bool, true, false, not, ◌&&◌, ◌||◌, List, [], ◌∷◌, ◌++◌,
  ◌==◌, Option, none, some, if◌then◌else◌, ltb, leb, all, filter, find?, length, is_empty, contains,
  IndexMap, contains_key, Str, codes, split, split_once, starts_with, is_digit, is_whitespace,
  read_digits, Outcome, ok, err, ◌>>=◌, ◌>>◌, fail_if, ok_or, nat_eq, list_eq,
}
use gitveil.ManagedPath.{ManagedPath}
use gitveil.Workflow.{ErrorCategory, protocol, configuration}

pub record IgnoreRule : Type 0 where
  pub source : Str
  pub line : ℕ
  pub pattern : Str
  pub ignored : Bool

pub data IgnoreMatch : Type 0 where
  unmatched : IgnoreMatch
  rule : IgnoreRule → IgnoreMatch

abbrev pub is_ignored : IgnoreMatch → Bool
is_ignored unmatched = false
is_ignored (rule found) = found.ignored

-- The bytes of a text, and the text of bytes that are UTF-8.
pub record Utf8 : Type 0 where
  pub as_bytes : Str → List ℕ
  pub from_utf8 : List ℕ → Option Str

abbrev pub text_of : Utf8 → List ℕ → Outcome ErrorCategory Str
text_of utf8 bytes = ok_or (utf8.from_utf8 bytes) protocol

-- `requested.get(path)`
unfoldable pub requested_path : Utf8 → List ManagedPath → List ℕ → Option ManagedPath
requested_path utf8 requested bytes =
    find? (λ (p : ManagedPath). utf8.as_bytes p == bytes) requested

-- The decimal number of a text after its sign, below a bound.
abbrev pub bounded : ℕ → Str → Option ℕ
bounded bound text =
    if not (is_empty text) && (all is_digit text && ltb (read_digits 0 text) bound)
    then some (read_digits 0 text)
    else none

-- `value.parse::<usize>()` and `value.parse::<u8>()`, by the number of values.
unfoldable pub parse_unsigned : ℕ → Str → Option ℕ
unfolding read_digits
parse_unsigned bound [] = none
parse_unsigned bound (c ∷ rest) = if c == b'+' then bounded bound rest else bounded bound (c ∷ rest)

-- The words of a text.
abbrev pub push_word : Str → List Str → List Str
push_word [] others = others
push_word (c ∷ word) others = (c ∷ word) ∷ others

unfoldable pub words_from : Str → Str → List Str
unfolding is_whitespace
words_from word [] = push_word word []
words_from word (c ∷ rest) =
    let next = words_from [] rest in
    let same = words_from (word ++ c ∷ []) rest in
    if is_whitespace c then push_word word next else same

-- `text.split_whitespace()`
abbrev pub split_whitespace : Str → List Str
split_whitespace = words_from []

abbrev pub nth {ℓ} : {A : Type ℓ} → ℕ → List A → Option A
nth n [] = none
nth zero (x ∷ rest) = some x
nth (suc n) (x ∷ rest) = nth n rest

abbrev pub non_empty : List (List ℕ) → List (List ℕ)
non_empty = filter (λ field. not (is_empty field))

-- The set without repetitions, as a `HashMap` of the paths has it.
unfoldable pub distinct : List ManagedPath → List ManagedPath
distinct [] = []
distinct (path ∷ rest) =
    let others = distinct rest in if contains others path then others else path ∷ others

-- The loop of `tracked_paths` over the answer of `git ls-files --cached -z`.
unfoldable pub tracked_from :
    Utf8 → List ManagedPath → List (List ℕ) → Outcome ErrorCategory (List ManagedPath)
unfolding requested_path
tracked_from utf8 requested [] = ok []
tracked_from utf8 requested (field ∷ rest) = do
  path ← ok_or (requested_path utf8 requested field) protocol
  others ← tracked_from utf8 requested rest
  ok (path ∷ others)

unfoldable pub parse_tracked :
    Utf8 → List ManagedPath → List ℕ → Outcome ErrorCategory (List ManagedPath)
unfolding tracked_from split filter
parse_tracked utf8 requested output = tracked_from utf8 requested (non_empty (split 0 output))

-- The metadata of an entry of `git ls-files --stage -z`, and what is behind the tab.
unfoldable pub stage_entry : Utf8 → List ℕ → Outcome ErrorCategory (List Str × List ℕ)
unfolding split_once words_from
stage_entry utf8 entry = do
  (metadata, path) ← ok_or (split_once b'\t' entry) protocol
  text ← text_of utf8 metadata
  ok (split_whitespace text, path)

unfoldable pub stage_of : List Str → Outcome ErrorCategory ℕ
unfolding parse_unsigned
stage_of fields = do word ← ok_or (nth 2 fields) protocol; ok_or (parse_unsigned 256 word) protocol

abbrev pub push_found : Option ManagedPath → List ManagedPath → List ManagedPath
push_found none others = others
push_found (some path) others = path ∷ others

-- The loop of `unmerged_paths`.
unfoldable pub unmerged_from :
    Utf8 → List ManagedPath → List (List ℕ) → Outcome ErrorCategory (List ManagedPath)
unfolding stage_entry stage_of requested_path
unmerged_from utf8 requested [] = ok []
unmerged_from utf8 requested (entry ∷ rest) = do
  (fields, path) ← stage_entry utf8 entry
  stage ← stage_of fields
  fail_if (not (leb 1 stage && leb stage 3)) protocol
  others ← unmerged_from utf8 requested rest
  ok (push_found (requested_path utf8 requested path) others)

-- The object of a stage, from the loop of `index_blob`.
unfoldable pub index_object : Utf8 → ℕ → List (List ℕ) → Outcome ErrorCategory (Option Str)
unfolding stage_entry stage_of
index_object utf8 stage [] = ok none
index_object utf8 stage (entry ∷ rest) =
    let later = index_object utf8 stage rest in
    (do
      (fields, path) ← stage_entry utf8 entry
      object ← ok_or (nth 1 fields) protocol
      found ← stage_of fields
      if found == stage then ok (some object) else later)

abbrev pub is_hexdigit : ℕ → Bool
is_hexdigit c = is_digit c || (leb b'a' c && leb c b'f') || (leb b'A' c && leb c b'F')

-- The check of `revision_blob`; the texts that pass have one byte to a character.
unfoldable pub check_revision : Str → Outcome ErrorCategory (Unit {0})
check_revision revision =
    fail_if
      (not (revision == codes "HEAD")
        && (ltb 64 (length revision) || is_empty revision || not (all is_hexdigit revision)))
      configuration

-- `cat_blob` only asks for an object by its hexadecimal name.
unfoldable pub check_object : Str → Outcome ErrorCategory (Unit {0})
check_object object = fail_if (not (all is_hexdigit object)) protocol

-- The object of the first entry of `git ls-tree -z`.
unfoldable pub tree_object : Utf8 → List (List ℕ) → Outcome ErrorCategory (Option Str)
unfolding stage_entry
tree_object utf8 [] = ok none
tree_object utf8 (entry ∷ rest) = do
  (fields, path) ← stage_entry utf8 entry
  object ← ok_or (nth 2 fields) protocol
  ok (some object)

-- The outcome that one record of `git check-ignore` states.
unfoldable pub read_match : Utf8 → List ℕ → List ℕ → List ℕ → Outcome ErrorCategory IgnoreMatch
unfolding parse_unsigned starts_with
read_match utf8 source line pattern =
    if is_empty source && is_empty line && is_empty pattern then ok unmatched else (do
      fail_if (is_empty source || is_empty line || is_empty pattern) protocol
      source_text ← text_of utf8 source
      line_text ← text_of utf8 line
      number ← ok_or (parse_unsigned (2 ^ 64) line_text) protocol
      pattern_text ← text_of utf8 pattern
      ok (
          rule (record {
            source = source_text;
            line = number;
            pattern = pattern_text;
            ignored = not (starts_with (codes "!") pattern_text);
          })))

-- The loop over the records, from the matches so far.
unfoldable pub read_matches :
    Utf8
    → List ManagedPath
    → IndexMap ManagedPath IgnoreMatch
    → List (List ℕ)
    → Outcome ErrorCategory (IndexMap ManagedPath IgnoreMatch)
unfolding requested_path read_match contains_key
read_matches utf8 requested matches (source ∷ line ∷ pattern ∷ field ∷ rest) = do
  path ← ok_or (requested_path utf8 requested field) protocol
  outcome ← read_match utf8 source line pattern
  fail_if (contains_key path matches) protocol
  read_matches utf8 requested (matches ++ (path, outcome) ∷ []) rest
read_matches utf8 requested matches rest = ok matches

-- The fields without an empty last one.
unfoldable pub without_last_empty : List (List ℕ) → List (List ℕ)
without_last_empty [] = []
without_last_empty ([] ∷ []) = []
without_last_empty (field ∷ rest) = field ∷ without_last_empty rest

unfoldable pub parse_ignore_matches :
    Utf8 → List ManagedPath → List ℕ → Outcome ErrorCategory (IndexMap ManagedPath IgnoreMatch)
unfolding without_last_empty split read_matches distinct
parse_ignore_matches utf8 requested output = do
  let fields = without_last_empty (split 0 output)
  fail_if (not (length fields % 4 == 0)) protocol
  matches ← read_matches utf8 requested [] fields
  fail_if (not (length matches == length (distinct requested))) protocol
  ok matches
