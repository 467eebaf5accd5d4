-- ===== src/Source/Layout/Merge.antt =====
-- src/source/document.rs: the merge of three layouts. `TextDiff` stands for the line differ of
-- the `similar` crate.
use gitveil.Base.{
  ℕ, ◌-◌, Bool, true, false, not, ◌&&◌, ◌||◌, List, [], ◌∷◌, ◌++◌, ◌==◌, Option, none, some,
  if◌then◌else◌, Str, map, find?, filter, take, drop, concat, length, ltb, eqb, nat_eq, bool_eq,
  list_eq, option_eq,
}
use gitveil.Source.Layout.Dotenv.{merge_field, merge_dotenv}
use gitveil.Source.Layout.{
  line_ending_eq, template_eq, dotenv_eq, layout_eq, placeholder_eq, Template, Layout,
}

pub data DiffTag : Type 0 where
  equal delete insert replace : DiffTag

-- One operation of a diff: its tag and its ranges of lines, the ends excluded.
pub record DiffOp : Type 0 where
  pub tag : DiffTag
  pub old_start : ℕ
  pub old_end : ℕ
  pub new_start : ℕ
  pub new_end : ℕ

-- `TextDiff::from_lines(old, new).ops()`
pub record TextDiff : Type 0 where
  pub ops : Str → Str → List DiffOp

pub record LineHunk : Type 0 where
  pub start : ℕ
  pub stop : ℕ
  pub replacement : Str

abbrev pub hunk_beq : LineHunk → LineHunk → Bool
hunk_beq a b = a.start == b.start && a.stop == b.stop && a.replacement == b.replacement

-- A character before the first line.
abbrev pub onto_line : ℕ → List Str → List Str
onto_line c [] = (c ∷ []) ∷ []
onto_line c (line ∷ rest) = (c ∷ line) ∷ rest

-- `text.split_inclusive('\n')`
unfoldable pub split_lines : Str → List Str
split_lines [] = []
split_lines (c ∷ s) =
    let rest = split_lines s in if eqb c 10 then (c ∷ []) ∷ rest else onto_line c rest

-- `lines[start..stop].concat()`
abbrev pub lines_between : List Str → ℕ → ℕ → Str
lines_between lines start stop = concat (take (stop - start) (drop start lines))

abbrev pub is_change : DiffOp → Bool
is_change operation = elim operation.tag [
  | equal ↦ false
  | delete ↦ true
  | insert ↦ true
  | replace ↦ true
]

unfoldable pub line_hunks : TextDiff → Str → Str → List LineHunk
unfolding filter split_lines
line_hunks differ base side =
    map
      (λ (op : DiffOp). record {
        start = op.old_start;
        stop = op.old_end;
        replacement = lines_between (split_lines side) op.new_start op.new_end;
      })
      (filter is_change (differ.ops base side))

unfoldable pub line_hunks_overlap : LineHunk → LineHunk → Bool
line_hunks_overlap left right =
    if (left.start == left.stop) && (right.start == right.stop)
    then left.start == right.start
    else ltb left.start right.stop && ltb right.start left.stop
      || left.start == right.start
      || left.stop == right.stop && not (left.start == left.stop) && not (right.start == right.stop)

-- The loop over their hunks: a hunk that overlaps one of ours has to be the same.
unfoldable pub add_hunks : List LineHunk → List LineHunk → Option (List LineHunk)
unfolding line_hunks_overlap find?
add_hunks hunks [] = some hunks
add_hunks hunks (theirs ∷ rest) = elim (find? (λ hunk. line_hunks_overlap hunk theirs) hunks) [
  | some ours ↦ elim (hunk_beq ours theirs) [ true ↦ add_hunks hunks rest | false ↦ none ]
  | none ↦ add_hunks (hunks ++ theirs ∷ []) rest
]

-- The order by start, then end.
abbrev pub before : LineHunk → LineHunk → Bool
before a b = ltb a.start b.start || a.start == b.start && ltb a.stop b.stop

-- A stable sort, as `sort_by_key` is: a hunk stays before later ones of the same key.
abbrev pub insert_hunk : LineHunk → List LineHunk → List LineHunk
insert_hunk hunk [] = hunk ∷ []
insert_hunk hunk (h ∷ rest) =
    let after = insert_hunk hunk rest in if before h hunk then h ∷ after else hunk ∷ h ∷ rest

unfoldable pub sort_hunks : List LineHunk → List LineHunk
sort_hunks [] = []
sort_hunks (h ∷ rest) = insert_hunk h (sort_hunks rest)

-- The loop that applies the hunks to the lines from `cursor` on.
unfoldable pub apply_hunks : List Str → ℕ → List LineHunk → Option Str
unfolding drop take
apply_hunks lines cursor [] = some (concat (drop cursor lines))
apply_hunks lines cursor (hunk ∷ rest) =
    let tail = apply_hunks lines hunk.stop rest in
    if ltb hunk.start cursor || ltb (length lines) hunk.stop then none else (elim tail [
      | none ↦ none
      | some text ↦ some (lines_between lines cursor hunk.start ++ hunk.replacement ++ text)
    ])

unfoldable pub merge_text_lines : TextDiff → Str → Str → Str → Option Str
unfolding line_hunks add_hunks sort_hunks split_lines apply_hunks
merge_text_lines differ base ours theirs =
    elim (add_hunks (line_hunks differ base ours) (line_hunks differ base theirs)) [
      | none ↦ none
      | some hunks ↦ apply_hunks (split_lines base) 0 (sort_hunks hunks)
    ]

-- The templates of three sides that all differ.
abbrev pub merge_bodies : TextDiff → Template → Template → Template → Option (Option Template)
merge_bodies differ base ours theirs =
    if not (base.placeholders == ours.placeholders)
      || not (base.placeholders == theirs.placeholders)
    then none
    else (elim (merge_text_lines differ base.body ours.body theirs.body) [
      | none ↦ none
      | some body ↦ some (some (record { body = body; placeholders = base.placeholders }))
    ])

abbrev pub contest_template :
    TextDiff → Option Template → Option Template → Option Template → Option (Option Template)
contest_template differ (some base) (some ours) (some theirs) = merge_bodies differ base ours theirs
contest_template differ _ _ _ = none

-- `none` is the source's `Err(())`.
unfoldable pub merge_template :
    TextDiff → Option Template → Option Template → Option Template → Option (Option Template)
unfolding merge_text_lines
merge_template differ base ours theirs =
    if ours == theirs
    then some ours
    else if ours == base
    then some theirs
    else if theirs == base
    then some ours
    else contest_template differ base ours theirs

-- The `?` operator on options.
infixl 5 ◌>>=◌
abbrev ◌>>=◌ {ℓ κ} : {A : Type ℓ} {B : Type κ} → Option A → (A → Option B) → Option B
none >>= f = none
some a >>= f = f a

-- The merge field by field.
unfoldable pub merge_parts : TextDiff → Layout → Layout → Layout → Option Layout
unfolding merge_field merge_dotenv merge_template
merge_parts differ base ours theirs = do
  ending ← merge_field base.line_ending ours.line_ending theirs.line_ending
  newline ← merge_field base.trailing_newline ours.trailing_newline theirs.trailing_newline
  preamble ← merge_field base.preamble_comments ours.preamble_comments theirs.preamble_comments
  entries ← merge_dotenv base.dotenv ours.dotenv theirs.dotenv
  template ← merge_template differ base.template ours.template theirs.template
  some (record {
    line_ending = ending;
    trailing_newline = newline;
    preamble_comments = preamble;
    dotenv = entries;
    template = template;
  })

-- `Layout::merge_three_way`
unfoldable pub merge_three_way : TextDiff → Layout → Layout → Layout → Option Layout
unfolding merge_parts
merge_three_way differ base ours theirs =
    if ours == theirs
    then some ours
    else if ours == base
    then some theirs
    else if theirs == base
    then some ours
    else merge_parts differ base ours theirs
