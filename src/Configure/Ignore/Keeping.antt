-- ===== src/Configure/Ignore/Keeping.antt =====
-- src/configure/plan.rs: what a rendering of `.gitignore` keeps.
use gitveil.Base.{
  Bool, true, false, ◌||◌, ◌≡◌, refl, sym, ap, ◌∙◌, subst, List, [], ◌∷◌, ◌++◌, ◌==◌, arith, none,
  some, any, any-append, Str, codes, ok, fail_if, >>=-eq-ok, ok-eq, nat_eq, list_eq, ◌⊎◌, inl, inr,
  Bool-cases, Option-cases, append_assoc, append-nil,
}
use gitveil.ManagedPath.{ManagedPath}
use gitveil.Configure.Ignore.{
  Line, read_lines, text_of, is_begin, is_end, is_malformed, split_at, after_block, without_block,
  preferred_newline, rules, block, terminated, malformed_block, render_managed_ignore,
}
use gitveil.Configure.Ignore.Newlines.{
  IsNewline, IsGap, AreLines, AreLines-read_lines, preferred_newline-IsNewline, terminated-IsGap,
}
use gitveil.Configure.Ignore.Rules.{AreRules, rules-AreRules}
use gitveil.Configure.Ignore.Lines.{
  text_of-read_lines, text_of-append, IsCut, split_at-some, split_at-none,
}

-- The block that stands for the paths.
pub record IsBlock (newline : Str) (paths : List ManagedPath) (text : Str) : Type 0 where
  pub rule_text : Str
  pub are_rules : AreRules newline paths rule_text
  pub is_text :
      text
      ≡ codes "# BEGIN gitveil managed files"
        ++ (newline ++ (rule_text ++ (codes "# END gitveil managed files" ++ newline)))

abbrev pub begins : Line → Bool
begins line = line.content == codes "# BEGIN gitveil managed files"

abbrev pub ends : Line → Bool
ends line = line.content == codes "# END gitveil managed files"

-- What a rendering keeps: the lines outside the block that it replaces. There is no block, or it
-- is one stretch of lines from the beginning marker to the end marker, and no marker is outside.
-- What it adds: a newline where one is missing, and the block of the paths.
pub record Keeps (existing : Str) (paths : List ManagedPath) (rendered : Str) : Type 0 where
  pub before : List Line
  pub removed : List Line
  pub after : List Line
  pub newline : Str
  pub gap : Str
  pub added : Str
  pub are_lines : AreLines (read_lines existing)
  pub whole : read_lines existing ≡ before ++ (removed ++ after)
  pub split : existing ≡ text_of before ++ (text_of removed ++ text_of after)
  pub written : rendered ≡ (text_of before ++ text_of after) ++ (gap ++ added)
  pub is_newline : IsNewline existing newline
  pub is_gap : IsGap newline (text_of before ++ text_of after) gap
  pub is_added : IsBlock newline paths added
  pub is_block :
      (removed ≡ [])
      ⊎ ((first last : Line) × (inside : List Line) × (removed ≡ first ∷ (inside ++ last ∷ []))
          × (begins first ≡ true)
          × (ends last ≡ true))
  pub no_begin : (any begins before || any begins after) ≡ false
  pub no_end : (any ends before || any ends after) ≡ false

-- The cut of the lines that `without_block` accepts.
record Cut (lines base : List Line) : Type 0 where
  before : List Line
  removed : List Line
  after : List Line
  whole : lines ≡ before ++ (removed ++ after)
  kept : base ≡ before ++ after
  is_block :
      (removed ≡ [])
      ⊎ ((first last : Line) × (inside : List Line) × (removed ≡ first ∷ (inside ++ last ∷ []))
          × (is_begin first ≡ true)
          × (is_end last ≡ true))
  no_begin : (any is_begin before || any is_begin after) ≡ false
  no_end : (any is_end before || any is_end after) ≡ false

without_block-none :
    (lines base : List Line)
    → split_at is_begin lines ≡ none
    → without_block lines none ≡ ok base
    → Cut lines base
unfolding any
without_block-none lines base cut h = elim (Bool-cases (any is_end lines)) [
  | inl ended ↦ absurd (ground (arith, (rw ended at h)))
  | inr endless ↦ record {
    before = lines;
    removed = [];
    after = [];
    whole = sym (append-nil lines);
    kept = sym (ok-eq lines base (rw endless at h)) ∙ sym (append-nil lines);
    is_block = inl refl;
    no_begin = rw (split_at-none is_begin lines cut) refl;
    no_end = rw endless refl;
  }
]

after_block-ok :
    (rest after : List Line)
    → after_block (split_at is_end rest) ≡ ok after
    → (inside : List Line) × IsCut is_end rest inside after × (any is_end after ≡ false)
after_block-ok rest after h = elim (Option-cases (split_at is_end rest)) [
  | inl absent ↦ absurd (ground (arith, (rw absent at h)))
  | inr ((inside, last), cut) ↦ elim (Bool-cases (any is_end last)) [
    | inl again ↦ absurd (ground (arith, (rw (cut, again) at h)))
    | inr once ↦
        let same : last ≡ after = ok-eq last after (rw (cut, once) at h) in
        (
          inside,
          subst (IsCut is_end rest inside) same (split_at-some is_end rest inside last cut),
          subst (λ ls. any is_end ls ≡ false) same once,
        )
  ]
]

without_block-some :
    (lines before rest base : List Line)
    → split_at is_begin lines ≡ some (before, rest)
    → without_block lines (some (before, rest)) ≡ ok base
    → Cut lines base
unfolding any
without_block-some lines before rest base cut h =
    elim (Bool-cases (any is_begin rest || any is_end before)) [
      | inl more ↦ absurd (ground (arith, (rw more at h)))
      | inr single ↦
          let (after, read, h1) =
            >>=-eq-ok (after_block (split_at is_end rest)) (λ ls. ok (before ++ ls))
              (rw single at h) in
          let (inside, (last, split, ends_there, none_inside), none_after) =
            after_block-ok rest after read in
          let (first, start, begins_there, none_before) =
            split_at-some is_begin lines before rest cut in
          record {
            before = before;
            removed = first ∷ (inside ++ last ∷ []);
            after = after;
            whole =
                start
                ∙ ap (λ ls. before ++ first ∷ ls)
                    (split ∙ sym (append_assoc inside (last ∷ []) after));
            kept = sym (ok-eq (before ++ after) base h1);
            is_block = inr (first, last, inside, refl, begins_there, ends_there);
            no_begin =
                ground (arith, any-append is_begin inside (last ∷ after), ap (any is_begin) split);
            no_end = ground arith;
          }
    ]

without_block-Cut :
    (lines base : List Line)
    → without_block lines (split_at is_begin lines) ≡ ok base
    → Cut lines base
without_block-Cut lines base h = elim (Option-cases (split_at is_begin lines)) [
  | inl absent ↦ without_block-none lines base absent (rw absent at h)
  | inr ((before, rest), cut) ↦ without_block-some lines before rest base cut (rw cut at h)
]

block-IsBlock :
    (newline : Str) (paths : List ManagedPath) → IsBlock newline paths (block newline paths)
block-IsBlock newline paths = record {
  rule_text = rules newline paths;
  are_rules = rules-AreRules newline paths;
  is_text = refl;
}

Cut-Keeps :
    (existing rendered : Str) (base : List Line) (paths : List ManagedPath)
    → Cut (read_lines existing) base
    → rendered
      ≡ terminated (preferred_newline (read_lines existing)) (text_of base)
        ++ block (preferred_newline (read_lines existing)) paths
    → Keeps existing paths rendered
Cut-Keeps existing rendered base paths cut written =
    let newline = preferred_newline (read_lines existing) in
    let kept : text_of base ≡ text_of cut.before ++ text_of cut.after =
      ap text_of cut.kept ∙ text_of-append cut.before cut.after in
    let (gap, closed, is_gap) = terminated-IsGap newline (text_of base) in
    record {
      before = cut.before;
      removed = cut.removed;
      after = cut.after;
      newline = newline;
      gap = gap;
      added = block newline paths;
      are_lines = AreLines-read_lines existing;
      whole = cut.whole;
      split =
          sym (text_of-read_lines existing)
          ∙ ap text_of cut.whole
          ∙ text_of-append cut.before (cut.removed ++ cut.after)
          ∙ ap (λ t. text_of cut.before ++ t) (text_of-append cut.removed cut.after);
      written =
          written
          ∙ ap (λ t. t ++ block newline paths) closed
          ∙ append_assoc (text_of base) gap (block newline paths)
          ∙ ap (λ t. t ++ (gap ++ block newline paths)) kept;
      is_newline = preferred_newline-IsNewline existing;
      is_gap = subst (λ t. IsGap newline t gap) kept is_gap;
      is_added = block-IsBlock newline paths;
      is_block = cut.is_block;
      no_begin = cut.no_begin;
      no_end = cut.no_end;
    }

-- A successful rendering keeps every byte outside the one managed block, in order, and all of a
-- text without a block. After them it adds a newline where they do not end in one, and the block:
-- the two marker lines and between them, for each path in order, a rule that ignores it and one
-- that excepts the name of its ciphertext, with the trailing spaces escaped. The newlines it adds
-- are like the first newline of the text.
pub render_managed_ignore-Keeps :
    (existing rendered : Str) (paths : List ManagedPath)
    → render_managed_ignore existing paths ≡ ok rendered
    → Keeps existing paths rendered
unfolding render_managed_ignore
render_managed_ignore-Keeps existing rendered paths h =
    let lines = read_lines existing in
    let (_, sound, h1) = >>=-eq-ok (fail_if (any is_malformed lines) malformed_block) _ h in
    let (base, found, h2) =
      >>=-eq-ok (without_block lines (split_at is_begin lines))
        (λ ls. ok (
          terminated (preferred_newline lines) (text_of ls)
          ++ block (preferred_newline lines) paths))
        h1 in
    Cut-Keeps existing rendered base paths (without_block-Cut lines base found)
      (sym (ok-eq _ rendered h2))
