-- ===== src/Source/Dotenv/Aligned.antt =====
-- What `parse` guarantees of a dotenv document.
use gitveil.Base.{
  ℕ, zero, suc, Bool, true, false, not, ◌&&◌, ◌||◌, List, [], ◌∷◌, ◌++◌, ◌≡◌, refl, sym, ap, ◌∙◌,
  ◌==◌, arith, Str, all, all-append, IsUnique, IsUnique-concat, IndexMap, keys, contains_key,
  contains-keys, insert, keys-insert, Outcome, ok, fail_if, ok_or, >>=-eq-ok, Bool-cases, inl, inr,
  nat_eq, list_eq, is_empty, split_once, split, trim, starts_with, split,
}
use gitveil.Config.{dotenv}
use gitveil.Source.Node.{
  Node, mapping, scalar, string, Fields, entries, of_entries, entries-of_entries,
}
use gitveil.Source.Layout.{DotenvLayout, crlf_to_lf}
use gitveil.Source.Layout.Dotenv.{layout_keys}
use gitveil.Source.Document.{SourceDocument, SourceError, parse_error, duplicate_key}
use gitveil.Source.NodePath.{root, child_key}
use gitveil.Source.Dotenv.{valid_key, parse_value}
use gitveil.Source.Dotenv.Parse.{
  ParseState, start, split_export, layout_of, assign, parse_assignment, parse_lines,
  has_trailing_newline, document_of, parse,
}

-- Every value is a string.
abbrev IsStrings : IndexMap Str Node → Type 0
IsStrings [] = Unit
IsStrings ((key, node) ∷ rest) = ((value : Str) × (node ≡ scalar (string value))) × IsStrings rest

-- One string for every key, the keys valid and distinct, and a layout for each in the same order.
pub record IsAligned (values : IndexMap Str Node) (layouts : List DotenvLayout) : Type 0 where
  pub same_keys : layout_keys layouts ≡ keys values
  pub keys_unique : IsUnique (keys values)
  pub keys_valid : all valid_key (keys values) ≡ true
  pub values_strings : IsStrings values

layout_keys-append :
    (layouts : List DotenvLayout) (layout : DotenvLayout)
    → layout_keys (layouts ++ layout ∷ []) ≡ layout_keys layouts ++ layout.key ∷ []
layout_keys-append [] layout = refl
layout_keys-append (l ∷ layouts) layout =
    ap (λ rest. l.key ∷ rest) (layout_keys-append layouts layout)

IsStrings-insert :
    (key value : Str) (values : IndexMap Str Node)
    → IsStrings values
    → IsStrings (insert key (scalar (string value)) values)
unfolding insert
IsStrings-insert key value [] h = ((value, refl), tt)
IsStrings-insert key value ((k, v) ∷ values) h = elim (Bool-cases (k == key)) [
  | inl here ↦ rw here ((value, refl), h.1)
  | inr other ↦ rw other (h.0, IsStrings-insert key value values h.1)
]

-- A new assignment keeps the alignment.
assign-IsAligned :
    (key value : Str) (layout : DotenvLayout) (values : IndexMap Str Node)
    (layouts : List DotenvLayout)
    → valid_key key ≡ true
    → contains_key key values ≡ false
    → layout.key ≡ key
    → IsAligned values layouts
    → IsAligned (insert key (scalar (string value)) values) (layouts ++ layout ∷ [])
unfolding all
assign-IsAligned key value layout values layouts good new named a =
    let extended : keys (insert key (scalar (string value)) values) ≡ keys values ++ key ∷ [] =
      keys-insert key (scalar (string value)) values ∙ rw new refl in
    record {
      same_keys = rw (extended, layout_keys-append layouts layout, a.same_keys, named) refl;
      keys_unique =
          rw extended
            (IsUnique-concat (keys values) key a.keys_unique (rw (contains-keys key values) new));
      keys_valid =
          rw (extended, all-append valid_key (keys values) (key ∷ []), a.keys_valid, good) refl;
      values_strings = IsStrings-insert key value values a.values_strings;
    }

result-IsAligned :
    (built next : ParseState) (result : Outcome SourceError (ParseState × ℕ)) (consumed skip : ℕ)
    → IsAligned built.values built.layouts
    → result ≡ ok (built, consumed)
    → result ≡ ok (next, skip)
    → IsAligned next.values next.layouts
result-IsAligned built next result consumed skip a b h = let e : built ≡ next = cc in rw (sym e) a

parse_assignment-IsAligned :
    (trimmed : Str) (remaining : List Str) (state next : ParseState) (skip : ℕ)
    → parse_assignment trimmed remaining state ≡ ok (next, skip)
    → IsAligned state.values state.layouts
    → IsAligned next.values next.layouts
unfolding parse_assignment
parse_assignment-IsAligned trimmed remaining state next skip h a =
    let exported = (split_export trimmed).0 in
    let ((key, raw_value), _, h1) =
      >>=-eq-ok (ok_or (split_once 61 (split_export trimmed).1) (parse_error dotenv)) _ h in
    let (_, named, h2) = >>=-eq-ok (fail_if (not (valid_key key)) (parse_error dotenv)) _ h1 in
    let (_, fresh, h3) =
      >>=-eq-ok
        (fail_if (contains_key key state.values) (duplicate_key dotenv (child_key root key))) _
        h2 in
    let (parsed, _, h4) =
      >>=-eq-ok (parse_value raw_value remaining)
        (λ p. ok (assign exported key p state, p.consumed)) h3 in
    result-IsAligned (assign exported key parsed state) next
      (ok (assign exported key parsed state, parsed.consumed)) parsed.consumed skip
      (assign-IsAligned key parsed.value (layout_of exported key parsed state.pending) state.values
        state.layouts (ground arith) (ground arith) refl a)
      refl h4

parse_lines-IsAligned :
    (trailing : Bool) (skip : ℕ) (lines : List Str) (state final : ParseState)
    → parse_lines trailing skip lines state ≡ ok final
    → IsAligned state.values state.layouts
    → IsAligned final.values final.layouts
unfolding parse_lines
parse_lines-IsAligned trailing skip [] state final h a = let e : state ≡ final = cc in rw (sym e) a
parse_lines-IsAligned trailing (suc skip) (line ∷ rest) state final h a =
    parse_lines-IsAligned trailing skip rest state final h a
parse_lines-IsAligned trailing zero (line ∷ rest) state final h a =
    elim (Bool-cases (is_empty rest && is_empty line && trailing)) [
      | inl last ↦ let e : state ≡ final = cc (rw (parse_lines, last) at h) in rw (sym e) a
      | inr more ↦ elim (Bool-cases (is_empty (trim line) || starts_with (35 ∷ []) (trim line))) [
        | inl comment ↦
            parse_lines-IsAligned trailing zero rest _ final (rw (parse_lines, more, comment) at h)
              a
        | inr assignment ↦
            let ((next, skip), assigned, h') =
              >>=-eq-ok _ _ (rw (parse_lines, more, assignment) at h) in
            parse_lines-IsAligned trailing skip rest next final h'
              (parse_assignment-IsAligned (trim line) rest state next skip assigned a)
      ]
    ]

-- A document that `parse` accepts is a mapping from distinct valid keys to strings, and its layout
-- has one entry for each key, in the order of the mapping.
pub parse-IsAligned :
    (input : Str) (document : SourceDocument)
    → parse input ≡ ok document
    → (values : Fields) × (document.root ≡ mapping values)
      × IsAligned (entries values) document.layout.dotenv
unfolding parse document_of all keys
parse-IsAligned input document h =
    let lines = parse_lines (has_trailing_newline input) zero (split 10 (crlf_to_lf input)) start in
    let (state, parsed, h') = >>=-eq-ok lines (λ s. ok (document_of input s)) h in
    let aligned : IsAligned state.values state.layouts =
      parse_lines-IsAligned (has_trailing_newline input) zero (split 10 (crlf_to_lf input)) start
        state parsed
        (record { same_keys = refl; keys_unique = tt; keys_valid = refl; values_strings = tt }) in
    let built : document_of input state ≡ document = cc in
    (
      of_entries state.values,
      sym (ap (λ (d : SourceDocument). d.root) built),
      rw (entries-of_entries state.values, sym built) aligned,
    )
