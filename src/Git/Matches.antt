-- ===== src/Git/Matches.antt =====
-- src/git/repository.rs: the rules that are read out of `git check-ignore` are complete.
use gitveil.Base.{
  ℕ, suc, ◌%◌, Bool, true, false, not, List, [], ◌∷◌, ◌++◌, some, ◌≡◌, refl, sym, ap, ◌∙◌, subst,
  ◌==◌, eq_iff, IsUnique, find?, length, contains, contains-append, IsUnique-concat, IsWithin,
  IsWithin-length_eq, IndexMap, keys, contains_key, contains-keys, split, ok, ok_or, fail_if,
  >>=-eq-ok, fail_if-ok, fail_if-not, ok_or-ok, ok-eq, eqb_iff, nat_eq, list_eq, arith,
}
use gitveil.ManagedPath.{ManagedPath}
use gitveil.Workflow.{protocol}
use gitveil.Git.{
  IgnoreMatch, Utf8, requested_path, distinct, read_match, read_matches, without_last_empty,
  parse_ignore_matches,
}

find?-contains :
    (p : ManagedPath → Bool) (xs : List ManagedPath) (x : ManagedPath)
    → find? p xs ≡ some x
    → contains xs x ≡ true
unfolding find? contains
find?-contains p [] x h = cc
find?-contains p (y ∷ ys) x h = ground (arith, find?-contains p ys x, eq_iff y x)

contains-distinct :
    (paths : List ManagedPath) (a : ManagedPath) → contains (distinct paths) a ≡ contains paths a
unfolding distinct contains
contains-distinct [] a = refl
contains-distinct (path ∷ rest) a =
    ground (arith, contains-distinct rest a, contains-distinct rest path, eq_iff path a)

keys-push :
    (m : IndexMap ManagedPath IgnoreMatch) (path : ManagedPath) (outcome : IgnoreMatch)
    → keys (m ++ (path, outcome) ∷ []) ≡ keys m ++ path ∷ []
unfolding keys
keys-push [] path outcome = refl
keys-push ((k, v) ∷ m) path outcome = ap (λ ks. k ∷ ks) (keys-push m path outcome)

-- The matches so far are for distinct paths of the request.
abbrev IsPart : List ManagedPath → IndexMap ManagedPath IgnoreMatch → Type 0
IsPart requested matches = IsUnique (keys matches) × IsWithin (keys matches) requested

push-IsPart :
    (requested : List ManagedPath) (matches : IndexMap ManagedPath IgnoreMatch) (path : ManagedPath)
    (outcome : IgnoreMatch)
    → IsPart requested matches
    → contains requested path ≡ true
    → contains_key path matches ≡ false
    → IsPart requested (matches ++ (path, outcome) ∷ [])
unfolding contains
push-IsPart requested matches path outcome (unique, within) asked fresh =
    subst (λ ks. IsUnique ks × IsWithin ks requested) (sym (keys-push matches path outcome))
      (
        IsUnique-concat (keys matches) path unique (contains-keys path matches ∙ fresh),
        λ a h.
            ground
              (arith, within a, asked, eq_iff path a, contains-append (keys matches) (path ∷ []) a),
      )

read_matches-IsPart :
    (utf8 : Utf8) (requested : List ManagedPath) (matches : IndexMap ManagedPath IgnoreMatch)
    (fields : List (List ℕ)) (result : IndexMap ManagedPath IgnoreMatch)
    → IsPart requested matches
    → read_matches utf8 requested matches fields ≡ ok result
    → IsPart requested result
unfolding read_matches
read_matches-IsPart utf8 requested matches [] result part h =
    subst (IsPart requested) (ok-eq matches result h) part
read_matches-IsPart utf8 requested matches (a ∷ []) result part h =
    subst (IsPart requested) (ok-eq matches result h) part
read_matches-IsPart utf8 requested matches (a ∷ b ∷ []) result part h =
    subst (IsPart requested) (ok-eq matches result h) part
read_matches-IsPart utf8 requested matches (a ∷ b ∷ c ∷ []) result part h =
    subst (IsPart requested) (ok-eq matches result h) part
read_matches-IsPart utf8 requested matches (source ∷ line ∷ pattern' ∷ field ∷ rest) result part h =
    let (path, found, h1) = >>=-eq-ok (ok_or (requested_path utf8 requested field) protocol) _ h in
    let (outcome, read, h2) = >>=-eq-ok (read_match utf8 source line pattern') _ h1 in
    let (_, fresh, h3) =
      >>=-eq-ok (fail_if (contains_key path matches) protocol)
        (λ _. read_matches utf8 requested (matches ++ (path, outcome) ∷ []) rest) h2 in
    read_matches-IsPart utf8 requested (matches ++ (path, outcome) ∷ []) rest result
      (push-IsPart requested matches path outcome part
        (unfold requested_path in
          find?-contains (λ (p : ManagedPath). utf8.as_bytes p == field) requested path
            (ok_or-ok (requested_path utf8 requested field) protocol found))
        (fail_if-ok (contains_key path matches) protocol fresh))
      h3

length-keys : (m : IndexMap ManagedPath IgnoreMatch) → length (keys m) ≡ length m
unfolding keys
length-keys [] = refl
length-keys ((k, v) ∷ m) = ap suc (length-keys m)

same_test : (a b : Bool) → (a ≡ true → b ≡ true) → (b ≡ true → a ≡ true) → a ≡ b
same_test true b h h' = sym (h refl)
same_test false true h h' = h' refl
same_test false false h h' = refl

-- As many matches as paths of the request.
IsPart-all :
    (requested : List ManagedPath) (matches : IndexMap ManagedPath IgnoreMatch)
    → IsPart requested matches
    → length matches ≡ length (distinct requested)
    → (path : ManagedPath) → contains_key path matches ≡ contains requested path
IsPart-all requested matches (unique, within) same path =
    let within' = λ (a : ManagedPath) (h : contains (keys matches) a ≡ true).
      contains-distinct requested a ∙ within a h in
    let all =
      IsWithin-length_eq (keys matches) (distinct requested) unique within'
        (length-keys matches ∙ same) in
    sym (contains-keys path matches)
    ∙ same_test (contains (keys matches) path) (contains requested path) (within path)
        (λ h. all path (contains-distinct requested path ∙ h))

-- Whatever Git prints: the answer that is accepted has an outcome for exactly the paths of the
-- request, one for each.
pub parse_ignore_matches-keys :
    (utf8 : Utf8) (requested : List ManagedPath) (output : List ℕ)
    (matches : IndexMap ManagedPath IgnoreMatch)
    → parse_ignore_matches utf8 requested output ≡ ok matches
    → IsUnique (keys matches)
      × ((path : ManagedPath) → contains_key path matches ≡ contains requested path)
unfolding parse_ignore_matches keys
parse_ignore_matches-keys utf8 requested output matches h =
    let fields = without_last_empty (split 0 output) in
    let (_, whole_records, h1) = >>=-eq-ok (fail_if (not (length fields % 4 == 0)) protocol) _ h in
    let (found, read, h2) = >>=-eq-ok (read_matches utf8 requested [] fields) _ h1 in
    let (_, same, h3) =
      >>=-eq-ok (fail_if (not (length found == length (distinct requested))) protocol)
        (λ _. ok found) h2 in
    let part =
      read_matches-IsPart utf8 requested [] fields found (tt, λ a h0. unfold contains in cc) read in
    subst
      (λ (m : IndexMap ManagedPath IgnoreMatch).
        IsUnique (keys m) × ((path : ManagedPath) → contains_key path m ≡ contains requested path))
      (ok-eq found matches h3)
      (
        part.0,
        IsPart-all requested found part (
            (eqb_iff (length found) (length (distinct requested))).0 (fail_if-not _ protocol same)),
      )
