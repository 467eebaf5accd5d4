-- ===== src/Tests/Answers.antt =====
-- The verbose answer of `git check-ignore` in the tests of src/git/repository.rs.
use gitveil.Base.{
  ℕ, true, List, [], ◌∷◌, ◌++◌, ◌≡◌, refl, some, codes, contains, contains_key, keys, IsUnique,
  split, IndexMap, ok, all, find?, list_beq, nat_eq, list_eq,
}
use gitveil.ManagedPath.{ManagedPath}
use gitveil.Git.{Utf8, IgnoreMatch, unmatched, rule, parse_ignore_matches}
use gitveil.Git.Matches.{parse_ignore_matches-keys}

abbrev matches : IndexMap ManagedPath IgnoreMatch
matches =
    (
      codes ".env",
      rule (record {
        source = codes ".gitignore";
        line = 1;
        pattern = codes "/.env";
        ignored = true;
      }),
    )
    ∷ (codes ".env.gitveil", unmatched)
    ∷ []

abbrev utf8 : Utf8
utf8 = record { as_bytes = λ text. text; from_utf8 = some }

abbrev asked_paths : List ManagedPath
asked_paths = codes ".env" ∷ codes ".env.gitveil" ∷ []

-- `.gitignore`, 1, `/.env`, `.env`, and then three empty fields and `.env.gitveil`.
abbrev answer : List ℕ
answer =
    codes ".gitignore"
    ++ (0 ∷ 49 ∷ 0 ∷ codes "/.env"
        ++ (0 ∷ codes ".env" ++ (0 ∷ 0 ∷ 0 ∷ 0 ∷ codes ".env.gitveil" ++ (0 ∷ []))))

ignore_matches_read : parse_ignore_matches utf8 asked_paths answer ≡ ok (matches)
unfolding parse_ignore_matches list_beq split find? all contains
ignore_matches_read = refl

parse_ignore_matches-keys_example :
    IsUnique (keys (matches))
    × ((path : ManagedPath) → contains_key path (matches) ≡ contains asked_paths path)
parse_ignore_matches-keys_example =
    parse_ignore_matches-keys utf8 asked_paths answer (matches) ignore_matches_read
