-- ===== src/Tests/Ignores.antt =====
-- The managed block of `.gitignore`, and the visibility of files.
use gitveil.Base.{
  any, true, [], ◌∷◌, ◌≡◌, ◌↔◌, ◌==◌, refl, some, if◌then◌else◌, Str, codes, contains, All,
  IsUnique, ok, err, list_beq, list_eq, nat_eq,
}
use gitveil.Config.{dotenv}
use gitveil.Manifest.{UnicodeTables, Manifest}
use gitveil.Configure.Ignore.{render_managed_ignore, malformed_block}
use gitveil.Configure.Ignore.Keeping.{Keeps, render_managed_ignore-Keeps}
use gitveil.Configure.Visibility.{
  unmatched, matched, States, IsVisible, visibility_violations, visibility_violations_iff,
  collision_keys, merge_protection_paths, merge_protection_paths-IsUnique,
}

abbrev existing : Str
existing = codes "*.log\n# BEGIN gitveil managed files\n/old\n# END gitveil managed files\ntarget"

abbrev rendered : Str
rendered =
    codes
      "*.log\ntarget\n# BEGIN gitveil managed files\n/.env\n!/.env.gitveil\n# END gitveil managed files\n"

render_runs : render_managed_ignore existing (codes ".env" ∷ []) ≡ ok rendered
unfolding render_managed_ignore list_beq any
render_runs = refl

render_managed_ignore-Keeps_example : Keeps existing (codes ".env" ∷ []) rendered
render_managed_ignore-Keeps_example =
    render_managed_ignore-Keeps existing rendered (codes ".env" ∷ []) render_runs

-- The rule of a path with the marker's text makes the next rendering fail.
fragment_rejected :
    render_managed_ignore
      (codes
        "# BEGIN gitveil managed files\n/gitveil managed files/a\n# END gitveil managed files\n")
      []
    ≡ err malformed_block
unfolding render_managed_ignore list_beq any
fragment_rejected = refl

abbrev manifest : Manifest
manifest = record {
  recipient_policies = [];
  entries =
      record {
        path = codes ".env";
        format = dotenv;
        recipient_policy = codes "team";
        profile = codes "default";
      }
      ∷ [];
}

abbrev states : States
states = λ place.
    if place == codes ".env"
    then some (
        matched (record {
          source = codes ".gitignore";
          line = 1;
          pattern = codes "/.env";
          ignored = true;
        }))
    else some unmatched

visibility_violations_iff_example :
    (visibility_violations manifest states ≡ ok []) ↔ All (IsVisible states) manifest.entries
visibility_violations_iff_example = visibility_violations_iff manifest states

abbrev tables : UnicodeTables
tables = record { nfc = λ s. s; to_lowercase = λ s. s }

merge_protection_paths-IsUnique_example :
    IsUnique (
      collision_keys tables
        (merge_protection_paths tables (codes "a" ∷ codes "b" ∷ []) (codes "b" ∷ [])))
    × ((k : Str)
        → contains
            (collision_keys tables
              (merge_protection_paths tables (codes "a" ∷ codes "b" ∷ []) (codes "b" ∷ [])))
            k
          ≡ contains (collision_keys tables (codes "a" ∷ codes "b" ∷ codes "b" ∷ [])) k)
merge_protection_paths-IsUnique_example =
    merge_protection_paths-IsUnique tables (codes "a" ∷ codes "b" ∷ []) (codes "b" ∷ [])
