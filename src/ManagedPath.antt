-- ===== src/ManagedPath.antt =====
-- src/path.rs: managed paths. A `ManagedPath` is its text; `new` is the only way to make one, and
-- the values that it accepts are those of `IsManagedPath`.
pub mod Suffix
use gitveil.Base.{
  ℕ, Bool, true, false, ◌&&◌, ◌||◌, List, [], ◌∷◌, ◌++◌, map, ◌≡◌, ◌==◌, if◌then◌else◌, any, all,
  is_empty, Str, codes, to_ascii_lowercase, is_control, starts_with, ends_with, contains_str,
  contains, split, Outcome, ok, ◌>>=◌, ◌>>◌, fail_if, nat_eq, list_eq,
}

abbrev pub ManagedPath : Type 0
ManagedPath = Str

pub data PathError : Type 0 where
  empty git_pathspec_magic not_repository_relative not_normalized : PathError
  git_metadata attribute_pattern control_character : PathError

-- `str::eq_ignore_ascii_case`
unfoldable pub eq_ignore_ascii_case : Str → Str → Bool
unfolding to_ascii_lowercase
eq_ignore_ascii_case a b = map to_ascii_lowercase a == map to_ascii_lowercase b

-- One round of the loop over the components.
unfoldable pub check_component : Str → Outcome PathError (Unit {0})
unfolding eq_ignore_ascii_case
check_component component = do
  fail_if (is_empty component || component == codes "." || component == codes "..") not_normalized
  fail_if (eq_ignore_ascii_case component (codes ".git")) git_metadata
  fail_if (any (λ c. contains (codes "*?[]") c) component) attribute_pattern

unfoldable pub check_components : List Str → Outcome PathError (Unit {0})
unfolding check_component
check_components [] = ok tt
check_components (component ∷ rest) = check_component component >> check_components rest

-- `ManagedPath::new`
unfoldable pub new : Str → Outcome PathError ManagedPath
unfolding check_components
new value = do
  fail_if (is_empty value) empty
  fail_if (starts_with (codes ":") value) git_pathspec_magic
  fail_if
      (starts_with (codes "/") value
        || starts_with (codes "\\") value
        || starts_with (codes "!") value
        || contains_str (codes "\\") value)
      not_repository_relative
  fail_if (ends_with (codes "/") value || contains_str (codes "//") value) not_normalized
  fail_if (any is_control value) control_character
  check_components (split b'/' value)
  ok value

-- A text that is a managed path.
abbrev pub IsManagedPath : Str → Type 0
IsManagedPath p = new p ≡ ok p
