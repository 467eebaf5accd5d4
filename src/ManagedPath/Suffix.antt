-- ===== src/ManagedPath/Suffix.antt =====
-- Appending the ciphertext suffix to a managed path gives a managed path: the `expect` of
-- `ManifestEntry::ciphertext_path` in src/manifest.rs never fires.
use mathlib.Core.List.{reverse-append}
use gitveil.Base.{
  false, List, [], ◌∷◌, ◌++◌, ◌<◌, map, ◌≡◌, ◌≢◌, refl, arith, any, is_empty, length, length-append,
  length-map, contains, eq-false_of_length, any-append, Str, codes, is_control, ends_with,
  contains_str, split, contains_str-one, starts_with-one, contains_str-doubled, append_last,
  split-append, ok, nat_eq, list_eq, to_ascii_lowercase,
}
use gitveil.ManagedPath.{check_component, check_components, new, IsManagedPath}

abbrev pub suffix : Str
suffix = codes ".gitveil"

plain_suffix :
    (c : Str)
    → any (λ x. contains (codes "*?[]") x) (c ++ suffix) ≡ any (λ x. contains (codes "*?[]") x) c
unfolding any contains
plain_suffix [] = refl
plain_suffix (x ∷ c) = ground (arith, plain_suffix c)

-- A text is longer than the suffix that it ends in, so it is not one of the short names.
longer : (c t : Str) → length t < 8 → length (c ++ suffix) ≢ length t
longer c t h e = omega (arith, length-append c suffix)

longer_folded :
    (c t : Str) → length t < 8 → length (map to_ascii_lowercase (c ++ suffix)) ≢ length t
longer_folded c t h e =
    omega (arith, length-append c suffix, length-map to_ascii_lowercase (c ++ suffix))

is_empty-suffix : (c : Str) → is_empty (c ++ suffix) ≡ false
is_empty-suffix [] = refl
is_empty-suffix (x ∷ c) = refl

check_component-suffix :
    (c : Str) → check_component c ≡ ok tt → check_component (c ++ suffix) ≡ ok tt
unfolding check_component
check_component-suffix c h =
    let dot = eq-false_of_length (c ++ suffix) (codes ".") (longer c (codes ".") (omega arith)) in
    let dots =
      eq-false_of_length (c ++ suffix) (codes "..") (longer c (codes "..") (omega arith)) in
    let git =
      eq-false_of_length (map to_ascii_lowercase (c ++ suffix)) (codes ".git")
        (longer_folded c (codes ".git") (omega arith)) in
    ground (arith, dot, dots, git, is_empty-suffix c, plain_suffix c)

check_components-suffix :
    (cs : List Str) → check_components cs ≡ ok tt → check_components (append_last cs suffix) ≡ ok tt
unfolding check_components
check_components-suffix [] h = refl
check_components-suffix (c ∷ []) h = ground (arith, check_component-suffix c)
check_components-suffix (c ∷ d ∷ r) h = ground (arith, check_components-suffix (d ∷ r))

control_suffix : (c : Str) → any is_control (c ++ suffix) ≡ any is_control c
unfolding any is_control
control_suffix [] = refl
control_suffix (x ∷ c) = ground (arith, control_suffix c)

backslash_suffix : (p : Str) → contains_str (codes "\\") (p ++ suffix) ≡ contains_str (codes "\\") p
unfolding any
backslash_suffix p = simp (contains_str-one, any-append) (ground arith)

slash_suffix : (p : Str) → ends_with (codes "/") (p ++ suffix) ≡ false
unfolding ends_with
slash_suffix p = rw (reverse-append p suffix) refl

-- What `new` accepts stays accepted with the suffix behind it.
pub IsManagedPath-suffix : (p : Str) → IsManagedPath p → IsManagedPath (p ++ suffix)
unfolding new any
IsManagedPath-suffix [] h = cc
IsManagedPath-suffix (c ∷ q) h =
    let p : Str = c ∷ q in
    let slashes = contains_str-doubled b'/' p suffix refl in
    let pieces = split-append b'/' p suffix refl in
    ground (
      arith,
      starts_with-one b':' p suffix refl,
      starts_with-one b'/' p suffix refl,
      starts_with-one b'\\' p suffix refl,
      starts_with-one b'!' p suffix refl,
      backslash_suffix p,
      slash_suffix p,
      slashes,
      control_suffix p,
      pieces,
      check_components-suffix (split b'/' p),
    )
