-- ===== src/Configure/Ignore/Rules.antt =====
-- src/configure/plan.rs: what `escape_trailing_spaces` and the loop over the paths write.
use gitveil.Base.{
  ℕ, zero, suc, true, false, not, ◌≡◌, refl, sym, ap, ◌∙◌, subst, List, [], ◌∷◌, ◌++◌, ◌==◌, arith,
  any, Str, codes, utf8_bytes, nat_eq, list_eq, eq_iff, Bool-cases, inl, inr,
}
use gitveil.ManagedPath.{ManagedPath}
use gitveil.Configure.Ignore.Lines.{ends_in}
use gitveil.Configure.Ignore.{escape_trailing_spaces, rules}

abbrev pub spaces : ℕ → Str
spaces zero = []
spaces (suc n) = 32 ∷ spaces n

abbrev pub escaped_spaces : ℕ → Str
escaped_spaces zero = []
escaped_spaces (suc n) = 92 ∷ 32 ∷ escaped_spaces n

-- The text with a backslash before each of the spaces at its end, and else unchanged.
pub record IsEscaped (text escaped : Str) : Type 0 where
  pub stem : Str
  pub trailing : ℕ
  pub is_text : text ≡ stem ++ spaces trailing
  pub is_escaped : escaped ≡ stem ++ escaped_spaces trailing
  pub all_trailing : ends_in 32 stem ≡ false

-- A pair of lines for each of the paths, in order: the path is ignored and the name of its
-- ciphertext is not.
abbrev pub AreRules : Str → List ManagedPath → Str → Type 0
AreRules newline [] text = text ≡ []
AreRules newline (path ∷ paths) text =
    (escaped rest : Str) × IsEscaped path escaped
    × (text
        ≡ codes "/"
          ++ (utf8_bytes escaped
              ++ (newline
                  ++ (codes "!/"
                      ++ (utf8_bytes escaped ++ (codes ".gitveil" ++ (newline ++ rest)))))))
    × AreRules newline paths rest

no_space_only : (n : ℕ) → any (λ d. not (d == 32)) (spaces n) ≡ false
unfolding any
no_space_only zero = refl
no_space_only (suc n) = no_space_only n

stem_not_space :
    (c : ℕ) (stem tail : Str)
    → ends_in 32 (c ∷ stem) ≡ false
    → any (λ d. not (d == 32)) ((c ∷ stem) ++ tail) ≡ true
unfolding any
stem_not_space c [] tail h = ground arith
stem_not_space c (d ∷ stem) tail h = ground (arith, stem_not_space d stem tail h)

ends_in-cons :
    (c : ℕ) (stem : Str)
    → (c == 32) ≡ false
    → ends_in 32 stem ≡ false
    → ends_in 32 (c ∷ stem) ≡ false
ends_in-cons c [] other h = other
ends_in-cons c (d ∷ stem) other h = h

IsEscaped-cons :
    (c : ℕ) (s escaped : Str) (later : IsEscaped s escaped)
    → ends_in 32 (c ∷ later.stem) ≡ false
    → IsEscaped (c ∷ s) (c ∷ escaped)
IsEscaped-cons c s escaped later h = record {
  stem = c ∷ later.stem;
  trailing = later.trailing;
  is_text = ap (λ r. c ∷ r) later.is_text;
  is_escaped = ap (λ r. c ∷ r) later.is_escaped;
  all_trailing = h;
}

IsEscaped-space :
    (s : Str) (later : IsEscaped s (escape_trailing_spaces s)) (stem : Str)
    → later.stem ≡ stem
    → IsEscaped (32 ∷ s) (escape_trailing_spaces (32 ∷ s))
unfolding escape_trailing_spaces
IsEscaped-space s later [] e =
    let blank : any (λ d. not (d == 32)) s ≡ false =
      rw (later.is_text, e) (no_space_only later.trailing) in
    rw (escape_trailing_spaces, blank)
      (record {
        stem = [];
        trailing = suc later.trailing;
        is_text = ap (λ r. 32 ∷ r) (later.is_text ∙ ap (λ r. r ++ spaces later.trailing) e);
        is_escaped =
            ap (λ r. 92 ∷ 32 ∷ r)
              (later.is_escaped ∙ ap (λ r. r ++ escaped_spaces later.trailing) e);
        all_trailing = refl;
      })
IsEscaped-space s later (d ∷ stem) e =
    let kept : ends_in 32 (d ∷ stem) ≡ false =
      subst (λ r. ends_in 32 r ≡ false) e later.all_trailing in
    let visible : any (λ d. not (d == 32)) s ≡ true =
      rw (later.is_text, e) (stem_not_space d stem (spaces later.trailing) kept) in
    rw (escape_trailing_spaces, visible)
      (IsEscaped-cons 32 s (escape_trailing_spaces s) later
        (subst (λ r. ends_in 32 (32 ∷ r) ≡ false) (sym e) kept))

pub escape_trailing_spaces-IsEscaped : (s : Str) → IsEscaped s (escape_trailing_spaces s)
unfolding escape_trailing_spaces
escape_trailing_spaces-IsEscaped [] = record {
  stem = [];
  trailing = 0;
  is_text = refl;
  is_escaped = refl;
  all_trailing = refl;
}
escape_trailing_spaces-IsEscaped (c ∷ s) =
    let later = escape_trailing_spaces-IsEscaped s in
    elim (Bool-cases (c == 32)) [
      | inr other ↦
          rw (escape_trailing_spaces, other)
            (IsEscaped-cons c s (escape_trailing_spaces s) later
              (ends_in-cons c later.stem other later.all_trailing))
      | inl space ↦
          subst (λ d. IsEscaped (d ∷ s) (escape_trailing_spaces (d ∷ s)))
            (sym ((eq_iff c 32).0 space)) (IsEscaped-space s later later.stem refl)
    ]

pub rules-AreRules :
    (newline : Str) (paths : List ManagedPath) → AreRules newline paths (rules newline paths)
unfolding rules
rules-AreRules newline [] = refl
rules-AreRules newline (path ∷ paths) = (
  escape_trailing_spaces path,
  rules newline paths,
  escape_trailing_spaces-IsEscaped path,
  refl,
  rules-AreRules newline paths,
)
