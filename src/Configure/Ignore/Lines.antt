-- ===== src/Configure/Ignore/Lines.antt =====
-- src/configure/plan.rs: the lines of `.gitignore`, and where they are cut.
use gitveil.Base.{
  ℕ, Bool, true, false, ◌&&◌, ◌≡◌, refl, ap, subst, List, [], ◌∷◌, ◌++◌, ◌==◌, arith, Option, none,
  some, any, is_empty, Str, codes, nat_eq, list_eq, inl, inr, eq_iff, Bool-cases, some_injective,
  append_assoc,
}
use gitveil.Configure.Ignore.{Line, push_byte, read_lines, text_of, push_before, split_at}

-- Whether a text ends in a byte.
abbrev pub ends_in : ℕ → Str → Bool
ends_in d [] = false
ends_in d (c ∷ []) = c == d
ends_in d (c ∷ e ∷ s) = ends_in d (e ∷ s)

text_of-push_byte : (c : ℕ) (lines : List Line) → text_of (push_byte c lines) ≡ c ∷ text_of lines
unfolding text_of
text_of-push_byte c [] = refl
text_of-push_byte c (line ∷ rest) =
    elim (Bool-cases (c == 13 && is_empty line.content && line.ending == codes "\n")) [
      | inl joined ↦
          let is_return : c ≡ 13 = ground arith in
          let is_blank : line.content ≡ [] = ground arith in
          let is_feed : line.ending ≡ codes "\n" =
            (eq_iff line.ending (codes "\n")).0 (ground arith) in
          rw (joined, is_return, is_blank, is_feed) refl
      | inr apart ↦ rw apart refl
    ]

pub text_of-read_lines : (input : Str) → text_of (read_lines input) ≡ input
unfolding text_of read_lines
text_of-read_lines [] = refl
text_of-read_lines (c ∷ input) = elim (Bool-cases (c == 10)) [
  | inl feed ↦ rw (feed, text_of-read_lines input, (eq_iff c 10).0 feed) refl
  | inr other ↦ rw (other, text_of-push_byte c (read_lines input), text_of-read_lines input) refl
]

pub text_of-append : (a b : List Line) → text_of (a ++ b) ≡ text_of a ++ text_of b
unfolding text_of
text_of-append [] b = refl
text_of-append (line ∷ a) b =
    rw (text_of-append a b, append_assoc (line.content ++ line.ending) (text_of a) (text_of b)) refl

-- The lines are cut at the first one with the property.
abbrev pub IsCut : (Line → Bool) → List Line → List Line → List Line → Type 0
IsCut p lines before after =
    (line : Line) × (lines ≡ before ++ line ∷ after) × (p line ≡ true) × (any p before ≡ false)

IsCut-push_before :
    (p : Line → Bool) (line : Line) (rest : List Line) (later : Option (List Line × List Line))
    (before after : List Line)
    → ((b a : List Line) → later ≡ some (b, a) → IsCut p rest b a)
    → p line ≡ false
    → push_before line later ≡ some (before, after)
    → IsCut p (line ∷ rest) before after
unfolding any
IsCut-push_before p line rest none before after h other e = cc
IsCut-push_before p line rest (some (b, a)) before after h other e =
    let (found, same, holds, free) = h b a refl in
    subst (λ (cut : List Line × List Line). IsCut p (line ∷ rest) cut.0 cut.1)
      (some_injective (line ∷ b, a) (before, after) e)
      (found, ap (λ xs. line ∷ xs) same, holds, rw other free)

pub split_at-some :
    (p : Line → Bool) (lines before after : List Line)
    → split_at p lines ≡ some (before, after)
    → IsCut p lines before after
unfolding split_at any
split_at-some p [] before after h = cc
split_at-some p (line ∷ rest) before after h = elim (Bool-cases (p line)) [
  | inl found ↦
      subst (λ (cut : List Line × List Line). IsCut p (line ∷ rest) cut.0 cut.1)
        (some_injective ([], rest) (before, after) (rw (split_at, found) at h))
        (line, refl, found, refl)
  | inr other ↦
      IsCut-push_before p line rest (split_at p rest) before after (split_at-some p rest) other
        (rw (split_at, other) at h)
]

push_before-none :
    (line : Line) (later : Option (List Line × List Line))
    → push_before line later ≡ none
    → later ≡ none
push_before-none line none h = refl
push_before-none line (some (b, a)) h = cc

pub split_at-none :
    (p : Line → Bool) (lines : List Line) → split_at p lines ≡ none → any p lines ≡ false
unfolding split_at any
split_at-none p [] h = refl
split_at-none p (line ∷ rest) h = elim (Bool-cases (p line)) [
  | inl found ↦ absurd (ground (arith, (rw (split_at, found) at h)))
  | inr other ↦
      rw other
        (split_at-none p rest (push_before-none line (split_at p rest) (rw (split_at, other) at h)))
]
