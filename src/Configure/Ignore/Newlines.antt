-- ===== src/Configure/Ignore/Newlines.antt =====
-- src/configure/plan.rs: `preferred_newline` and the newline before the block.
use gitveil.Base.{
  ℕ, true, false, ◌&&◌, ◌≡◌, ◌≢◌, refl, sym, subst, ◌⊎◌, inl, inr, List, [], ◌∷◌, ◌++◌, ◌==◌, arith,
  Str, codes, contains, is_empty, ends_with, nat_eq, list_eq, eq_iff, Bool-cases, append_assoc,
  append-nil,
}
use gitveil.Configure.Ignore.{Line, push_byte, read_lines, text_of, preferred_newline, terminated}
use gitveil.Configure.Ignore.Lines.{ends_in, text_of-read_lines}

-- The first newline of a text, with a carriage return that stands before it; a line feed if there
-- is none.
abbrev pub IsNewline : Str → Str → Type 0
IsNewline existing newline =
    ((contains existing 10 ≡ false) × (newline ≡ codes "\n"))
    ⊎ ((before after : Str) × (existing ≡ before ++ (newline ++ after))
        × (contains before 10 ≡ false)
        × ((newline ≡ codes "\r\n") ⊎ ((newline ≡ codes "\n") × (ends_in 13 before ≡ false))))

-- What closes a text: nothing where it is empty or ends in a newline, and else a newline.
abbrev pub IsGap : Str → Str → Str → Type 0
IsGap newline text gap =
    ((gap ≡ []) × ((text ≡ []) ⊎ (ends_with (codes "\n") text ≡ true)))
    ⊎ ((gap ≡ newline) × (text ≢ []) × (ends_with (codes "\n") text ≡ false))

-- A line has its newline at its end, with the carriage return before it, and the last line may
-- have none.
pub record IsLine (line : Line) (rest : List Line) : Type 0 where
  pub unbroken : contains line.content 10 ≡ false
  pub ending :
      (line.ending ≡ [])
      ⊎ ((line.ending ≡ codes "\r\n")
          ⊎ ((line.ending ≡ codes "\n") × (ends_in 13 line.content ≡ false)))
  pub last : line.ending ≡ [] → rest ≡ []

abbrev pub AreLines : List Line → Type 0
AreLines [] = Unit
AreLines (line ∷ rest) = IsLine line rest × AreLines rest

ends_in-cons :
    (d c : ℕ) (s : Str)
    → (s ≡ [] → (c == d) ≡ false)
    → ends_in d s ≡ false
    → ends_in d (c ∷ s) ≡ false
ends_in-cons d c [] other h = other refl
ends_in-cons d c (e ∷ s) other h = h

IsLine-longer :
    (c : ℕ) (line : Line) (rest : List Line)
    → (c == 10) ≡ false
    → (c == 13 && is_empty line.content && line.ending == codes "\n") ≡ false
    → IsLine line rest
    → IsLine (record line { content = c ∷ line.content }) rest
unfolding contains
IsLine-longer c line rest other apart first = record {
  unbroken = ground (arith, first.unbroken);
  ending = elim first.ending [
    | inl none ↦ inl none
    | inr (inl both) ↦ inr (inl both)
    | inr (inr (feed, free)) ↦ inr (
        inr (
          feed,
          ends_in-cons 13 c line.content
              (λ blank. ground (arith, eq_iff line.ending (codes "\n"), (rw (blank) at apart)))
              free,
        ))
  ];
  last = first.last;
}

AreLines-push_byte :
    (c : ℕ) (lines : List Line) → (c == 10) ≡ false → AreLines lines → AreLines (push_byte c lines)
unfolding contains
AreLines-push_byte c [] other h =
    (record { unbroken = ground arith; ending = inl refl; last = λ e. refl }, tt)
AreLines-push_byte c (line ∷ rest) other (first, others) =
    elim (Bool-cases (c == 13 && is_empty line.content && line.ending == codes "\n")) [
      | inl joined ↦
          rw joined (record { unbroken = refl; ending = inr (inl refl); last = λ e. cc }, others)
      | inr apart ↦ rw apart (IsLine-longer c line rest other apart first, others)
    ]

pub AreLines-read_lines : (input : Str) → AreLines (read_lines input)
unfolding read_lines contains
AreLines-read_lines [] = tt
AreLines-read_lines (c ∷ input) = elim (Bool-cases (c == 10)) [
  | inl feed ↦
      rw (read_lines, feed)
        (
          record { unbroken = refl; ending = inr (inr (refl, refl)); last = λ e. cc },
          AreLines-read_lines input,
        )
  | inr other ↦
      rw (read_lines, other)
        (AreLines-push_byte c (read_lines input) other (AreLines-read_lines input))
]

preferred_newline-first :
    (lines : List Line) → AreLines lines → IsNewline (text_of lines) (preferred_newline lines)
unfolding text_of preferred_newline contains
preferred_newline-first [] h = inl (refl, refl)
preferred_newline-first (line ∷ rest) (first, others) = elim first.ending [
  | inl none ↦
      rw
        (
          text_of,
          preferred_newline,
          none,
          first.last none,
          append-nil line.content,
          append-nil line.content,
        )
        (inl (first.unbroken, refl))
  | inr (inl both) ↦
      rw (preferred_newline, both)
        (inr (
          line.content,
          text_of rest,
          append_assoc line.content (codes "\r\n") (text_of rest),
          first.unbroken,
          inl refl,
        ))
  | inr (inr (feed, free)) ↦
      rw (preferred_newline, feed)
        (inr (
          line.content,
          text_of rest,
          append_assoc line.content (codes "\n") (text_of rest),
          first.unbroken,
          inr (refl, free),
        ))
]

pub preferred_newline-IsNewline :
    (existing : Str) → IsNewline existing (preferred_newline (read_lines existing))
preferred_newline-IsNewline existing =
    subst (λ text. IsNewline text (preferred_newline (read_lines existing)))
      (text_of-read_lines existing)
      (preferred_newline-first (read_lines existing) (AreLines-read_lines existing))

pub terminated-IsGap :
    (newline text : Str)
    → (gap : Str) × (terminated newline text ≡ text ++ gap) × IsGap newline text gap
terminated-IsGap newline [] = ([], refl, inl (refl, inl refl))
terminated-IsGap newline (c ∷ text) = elim (Bool-cases (ends_with (codes "\n") (c ∷ text))) [
  | inl ended ↦ ([], rw ended (sym (append-nil (c ∷ text))), inl (refl, inr ended))
  | inr bare ↦ (newline, rw bare refl, inr (refl, (λ e. cc), bare))
]
