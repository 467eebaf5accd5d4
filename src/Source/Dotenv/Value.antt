-- ===== src/Source/Dotenv/Value.antt =====
-- Rendering a dotenv value and reading it back.
use gitveil.Base.{
  ℕ, suc, ◌+◌, true, false, ◌⊎◌, inl, inr, List, [], ◌∷◌, ◌++◌, ◌≡◌, refl, sym, ap, arith, none,
  some, Str, codes, length, take, drop, replace_char, trim, trim_start, trim_end, is_whitespace,
  append_assoc, eqb, eqb_iff, Outcome, ok, err, ◌>>=◌, nat_eq, list_eq, list_beq_iff, Bool-cases,
  Option-cases,
}
use gitveil.Source.Layout.{QuoteStyle, single, double, quote_eq, quote_beq_iff}
use gitveil.Source.Document.{SourceError}
use gitveil.Source.Dotenv.{
  find_from, find_unescaped, unescape, decode_double, ParsedValue, close_quote, parse_quoted,
  parse_trimmed, parse_value, same_value, renders_back, escape_double, candidate_of, render_value,
}

replace_char-append :
    (c : ℕ) (to s t : Str) → replace_char c to (s ++ t) ≡ replace_char c to s ++ replace_char c to t
unfolding replace_char
replace_char-append c to [] t = refl
replace_char-append c to (d ∷ s) t = elim (Bool-cases (eqb d c)) [
  | inl here ↦ rw (here, replace_char-append c to s t) (sym (append_assoc to _ _))
  | inr other ↦ rw (other, replace_char-append c to s t) refl
]

escape_double-append : (s t : Str) → escape_double (s ++ t) ≡ escape_double s ++ escape_double t
unfolding escape_double
escape_double-append s t =
    rw
      (
        replace_char-append 92 (codes "\\\\") s t,
        replace_char-append 34 (codes "\\\"") _ _,
        replace_char-append 13 (codes "\\r") _ _,
        replace_char-append 10 (codes "\\n") _ _,
        replace_char-append 9 (codes "\\t") _ _,
      )
      refl

-- How one character is written: with a backslash, or as itself.
abbrev IsWritten : ℕ → Type 0
IsWritten c =
    ((e : ℕ) × (escape_double (c ∷ []) ≡ 92 ∷ e ∷ []) × (unescape e ≡ c) × (eqb e 10 ≡ false))
    ⊎ ((escape_double (c ∷ []) ≡ c ∷ [])
        × (eqb c 92 ≡ false)
        × (eqb c 34 ≡ false)
        × (eqb c 10 ≡ false))

escaped : (c d : ℕ) → eqb c d ≡ true → IsWritten d → IsWritten c
escaped c d h w = rw ((eqb_iff c d).0 h) w

escape_double-cases : (c : ℕ) → IsWritten c
unfolding escape_double replace_char
escape_double-cases c = elim (Bool-cases (eqb c 92)) [
  | inl e ↦ escaped c 92 e (inl (92, refl, refl, refl))
  | inr backslash ↦ elim (Bool-cases (eqb c 34)) [
    | inl e ↦ escaped c 34 e (inl (34, refl, refl, refl))
    | inr quote ↦ elim (Bool-cases (eqb c 13)) [
      | inl e ↦ escaped c 13 e (inl (b'r', refl, refl, refl))
      | inr return ↦ elim (Bool-cases (eqb c 10)) [
        | inl e ↦ escaped c 10 e (inl (b'n', refl, refl, refl))
        | inr newline ↦ elim (Bool-cases (eqb c 9)) [
          | inl e ↦ escaped c 9 e (inl (b't', refl, refl, refl))
          | inr tab ↦ inr (ground arith, backslash, quote, newline)
        ]
      ]
    ]
  ]
]

decode_double-plain :
    (c : ℕ) (s : Str)
    → eqb c 92 ≡ false
    → decode_double (c ∷ s) ≡ (decode_double s >>= λ decoded. ok (c ∷ decoded))
unfolding decode_double
decode_double-plain c [] h = rw h refl
decode_double-plain c (d ∷ s) h = rw (decode_double, h) refl

-- The position of the closing quote of a double-quoted value.
find_from-escape_double :
    (i : ℕ) (value : Str)
    → find_from i false 34 (escape_double value ++ 34 ∷ [])
      ≡ some (i + length (escape_double value))
unfolding find_from escape_double replace_char
find_from-escape_double i [] = ground arith
find_from-escape_double i (c ∷ value) =
    rw (escape_double-append (c ∷ []) value) (elim (escape_double-cases c) [
      | inl (e, written, back, line) ↦
          rw written (ground (arith, find_from-escape_double (suc (suc i)) value))
      | inr (written, backslash, quote, line) ↦
          rw written (ground (arith, find_from-escape_double (suc i) value))
    ])

decode_double-escape_double : (value : Str) → decode_double (escape_double value) ≡ ok value
unfolding decode_double escape_double replace_char
decode_double-escape_double [] = refl
decode_double-escape_double (c ∷ value) =
    rw (escape_double-append (c ∷ []) value) (elim (escape_double-cases c) [
      | inl (e, written, back, line) ↦ rw (written, decode_double-escape_double value, back) refl
      | inr (written, backslash, quote, line) ↦
          rw
            (
              written,
              decode_double-plain c (escape_double value) backslash,
              decode_double-escape_double value,
            )
            refl
    ])

take-append : (s t : Str) → take (length s) (s ++ t) ≡ s
unfolding take
take-append [] t = refl
take-append (c ∷ s) t = ap (λ u. c ∷ u) (take-append s t)

drop-append : (s t : Str) (c : ℕ) → drop (suc (length s)) (s ++ c ∷ t) ≡ t
unfolding drop
drop-append [] t c = refl
drop-append (d ∷ s) t c = drop-append s t c

-- What `parse_value` returns for a value that ends the line.
abbrev pub plain_value : Str → QuoteStyle → ParsedValue
plain_value value style = record {
  value = value;
  quote = style;
  consumed = 0;
  inline_comment = none;
}

close_quote-double :
    (value : Str)
    → close_quote (escape_double value ++ 34 ∷ []) (length (escape_double value)) 0 double
      ≡ ok (plain_value value double)
unfolding close_quote trim trim_start trim_end
close_quote-double value =
    rw
      (
        drop-append (escape_double value) [] 34,
        take-append (escape_double value) (34 ∷ []),
        decode_double-escape_double value,
      )
      refl

find_unescaped-escape_double :
    (value : Str)
    → find_unescaped (escape_double value ++ 34 ∷ []) 34 ≡ some (length (escape_double value))
unfolding find_unescaped
find_unescaped-escape_double value = ground (arith, find_from-escape_double 0 value)

parse_quoted-double :
    (value : Str) (remaining : List Str)
    → parse_quoted (escape_double value ++ 34 ∷ []) 0 remaining 34 double
      ≡ ok (plain_value value double)
unfolding parse_quoted
parse_quoted-double value [] =
    rw (parse_quoted, find_unescaped-escape_double value) (close_quote-double value)
parse_quoted-double value (line ∷ remaining) =
    rw (parse_quoted, find_unescaped-escape_double value) (close_quote-double value)

-- The fallback in double quotes.
parse_value-double :
    (value : Str) (remaining : List Str)
    → parse_value (34 ∷ escape_double value ++ 34 ∷ []) remaining ≡ ok (plain_value value double)
unfolding parse_value parse_trimmed trim_start is_whitespace
parse_value-double value remaining = parse_quoted-double value remaining

-- A value that closes on its first line is read the same whatever lines follow.
parse_quoted-remaining :
    (joined : Str) (remaining : List Str) (quote : ℕ) (style : QuoteStyle) (parsed : ParsedValue)
    → parse_quoted joined 0 [] quote style ≡ ok parsed
    → parse_quoted joined 0 remaining quote style ≡ ok parsed
unfolding parse_quoted
parse_quoted-remaining joined [] quote style parsed h = h
parse_quoted-remaining joined (line ∷ remaining) quote style parsed h = ground arith

parse_trimmed-remaining :
    (raw : Str) (remaining : List Str) (parsed : ParsedValue)
    → parse_trimmed raw [] ≡ ok parsed
    → parse_trimmed raw remaining ≡ ok parsed
unfolding parse_trimmed
parse_trimmed-remaining [] remaining parsed h = h
parse_trimmed-remaining (c ∷ raw) remaining parsed h = ground (
  arith,
  parse_quoted-remaining raw remaining 39 single parsed,
  parse_quoted-remaining raw remaining 34 double parsed,
)

parse_value-remaining :
    (raw : Str) (remaining : List Str) (parsed : ParsedValue)
    → parse_value raw [] ≡ ok parsed
    → parse_value raw remaining ≡ ok parsed
unfolding parse_value
parse_value-remaining raw remaining parsed h =
    parse_trimmed-remaining (trim_start raw) remaining parsed h

same_value-plain :
    (value : Str) (style : QuoteStyle) (result : Outcome SourceError ParsedValue)
    → same_value value style result ≡ true
    → result ≡ ok (plain_value value style)
same_value-plain value style (err e) h = cc
same_value-plain value style (ok parsed) h =
    ground (arith, list_beq_iff parsed.value value, quote_beq_iff parsed.quote style)

-- Reading a rendered value, whatever lines follow, gives back the value, with no further line
-- and no comment; it is written in the preferred style or in double quotes. The rendered value is
-- read as one line, also where it holds a newline.
pub parse_value-render_value :
    (value : Str) (preferred : QuoteStyle) (remaining : List Str)
    → (style : QuoteStyle) × ((style ≡ preferred) ⊎ (style ≡ double))
      × (parse_value (render_value value preferred) remaining ≡ ok (plain_value value style))
unfolding render_value renders_back
parse_value-render_value value preferred remaining =
    elim (Option-cases (candidate_of value preferred)) [
      | inl none_fits ↦
          (double, inr refl, rw (render_value, none_fits) (parse_value-double value remaining))
      | inr (candidate, proposed) ↦ elim (Bool-cases (renders_back candidate value preferred)) [
        | inl back ↦ (
          preferred,
          inl refl,
          rw (render_value, proposed, back)
              (parse_value-remaining candidate remaining (plain_value value preferred)
                (same_value-plain value preferred (parse_value candidate []) back)),
        )
        | inr lost ↦ (
          double,
          inr refl,
          rw (render_value, proposed, lost) (parse_value-double value remaining),
        )
      ]
    ]
