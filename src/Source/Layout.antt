-- ===== src/Source/Layout.antt =====
-- src/source/document.rs: the layout of a document.
pub mod Merge
pub mod Dotenv
pub mod Entries
pub mod Keys
use gitveil.Base.{
  ℕ, Bool, true, false, not, ◌&&◌, ◌||◌, ◌↔◌, List, [], ◌∷◌, ◌++◌, ◌≡◌, ◌==◌, arith, Eq, Option,
  none, some, if◌then◌else◌, Str, codes, contains_str, nat_eq, bool_eq, bool_beq_iff, list_eq,
  list_beq_iff, option_eq, option_beq_iff, replace_char,
}
use gitveil.Source.NodePath.{NodePath, segment_eq}

pub data LineEnding : Type 0 where
  lf cr_lf : LineEnding

abbrev pub line_ending_beq : LineEnding → LineEnding → Bool
line_ending_beq lf lf = true
line_ending_beq cr_lf cr_lf = true
line_ending_beq _ _ = false

pub line_ending_beq_iff : (a b : LineEnding) → (line_ending_beq a b ≡ true) ↔ (a ≡ b)
line_ending_beq_iff a b = ground arith

instance abbrev pub line_ending_eq : Eq LineEnding
line_ending_eq = record { test = line_ending_beq; decides = line_ending_beq_iff }

pub data QuoteStyle : Type 0 where
  unquoted single double : QuoteStyle

abbrev pub quote_beq : QuoteStyle → QuoteStyle → Bool
quote_beq unquoted unquoted = true
quote_beq single single = true
quote_beq double double = true
quote_beq _ _ = false

pub quote_beq_iff : (a b : QuoteStyle) → (quote_beq a b ≡ true) ↔ (a ≡ b)
quote_beq_iff a b = ground arith

instance abbrev pub quote_eq : Eq QuoteStyle
quote_eq = record { test = quote_beq; decides = quote_beq_iff }

-- `value.replace("\r\n", "\n")`
unfoldable pub crlf_to_lf : Str → Str
crlf_to_lf [] = []
crlf_to_lf (c ∷ []) = c ∷ []
crlf_to_lf (c ∷ d ∷ s) =
    let rest = crlf_to_lf (d ∷ s) in if (c == 13) && (d == 10) then rest else c ∷ rest

-- `LineEnding::detect`
unfoldable pub detect : Str → LineEnding
unfolding contains_str
detect input = if contains_str (13 ∷ 10 ∷ []) input then cr_lf else lf

-- `LineEnding::apply`
unfoldable pub apply : LineEnding → Str → Str
unfolding crlf_to_lf replace_char
apply lf value = crlf_to_lf value
apply cr_lf value = replace_char 10 (13 ∷ 10 ∷ []) (crlf_to_lf value)

pub record Placeholder : Type 0 where
  pub token : Str
  pub path : NodePath

abbrev pub placeholder_beq : Placeholder → Placeholder → Bool
placeholder_beq a b = a.token == b.token && a.path == b.path

pub placeholder_beq_iff : (a b : Placeholder) → (placeholder_beq a b ≡ true) ↔ (a ≡ b)
placeholder_beq_iff a b = ground (arith, list_beq_iff a.token b.token, list_beq_iff a.path b.path)

instance abbrev pub placeholder_eq : Eq Placeholder
placeholder_eq = record { test = placeholder_beq; decides = placeholder_beq_iff }

pub record Template : Type 0 where
  pub body : Str
  pub placeholders : List Placeholder

abbrev pub template_beq : Template → Template → Bool
template_beq a b = a.body == b.body && a.placeholders == b.placeholders

pub template_beq_iff : (a b : Template) → (template_beq a b ≡ true) ↔ (a ≡ b)
template_beq_iff a b =
    ground (arith, list_beq_iff a.body b.body, list_beq_iff a.placeholders b.placeholders)

instance abbrev pub template_eq : Eq Template
template_eq = record { test = template_beq; decides = template_beq_iff }

pub record DotenvLayout : Type 0 where
  pub key : Str
  pub exported : Bool
  pub quote : QuoteStyle
  pub leading : List Str
  pub inline_comment : Option Str

abbrev pub dotenv_beq : DotenvLayout → DotenvLayout → Bool
dotenv_beq a b =
    a.key == b.key
    && a.exported == b.exported
    && a.quote == b.quote
    && a.leading == b.leading
    && a.inline_comment == b.inline_comment

pub dotenv_beq_iff : (a b : DotenvLayout) → (dotenv_beq a b ≡ true) ↔ (a ≡ b)
dotenv_beq_iff a b = ground (
  arith,
  list_beq_iff a.key b.key,
  bool_beq_iff a.exported b.exported,
  quote_beq_iff a.quote b.quote,
  list_beq_iff a.leading b.leading,
  option_beq_iff a.inline_comment b.inline_comment,
)

instance abbrev pub dotenv_eq : Eq DotenvLayout
dotenv_eq = record { test = dotenv_beq; decides = dotenv_beq_iff }

pub record Layout : Type 0 where
  pub line_ending : LineEnding
  pub trailing_newline : Bool
  pub preamble_comments : List Str
  pub dotenv : List DotenvLayout
  pub template : Option Template

abbrev pub layout_beq : Layout → Layout → Bool
layout_beq a b =
    a.line_ending == b.line_ending
    && a.trailing_newline == b.trailing_newline
    && a.preamble_comments == b.preamble_comments
    && a.dotenv == b.dotenv
    && a.template == b.template

pub layout_beq_iff : (a b : Layout) → (layout_beq a b ≡ true) ↔ (a ≡ b)
layout_beq_iff a b = ground (
  arith,
  line_ending_beq_iff a.line_ending b.line_ending,
  bool_beq_iff a.trailing_newline b.trailing_newline,
  list_beq_iff a.preamble_comments b.preamble_comments,
  list_beq_iff a.dotenv b.dotenv,
  option_beq_iff a.template b.template,
)

instance abbrev pub layout_eq : Eq Layout
layout_eq = record { test = layout_beq; decides = layout_beq_iff }
