-- ===== src/Config.antt =====
-- src/config.rs: source formats and their names.
use gitveil.Base.{
  Bool, true, false, ◌↔◌, ◌≡◌, refl, ◌==◌, arith, Eq, if◌then◌else◌, Str, codes, Outcome, ok, err,
  list_beq, nat_eq, list_eq,
}

pub data SourceFormat : Type 0 where
  dotenv json yaml toml : SourceFormat

pub data ConfigError : Type 0 where
  unsupported_format : Str → ConfigError

-- The derived equality.
abbrev pub format_beq : SourceFormat → SourceFormat → Bool
format_beq dotenv dotenv = true
format_beq json json = true
format_beq yaml yaml = true
format_beq toml toml = true
format_beq _ _ = false

pub format_beq_iff : (a b : SourceFormat) → (format_beq a b ≡ true) ↔ (a ≡ b)
format_beq_iff a b = ground arith

instance abbrev pub format_eq : Eq SourceFormat
format_eq = record { test = format_beq; decides = format_beq_iff }

-- `SourceFormat::as_str`
unfoldable pub as_str : SourceFormat → Str
as_str dotenv = codes "dotenv"
as_str json = codes "json"
as_str yaml = codes "yaml"
as_str toml = codes "toml"

-- `SourceFormat::from_str`
unfoldable pub from_str : Str → Outcome ConfigError SourceFormat
from_str value =
    if value == codes "dotenv"
    then ok dotenv
    else if value == codes "json"
    then ok json
    else if value == codes "yaml"
    then ok yaml
    else if value == codes "toml"
    then ok toml
    else err (unsupported_format value)

-- Every format is read back from its name.
pub from_str-as_str : (f : SourceFormat) → from_str (as_str f) ≡ ok f
unfolding from_str as_str list_beq
from_str-as_str dotenv = refl
from_str-as_str json = refl
from_str-as_str yaml = refl
from_str-as_str toml = refl
