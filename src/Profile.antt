-- ===== src/Profile.antt =====
-- src/profile.rs: profile names. A `ProfileName` is its text.
use gitveil.Base.{
  Bool, true, not, ◌&&◌, ◌||◌, [], ◌∷◌, leb, ◌==◌, all, Str, is_lower, is_digit, Outcome, ok, ◌>>◌,
  fail_if, byte_len, nat_eq,
}

abbrev pub ProfileName : Type 0
ProfileName = Str

pub data ProfileError : Type 0 where
  invalid_name : Str → ProfileError

-- The byte at index 0, then the bytes behind it. A character that is not ASCII has no byte that
-- the patterns accept, so the test reads characters.
abbrev pub valid_bytes : Str → Bool
valid_bytes [] = true
valid_bytes (c ∷ rest) = is_lower c && all (λ b. is_lower b || is_digit b || b == b'-') rest

-- `ProfileName::new`
unfoldable pub new_profile : Str → Outcome ProfileError ProfileName
unfolding byte_len
new_profile value = do
  fail_if (not (leb 1 (byte_len value) && leb (byte_len value) 64 && valid_bytes value))
      (invalid_name value)
  ok value
