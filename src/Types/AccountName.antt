-- ===== src/Types/AccountName.antt =====
-- types/account.go: account names. `^[a-z0-9.]+$` holds of a name of one byte or more in which every
-- byte is a small letter, a digit or a dot.
use punnet_sdk.Base.{
  ℕ, Bool, true, false, ◌&&◌, ◌||◌, [], ◌∷◌, length, leb, ltb, ◌==◌, if◌then◌else◌,
}
use punnet_sdk.Base.Bytes.{Bytes}

unfoldable pub is_name_char : ℕ → Bool
is_name_char c = (leb b'a' c && leb c b'z') || (leb b'0' c && leb c b'9') || (c == b'.')

unfoldable pub all_name_chars : Bytes → Bool
unfolding is_name_char
all_name_chars [] = true
all_name_chars (c ∷ cs) = is_name_char c && all_name_chars cs

unfoldable pub is_valid : Bytes → Bool
unfolding all_name_chars
is_valid name = if (length name == 0) || ltb 64 (length name) then false else all_name_chars name
