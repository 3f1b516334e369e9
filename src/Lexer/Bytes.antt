-- ===== src/Lexer/Bytes.antt =====
-- The <cctype> tests of lib/Lex/Lexer.cpp, in the C locale. A byte from 128 on is in no class.
use tensorium_cc.Prelude.{ℕ, Bool, ◌&&◌, ◌||◌, leb, ◌==◌}

abbrev within : ℕ → ℕ → ℕ → Bool
within low high c = leb low c && leb c high

unfoldable pub is_space : ℕ → Bool
is_space c = within 9 13 c || c == 32

unfoldable pub is_digit : ℕ → Bool
is_digit c = within b'0' b'9' c

unfoldable pub is_alpha : ℕ → Bool
is_alpha c = within b'a' b'z' c || within b'A' b'Z' c

unfoldable pub is_alnum : ℕ → Bool
unfolding is_alpha is_digit
is_alnum c = is_alpha c || is_digit c

unfoldable pub is_xdigit : ℕ → Bool
unfolding is_digit
is_xdigit c = is_digit c || within b'a' b'f' c || within b'A' b'F' c

-- What an identifier may hold after its first byte, and begin with.
unfoldable pub is_ident : ℕ → Bool
unfolding is_alnum
is_ident c = is_alnum c || c == b'_'

unfoldable pub is_ident_start : ℕ → Bool
unfolding is_alpha
is_ident_start c = is_alpha c || c == b'_'
