-- ===== src/Lexer/Outcome.antt =====
-- What a method of lib/Lex/Lexer.cpp that makes a token gives: the token, or the arguments of the
-- call of `Error` that it returns, with the state of the lexer behind either.
use tensorium_cc.Prelude.{ℕ, String}
use tensorium_cc.Location.{SourceLoc}
use tensorium_cc.Token.{Token}
use tensorium_cc.Lexer.Scan.{Scan}

pub data Lexed : Type 0 where
  lexed : Token → Scan → Lexed
  failed : String → SourceLoc → ℕ → Scan → Lexed

abbrev pub behind : Lexed → Scan
behind (lexed t s) = s
behind (failed m l n s) = s
