-- ===== src/Lexer/Ident.antt =====
-- `lexIdent` of lib/Lex/Lexer.cpp and its table of keywords.
pub mod Keywords
use tensorium_cc.Prelude.{
  Option, none, some, List, [], ◌∷◌, if◌then◌else◌, Bytes, String, codes, same_bytes,
}
use tensorium_cc.Token.{TokenKind, make_token}
use tensorium_cc.Diagnostic.{or_else}
use tensorium_cc.Lexer.Bytes.{is_ident}
use tensorium_cc.Lexer.Scan.{Scan, Source, loc, eat}
use tensorium_cc.Lexer.Outcome.{Lexed, lexed}

unfoldable pub keywords : List (String × TokenKind)
keywords =
    ("auto", TokenKind.kw_auto)
    ∷ ("break", TokenKind.kw_break)
    ∷ ("case", TokenKind.kw_case)
    ∷ ("char", TokenKind.kw_char)
    ∷ ("const", TokenKind.kw_const)
    ∷ ("continue", TokenKind.kw_continue)
    ∷ ("default", TokenKind.kw_default)
    ∷ ("do", TokenKind.kw_do)
    ∷ ("double", TokenKind.kw_double)
    ∷ ("else", TokenKind.kw_else)
    ∷ ("enum", TokenKind.kw_enum)
    ∷ ("extern", TokenKind.kw_extern)
    ∷ ("float", TokenKind.kw_float)
    ∷ ("for", TokenKind.kw_for)
    ∷ ("goto", TokenKind.kw_goto)
    ∷ ("if", TokenKind.kw_if)
    ∷ ("int", TokenKind.kw_int)
    ∷ ("long", TokenKind.kw_long)
    ∷ ("register", TokenKind.kw_register)
    ∷ ("return", TokenKind.kw_return)
    ∷ ("short", TokenKind.kw_short)
    ∷ ("signed", TokenKind.kw_signed)
    ∷ ("sizeof", TokenKind.kw_sizeof)
    ∷ ("static", TokenKind.kw_static)
    ∷ ("struct", TokenKind.kw_struct)
    ∷ ("switch", TokenKind.kw_switch)
    ∷ ("typedef", TokenKind.kw_typedef)
    ∷ ("union", TokenKind.kw_union)
    ∷ ("unsigned", TokenKind.kw_unsigned)
    ∷ ("void", TokenKind.kw_void)
    ∷ ("volatile", TokenKind.kw_volatile)
    ∷ ("while", TokenKind.kw_while)
    ∷ []

unfoldable pub find_keyword : Bytes → List (String × TokenKind) → Option TokenKind
find_keyword text [] = none
find_keyword text ((word, kind) ∷ rest) =
    if same_bytes (codes word) text then some kind else find_keyword text rest

unfoldable pub ident_kind : Bytes → TokenKind
ident_kind text = or_else (find_keyword text keywords) TokenKind.ident

unfoldable pub lex_ident : Source → Scan → Lexed
lex_ident src s =
    let (text, t) = eat is_ident s in lexed (make_token (ident_kind text) text (loc src s)) t
