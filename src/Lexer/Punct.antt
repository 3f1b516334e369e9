-- ===== src/Lexer/Punct.antt =====
-- `lexPunct` of lib/Lex/Lexer.cpp, with a function for each `case` that looks ahead.
pub mod Table
pub mod Longest
use tensorium_cc.Prelude.{ℕ, ◌&&◌, ◌==◌, if◌then◌else◌, String, codes}
use tensorium_cc.Location.{SourceLoc}
use tensorium_cc.Token.{TokenKind, make_token}
use tensorium_cc.Lexer.Scan.{Scan, Source, cur, look, advance, loc}
use tensorium_cc.Lexer.Outcome.{Lexed, lexed, failed}

-- One, two or three calls of `advance`, and `makePunct`.
unfoldable pub take_one : TokenKind → String → SourceLoc → Scan → Lexed
take_one kind text at s = lexed (make_token kind (codes text) at) (advance s)

unfoldable pub take_two : TokenKind → String → SourceLoc → Scan → Lexed
take_two kind text at s = lexed (make_token kind (codes text) at) (advance (advance s))

unfoldable pub take_three : TokenKind → String → SourceLoc → Scan → Lexed
take_three kind text at s = lexed (make_token kind (codes text) at) (advance (advance (advance s)))

unfoldable pub lex_dot : SourceLoc → Scan → Lexed
lex_dot at s =
    if look s 1 == b'.' && look s 2 == b'.'
    then take_three TokenKind.ellipsis "..." at s
    else take_one TokenKind.dot "." at s

unfoldable pub lex_hash : SourceLoc → Scan → Lexed
lex_hash at s =
    if look s 1 == b'#'
    then take_two TokenKind.hashhash "##" at s
    else take_one TokenKind.hash "#" at s

unfoldable pub lex_plus : SourceLoc → Scan → Lexed
lex_plus at s =
    if look s 1 == b'+'
    then take_two TokenKind.plusplus "++" at s
    else if look s 1 == b'='
    then take_two TokenKind.plus_assign "+=" at s
    else take_one TokenKind.plus "+" at s

unfoldable pub lex_minus : SourceLoc → Scan → Lexed
lex_minus at s =
    if look s 1 == b'-'
    then take_two TokenKind.minusminus "--" at s
    else if look s 1 == b'='
    then take_two TokenKind.minus_assign "-=" at s
    else if look s 1 == b'>'
    then take_two TokenKind.arrow "->" at s
    else take_one TokenKind.minus "-" at s

unfoldable pub lex_star : SourceLoc → Scan → Lexed
lex_star at s =
    if look s 1 == b'='
    then take_two TokenKind.mul_assign "*=" at s
    else take_one TokenKind.mul "*" at s

unfoldable pub lex_slash : SourceLoc → Scan → Lexed
lex_slash at s =
    if look s 1 == b'='
    then take_two TokenKind.div_assign "/=" at s
    else take_one TokenKind.div "/" at s

unfoldable pub lex_percent : SourceLoc → Scan → Lexed
lex_percent at s =
    if look s 1 == b'='
    then take_two TokenKind.mod_assign "%=" at s
    else take_one TokenKind.modulo "%" at s

unfoldable pub lex_ampersand : SourceLoc → Scan → Lexed
lex_ampersand at s =
    if look s 1 == b'&'
    then take_two TokenKind.ampamp "&&" at s
    else if look s 1 == b'='
    then take_two TokenKind.amp_assign "&=" at s
    else take_one TokenKind.amp "&" at s

unfoldable pub lex_bar : SourceLoc → Scan → Lexed
lex_bar at s =
    if look s 1 == b'|'
    then take_two TokenKind.pipepipe "||" at s
    else if look s 1 == b'='
    then take_two TokenKind.pipe_assign "|=" at s
    else take_one TokenKind.pipe "|" at s

unfoldable pub lex_caret : SourceLoc → Scan → Lexed
lex_caret at s =
    if look s 1 == b'='
    then take_two TokenKind.caret_assign "^=" at s
    else take_one TokenKind.caret "^" at s

unfoldable pub lex_bang : SourceLoc → Scan → Lexed
lex_bang at s =
    if look s 1 == b'=' then take_two TokenKind.neq "!=" at s else take_one TokenKind.bang "!" at s

unfoldable pub lex_equals : SourceLoc → Scan → Lexed
lex_equals at s =
    if look s 1 == b'=' then take_two TokenKind.eq "==" at s else take_one TokenKind.assign "=" at s

unfoldable pub lex_less : SourceLoc → Scan → Lexed
lex_less at s =
    if look s 1 == b'<'
    then (if look s 2 == b'='
        then take_three TokenKind.lshift_assign "<<=" at s
        else take_two TokenKind.lshift "<<" at s)
    else if look s 1 == b'='
    then take_two TokenKind.leq "<=" at s
    else take_one TokenKind.lt "<" at s

unfoldable pub lex_greater : SourceLoc → Scan → Lexed
lex_greater at s =
    if look s 1 == b'>'
    then (if look s 2 == b'='
        then take_three TokenKind.rshift_assign ">>=" at s
        else take_two TokenKind.rshift ">>" at s)
    else if look s 1 == b'='
    then take_two TokenKind.geq ">=" at s
    else take_one TokenKind.gt ">" at s

unfoldable pub lex_punct : Source → Scan → Lexed
lex_punct src s =
    let at = loc src s in
    if cur s == b'('
    then take_one TokenKind.l_paren "(" at s
    else if cur s == b')'
    then take_one TokenKind.r_paren ")" at s
    else if cur s == b'{'
    then take_one TokenKind.l_brace "{" at s
    else if cur s == b'}'
    then take_one TokenKind.r_brace "}" at s
    else if cur s == b'['
    then take_one TokenKind.l_bracket "[" at s
    else if cur s == b']'
    then take_one TokenKind.r_bracket "]" at s
    else if cur s == b';'
    then take_one TokenKind.semicolon ";" at s
    else if cur s == b':'
    then take_one TokenKind.colon ":" at s
    else if cur s == b','
    then take_one TokenKind.comma "," at s
    else if cur s == b'?'
    then take_one TokenKind.question "?" at s
    else if cur s == b'~'
    then take_one TokenKind.tilde "~" at s
    else if cur s == b'.'
    then lex_dot at s
    else if cur s == b'#'
    then lex_hash at s
    else if cur s == b'+'
    then lex_plus at s
    else if cur s == b'-'
    then lex_minus at s
    else if cur s == b'*'
    then lex_star at s
    else if cur s == b'/'
    then lex_slash at s
    else if cur s == b'%'
    then lex_percent at s
    else if cur s == b'&'
    then lex_ampersand at s
    else if cur s == b'|'
    then lex_bar at s
    else if cur s == b'^'
    then lex_caret at s
    else if cur s == b'!'
    then lex_bang at s
    else if cur s == b'='
    then lex_equals at s
    else if cur s == b'<'
    then lex_less at s
    else if cur s == b'>'
    then lex_greater at s
    else failed "unknown character" at 1 (advance s)
