-- ===== src/Token.antt =====
-- include/cc1/Lex/Token.hpp and lib/Lex/Token.cpp: token kinds in the order of the enumeration, the
-- range tests over that order, tokens, and the names that dumps print.
use tensorium_cc.Prelude.{ℕ, Bool, ◌&&◌, [], ltb, ◌==◌, Bytes, String}
use tensorium_cc.Location.{SourceLoc}

-- The markers (LITERAL_BEGIN and so on) are enumerators too: the range tests compare with them.
pub data TokenKind : Type 0 where
  literal_begin int_lit float_lit char_lit string_lit literal_end ident keyword_begin : TokenKind
  kw_auto kw_break kw_case kw_char kw_const kw_continue kw_default kw_do kw_double : TokenKind
  kw_else kw_enum kw_extern kw_float kw_for kw_goto kw_if kw_int kw_long kw_register : TokenKind
  kw_return kw_short kw_signed kw_sizeof kw_static kw_struct kw_switch kw_typedef : TokenKind
  kw_union kw_unsigned kw_void kw_volatile kw_while keyword_end punct_begin l_paren : TokenKind
  r_paren l_brace r_brace l_bracket r_bracket semicolon colon comma dot hash hashhash : TokenKind
  arrow ellipsis punct_end op_begin plus minus mul div modulo amp pipe caret tilde lshift :
      TokenKind
  rshift bang ampamp pipepipe eq neq lt gt leq geq assign plus_assign minus_assign : TokenKind
  mul_assign div_assign mod_assign amp_assign pipe_assign caret_assign lshift_assign : TokenKind
  rshift_assign plusplus minusminus question op_end end_of_file error : TokenKind

-- The value of an enumerator: its place in the enumeration.
unfoldable pub ordinal : TokenKind → ℕ
ordinal TokenKind.literal_begin = 0
ordinal TokenKind.int_lit = 1
ordinal TokenKind.float_lit = 2
ordinal TokenKind.char_lit = 3
ordinal TokenKind.string_lit = 4
ordinal TokenKind.literal_end = 5
ordinal TokenKind.ident = 6
ordinal TokenKind.keyword_begin = 7
ordinal TokenKind.kw_auto = 8
ordinal TokenKind.kw_break = 9
ordinal TokenKind.kw_case = 10
ordinal TokenKind.kw_char = 11
ordinal TokenKind.kw_const = 12
ordinal TokenKind.kw_continue = 13
ordinal TokenKind.kw_default = 14
ordinal TokenKind.kw_do = 15
ordinal TokenKind.kw_double = 16
ordinal TokenKind.kw_else = 17
ordinal TokenKind.kw_enum = 18
ordinal TokenKind.kw_extern = 19
ordinal TokenKind.kw_float = 20
ordinal TokenKind.kw_for = 21
ordinal TokenKind.kw_goto = 22
ordinal TokenKind.kw_if = 23
ordinal TokenKind.kw_int = 24
ordinal TokenKind.kw_long = 25
ordinal TokenKind.kw_register = 26
ordinal TokenKind.kw_return = 27
ordinal TokenKind.kw_short = 28
ordinal TokenKind.kw_signed = 29
ordinal TokenKind.kw_sizeof = 30
ordinal TokenKind.kw_static = 31
ordinal TokenKind.kw_struct = 32
ordinal TokenKind.kw_switch = 33
ordinal TokenKind.kw_typedef = 34
ordinal TokenKind.kw_union = 35
ordinal TokenKind.kw_unsigned = 36
ordinal TokenKind.kw_void = 37
ordinal TokenKind.kw_volatile = 38
ordinal TokenKind.kw_while = 39
ordinal TokenKind.keyword_end = 40
ordinal TokenKind.punct_begin = 41
ordinal TokenKind.l_paren = 42
ordinal TokenKind.r_paren = 43
ordinal TokenKind.l_brace = 44
ordinal TokenKind.r_brace = 45
ordinal TokenKind.l_bracket = 46
ordinal TokenKind.r_bracket = 47
ordinal TokenKind.semicolon = 48
ordinal TokenKind.colon = 49
ordinal TokenKind.comma = 50
ordinal TokenKind.dot = 51
ordinal TokenKind.hash = 52
ordinal TokenKind.hashhash = 53
ordinal TokenKind.arrow = 54
ordinal TokenKind.ellipsis = 55
ordinal TokenKind.punct_end = 56
ordinal TokenKind.op_begin = 57
ordinal TokenKind.plus = 58
ordinal TokenKind.minus = 59
ordinal TokenKind.mul = 60
ordinal TokenKind.div = 61
ordinal TokenKind.modulo = 62
ordinal TokenKind.amp = 63
ordinal TokenKind.pipe = 64
ordinal TokenKind.caret = 65
ordinal TokenKind.tilde = 66
ordinal TokenKind.lshift = 67
ordinal TokenKind.rshift = 68
ordinal TokenKind.bang = 69
ordinal TokenKind.ampamp = 70
ordinal TokenKind.pipepipe = 71
ordinal TokenKind.eq = 72
ordinal TokenKind.neq = 73
ordinal TokenKind.lt = 74
ordinal TokenKind.gt = 75
ordinal TokenKind.leq = 76
ordinal TokenKind.geq = 77
ordinal TokenKind.assign = 78
ordinal TokenKind.plus_assign = 79
ordinal TokenKind.minus_assign = 80
ordinal TokenKind.mul_assign = 81
ordinal TokenKind.div_assign = 82
ordinal TokenKind.mod_assign = 83
ordinal TokenKind.amp_assign = 84
ordinal TokenKind.pipe_assign = 85
ordinal TokenKind.caret_assign = 86
ordinal TokenKind.lshift_assign = 87
ordinal TokenKind.rshift_assign = 88
ordinal TokenKind.plusplus = 89
ordinal TokenKind.minusminus = 90
ordinal TokenKind.question = 91
ordinal TokenKind.op_end = 92
ordinal TokenKind.end_of_file = 93
ordinal TokenKind.error = 94

abbrev between : TokenKind → TokenKind → TokenKind → Bool
between low high k = ltb (ordinal low) (ordinal k) && ltb (ordinal k) (ordinal high)

unfoldable pub is_literal : TokenKind → Bool
unfolding ordinal
is_literal = between TokenKind.literal_begin TokenKind.literal_end

unfoldable pub is_keyword : TokenKind → Bool
unfolding ordinal
is_keyword = between TokenKind.keyword_begin TokenKind.keyword_end

unfoldable pub is_punct : TokenKind → Bool
unfolding ordinal
is_punct = between TokenKind.punct_begin TokenKind.punct_end

unfoldable pub is_operator : TokenKind → Bool
unfolding ordinal
is_operator = between TokenKind.op_begin TokenKind.op_end

-- `kind == k` of two enumerators.
unfoldable pub same_kind : TokenKind → TokenKind → Bool
unfolding ordinal
same_kind a b = ordinal a == ordinal b

unfoldable pub token_kind_name : TokenKind → String
token_kind_name TokenKind.int_lit = "INT_LIT"
token_kind_name TokenKind.float_lit = "FLOAT_LIT"
token_kind_name TokenKind.char_lit = "CHAR_LIT"
token_kind_name TokenKind.string_lit = "STRING_LIT"
token_kind_name TokenKind.ident = "IDENT"
token_kind_name TokenKind.kw_auto = "KW_AUTO"
token_kind_name TokenKind.kw_break = "KW_BREAK"
token_kind_name TokenKind.kw_case = "KW_CASE"
token_kind_name TokenKind.kw_char = "KW_CHAR"
token_kind_name TokenKind.kw_const = "KW_CONST"
token_kind_name TokenKind.kw_continue = "KW_CONTINUE"
token_kind_name TokenKind.kw_default = "KW_DEFAULT"
token_kind_name TokenKind.kw_do = "KW_DO"
token_kind_name TokenKind.kw_double = "KW_DOUBLE"
token_kind_name TokenKind.kw_else = "KW_ELSE"
token_kind_name TokenKind.kw_enum = "KW_ENUM"
token_kind_name TokenKind.kw_extern = "KW_EXTERN"
token_kind_name TokenKind.kw_float = "KW_FLOAT"
token_kind_name TokenKind.kw_for = "KW_FOR"
token_kind_name TokenKind.kw_goto = "KW_GOTO"
token_kind_name TokenKind.kw_if = "KW_IF"
token_kind_name TokenKind.kw_int = "KW_INT"
token_kind_name TokenKind.kw_long = "KW_LONG"
token_kind_name TokenKind.kw_register = "KW_REGISTER"
token_kind_name TokenKind.kw_return = "KW_RETURN"
token_kind_name TokenKind.kw_short = "KW_SHORT"
token_kind_name TokenKind.kw_signed = "KW_SIGNED"
token_kind_name TokenKind.kw_sizeof = "KW_SIZEOF"
token_kind_name TokenKind.kw_static = "KW_STATIC"
token_kind_name TokenKind.kw_struct = "KW_STRUCT"
token_kind_name TokenKind.kw_switch = "KW_SWITCH"
token_kind_name TokenKind.kw_typedef = "KW_TYPEDEF"
token_kind_name TokenKind.kw_union = "KW_UNION"
token_kind_name TokenKind.kw_unsigned = "KW_UNSIGNED"
token_kind_name TokenKind.kw_void = "KW_VOID"
token_kind_name TokenKind.kw_volatile = "KW_VOLATILE"
token_kind_name TokenKind.kw_while = "KW_WHILE"
token_kind_name TokenKind.l_paren = "L_PAREN"
token_kind_name TokenKind.r_paren = "R_PAREN"
token_kind_name TokenKind.l_brace = "L_BRACE"
token_kind_name TokenKind.r_brace = "R_BRACE"
token_kind_name TokenKind.l_bracket = "L_BRACKET"
token_kind_name TokenKind.r_bracket = "R_BRACKET"
token_kind_name TokenKind.semicolon = "SEMICOLON"
token_kind_name TokenKind.colon = "COLON"
token_kind_name TokenKind.comma = "COMMA"
token_kind_name TokenKind.dot = "DOT"
token_kind_name TokenKind.hash = "HASH"
token_kind_name TokenKind.hashhash = "HASHHASH"
token_kind_name TokenKind.arrow = "ARROW"
token_kind_name TokenKind.ellipsis = "ELLIPSIS"
token_kind_name TokenKind.plus = "PLUS"
token_kind_name TokenKind.minus = "MINUS"
token_kind_name TokenKind.mul = "MUL"
token_kind_name TokenKind.div = "DIV"
token_kind_name TokenKind.modulo = "MOD"
token_kind_name TokenKind.amp = "AMP"
token_kind_name TokenKind.pipe = "PIPE"
token_kind_name TokenKind.caret = "CARET"
token_kind_name TokenKind.tilde = "TILDE"
token_kind_name TokenKind.lshift = "LSHIFT"
token_kind_name TokenKind.rshift = "RSHIFT"
token_kind_name TokenKind.bang = "BANG"
token_kind_name TokenKind.ampamp = "AMPAMP"
token_kind_name TokenKind.pipepipe = "PIPEPIPE"
token_kind_name TokenKind.eq = "EQ"
token_kind_name TokenKind.neq = "NEQ"
token_kind_name TokenKind.lt = "LT"
token_kind_name TokenKind.gt = "GT"
token_kind_name TokenKind.leq = "LEQ"
token_kind_name TokenKind.geq = "GEQ"
token_kind_name TokenKind.assign = "ASSIGN"
token_kind_name TokenKind.plus_assign = "PLUS_ASSIGN"
token_kind_name TokenKind.minus_assign = "MINUS_ASSIGN"
token_kind_name TokenKind.mul_assign = "MUL_ASSIGN"
token_kind_name TokenKind.div_assign = "DIV_ASSIGN"
token_kind_name TokenKind.mod_assign = "MOD_ASSIGN"
token_kind_name TokenKind.amp_assign = "AMP_ASSIGN"
token_kind_name TokenKind.pipe_assign = "PIPE_ASSIGN"
token_kind_name TokenKind.caret_assign = "CARET_ASSIGN"
token_kind_name TokenKind.lshift_assign = "LSHIFT_ASSIGN"
token_kind_name TokenKind.rshift_assign = "RSHIFT_ASSIGN"
token_kind_name TokenKind.plusplus = "PLUSPLUS"
token_kind_name TokenKind.minusminus = "MINUSMINUS"
token_kind_name TokenKind.question = "QUESTION"
token_kind_name TokenKind.end_of_file = "END_OF_FILE"
token_kind_name TokenKind.error = "ERROR"
token_kind_name _ = "UNKNOWN"

-- The union of a token, by the member that the lexer writes. A float is the bit pattern of its
-- double.
pub data Payload : Type 0 where
  int_val : ℕ → Payload
  float_val : ℕ → Payload
  char_val : ℕ → Payload

pub record Token : Type 0 where
  pub kind : TokenKind
  pub text : Bytes
  pub loc : SourceLoc
  pub payload : Payload
  pub str_val : Bytes

-- `Token(k, t, l)`: the constructor zeroes the union.
abbrev pub make_token : TokenKind → Bytes → SourceLoc → Token
make_token k t l = record { kind = k; text = t; loc = l; payload = int_val 0; str_val = [] }

abbrev pub is_eof : Token → Bool
is_eof t = same_kind t.kind TokenKind.end_of_file

abbrev pub is_error : Token → Bool
is_error t = same_kind t.kind TokenKind.error
