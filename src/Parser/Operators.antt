-- ===== src/Parser/Operators.antt =====
-- The tables of binary operators: `infixPrec`, `isRightAssoc` and `tokenToBinaryOp` of
-- lib/Parse/ParseExpr.cpp, `BinaryOp` of include/cc1/AST/AST.hpp, and `assignment` and
-- `compoundOperation` of lib/Sema/SemaInternal.hpp.
pub mod Agreement
use tensorium_cc.Prelude.{ℕ, Bool, true, false, ◌&&◌, leb}
use tensorium_cc.Prelude.Int.{ℤ, pos, negsuc}
use tensorium_cc.Token.{TokenKind}

pub data BinaryOp : Type 0 where
  add sub mul div modulo and or bitand bitor bitxor : BinaryOp
  lshift rshift eq neq lt gt leq geq assign add_assign : BinaryOp
  sub_assign mul_assign div_assign mod_assign and_assign or_assign xor_assign lshift_assign
        rshift_assign comma :
      BinaryOp

-- The value of a `BinaryOp`.
abbrev pub op_ordinal : BinaryOp → ℕ
op_ordinal BinaryOp.add = 0
op_ordinal BinaryOp.sub = 1
op_ordinal BinaryOp.mul = 2
op_ordinal BinaryOp.div = 3
op_ordinal BinaryOp.modulo = 4
op_ordinal BinaryOp.and = 5
op_ordinal BinaryOp.or = 6
op_ordinal BinaryOp.bitand = 7
op_ordinal BinaryOp.bitor = 8
op_ordinal BinaryOp.bitxor = 9
op_ordinal BinaryOp.lshift = 10
op_ordinal BinaryOp.rshift = 11
op_ordinal BinaryOp.eq = 12
op_ordinal BinaryOp.neq = 13
op_ordinal BinaryOp.lt = 14
op_ordinal BinaryOp.gt = 15
op_ordinal BinaryOp.leq = 16
op_ordinal BinaryOp.geq = 17
op_ordinal BinaryOp.assign = 18
op_ordinal BinaryOp.add_assign = 19
op_ordinal BinaryOp.sub_assign = 20
op_ordinal BinaryOp.mul_assign = 21
op_ordinal BinaryOp.div_assign = 22
op_ordinal BinaryOp.mod_assign = 23
op_ordinal BinaryOp.and_assign = 24
op_ordinal BinaryOp.or_assign = 25
op_ordinal BinaryOp.xor_assign = 26
op_ordinal BinaryOp.lshift_assign = 27
op_ordinal BinaryOp.rshift_assign = 28
op_ordinal BinaryOp.comma = 29

-- `infixPrec`; -1 is `negsuc 0`.
unfoldable pub infix_prec : TokenKind → ℤ
infix_prec TokenKind.comma = pos 1
infix_prec TokenKind.assign = pos 2
infix_prec TokenKind.plus_assign = pos 2
infix_prec TokenKind.minus_assign = pos 2
infix_prec TokenKind.mul_assign = pos 2
infix_prec TokenKind.div_assign = pos 2
infix_prec TokenKind.mod_assign = pos 2
infix_prec TokenKind.amp_assign = pos 2
infix_prec TokenKind.pipe_assign = pos 2
infix_prec TokenKind.caret_assign = pos 2
infix_prec TokenKind.lshift_assign = pos 2
infix_prec TokenKind.rshift_assign = pos 2
infix_prec TokenKind.pipepipe = pos 4
infix_prec TokenKind.ampamp = pos 5
infix_prec TokenKind.pipe = pos 6
infix_prec TokenKind.caret = pos 7
infix_prec TokenKind.amp = pos 8
infix_prec TokenKind.eq = pos 9
infix_prec TokenKind.neq = pos 9
infix_prec TokenKind.lt = pos 10
infix_prec TokenKind.leq = pos 10
infix_prec TokenKind.gt = pos 10
infix_prec TokenKind.geq = pos 10
infix_prec TokenKind.lshift = pos 11
infix_prec TokenKind.rshift = pos 11
infix_prec TokenKind.plus = pos 12
infix_prec TokenKind.minus = pos 12
infix_prec TokenKind.mul = pos 13
infix_prec TokenKind.div = pos 13
infix_prec TokenKind.modulo = pos 13
infix_prec _ = negsuc 0

unfoldable pub is_right_assoc : TokenKind → Bool
is_right_assoc TokenKind.assign = true
is_right_assoc TokenKind.plus_assign = true
is_right_assoc TokenKind.minus_assign = true
is_right_assoc TokenKind.mul_assign = true
is_right_assoc TokenKind.div_assign = true
is_right_assoc TokenKind.mod_assign = true
is_right_assoc TokenKind.amp_assign = true
is_right_assoc TokenKind.pipe_assign = true
is_right_assoc TokenKind.caret_assign = true
is_right_assoc TokenKind.lshift_assign = true
is_right_assoc TokenKind.rshift_assign = true
is_right_assoc _ = false

unfoldable pub token_to_binary_op : TokenKind → BinaryOp
token_to_binary_op TokenKind.plus = BinaryOp.add
token_to_binary_op TokenKind.minus = BinaryOp.sub
token_to_binary_op TokenKind.mul = BinaryOp.mul
token_to_binary_op TokenKind.div = BinaryOp.div
token_to_binary_op TokenKind.modulo = BinaryOp.modulo
token_to_binary_op TokenKind.plus_assign = BinaryOp.add_assign
token_to_binary_op TokenKind.minus_assign = BinaryOp.sub_assign
token_to_binary_op TokenKind.mul_assign = BinaryOp.mul_assign
token_to_binary_op TokenKind.div_assign = BinaryOp.div_assign
token_to_binary_op TokenKind.mod_assign = BinaryOp.mod_assign
token_to_binary_op TokenKind.amp = BinaryOp.bitand
token_to_binary_op TokenKind.pipe = BinaryOp.bitor
token_to_binary_op TokenKind.caret = BinaryOp.bitxor
token_to_binary_op TokenKind.amp_assign = BinaryOp.and_assign
token_to_binary_op TokenKind.pipe_assign = BinaryOp.or_assign
token_to_binary_op TokenKind.caret_assign = BinaryOp.xor_assign
token_to_binary_op TokenKind.lshift = BinaryOp.lshift
token_to_binary_op TokenKind.rshift = BinaryOp.rshift
token_to_binary_op TokenKind.lshift_assign = BinaryOp.lshift_assign
token_to_binary_op TokenKind.rshift_assign = BinaryOp.rshift_assign
token_to_binary_op TokenKind.ampamp = BinaryOp.and
token_to_binary_op TokenKind.pipepipe = BinaryOp.or
token_to_binary_op TokenKind.eq = BinaryOp.eq
token_to_binary_op TokenKind.neq = BinaryOp.neq
token_to_binary_op TokenKind.lt = BinaryOp.lt
token_to_binary_op TokenKind.gt = BinaryOp.gt
token_to_binary_op TokenKind.leq = BinaryOp.leq
token_to_binary_op TokenKind.geq = BinaryOp.geq
token_to_binary_op TokenKind.assign = BinaryOp.assign
token_to_binary_op TokenKind.comma = BinaryOp.comma
token_to_binary_op _ = BinaryOp.add

-- `assignment`.
unfoldable pub is_assignment : BinaryOp → Bool
is_assignment op = leb 18 (op_ordinal op) && leb (op_ordinal op) 28

unfoldable pub compound_operation : BinaryOp → BinaryOp
compound_operation BinaryOp.add_assign = BinaryOp.add
compound_operation BinaryOp.sub_assign = BinaryOp.sub
compound_operation BinaryOp.mul_assign = BinaryOp.mul
compound_operation BinaryOp.div_assign = BinaryOp.div
compound_operation BinaryOp.mod_assign = BinaryOp.modulo
compound_operation BinaryOp.and_assign = BinaryOp.bitand
compound_operation BinaryOp.or_assign = BinaryOp.bitor
compound_operation BinaryOp.xor_assign = BinaryOp.bitxor
compound_operation BinaryOp.lshift_assign = BinaryOp.lshift
compound_operation BinaryOp.rshift_assign = BinaryOp.rshift
compound_operation op = op
