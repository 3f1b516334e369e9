-- ===== src/Tests/Operators.antt =====
-- The theorems on the tables of operators at `<<` and `<<=`.
use tensorium_cc.Prelude.{◌≡◌, refl, true, codes}
use tensorium_cc.Token.{TokenKind}
use tensorium_cc.PpExpression.Operators.{precedence}
use tensorium_cc.Parser.Operators.{
  is_right_assoc, token_to_binary_op, is_assignment, compound_operation,
}
use tensorium_cc.Parser.Operators.Agreement.{
  grade, precedence-grade, is_assignment-token_to_binary_op, compound_operation-token_to_binary_op,
}

precedence-grade_example : precedence (codes "<<") ≡ grade TokenKind.lshift
precedence-grade_example = precedence-grade 19 "<<" TokenKind.lshift refl

is_assignment-token_to_binary_op_example :
    is_assignment (token_to_binary_op TokenKind.lshift_assign)
    ≡ is_right_assoc TokenKind.lshift_assign
is_assignment-token_to_binary_op_example = is_assignment-token_to_binary_op TokenKind.lshift_assign

assigns : is_right_assoc TokenKind.lshift_assign ≡ true
unfolding is_right_assoc
assigns = refl

compound_operation-token_to_binary_op_example :
    compound_operation (token_to_binary_op TokenKind.lshift_assign)
    ≡ token_to_binary_op TokenKind.lshift
compound_operation-token_to_binary_op_example =
    compound_operation-token_to_binary_op 19 1 "<<" "<<=" TokenKind.lshift TokenKind.lshift_assign
      refl refl refl assigns
