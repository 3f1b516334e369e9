-- ===== src/Parser/Operators/Agreement.antt =====
-- The tables of operators of lib/Lex, lib/Parse and lib/Sema agree.
use tensorium_cc.Prelude.{
  ℕ, suc, zero, ◌-◌, ◌≡◌, refl, sym, ap, ◌∙◌, ◌++◌, Bool, true, not, ◌&&◌, ◌||◌, some, List, [],
  ◌∷◌, ◌==◌, if◌then◌else◌, get_elem?, get_or, and_left, and_right, String, codes, same_bytes,
  same_bytes_iff, arith,
}
use tensorium_cc.Prelude.Int.{pos, magnitude, less_ℤ}
use tensorium_cc.Token.{TokenKind}
use tensorium_cc.Lexer.Punct.Table.{punctuators}
use tensorium_cc.PpExpression.Operators.{precedence}
use tensorium_cc.Parser.Operators.{
  BinaryOp, op_ordinal, infix_prec, is_right_assoc, token_to_binary_op, is_assignment,
  compound_operation,
}

-- The parser's precedence of a token, counted from `||` as 1; 0 for all that a directive does not
-- know as a binary operator.
abbrev pub grade : TokenKind → ℕ
grade k = if less_ℤ (infix_prec k) (pos 4) then 0 else magnitude (infix_prec k) - 3

-- A test that every entry passes.
abbrev all : {A : Type 0} → (A → Bool) → List A → Bool
all p [] = true
all p (x ∷ xs) = p x && all p xs

all-get_elem? :
    {A : Type 0} (p : A → Bool) (xs : List A) (i : ℕ) (x : A)
    → all p xs ≡ true
    → get_elem? xs i ≡ some x
    → p x ≡ true
all-get_elem? p [] i x h e = cc
all-get_elem? p (y ∷ ys) zero x h e = let first = and_left (p y) (all p ys) h in cc (e, first)
all-get_elem? p (y ∷ ys) (suc i) x h e = all-get_elem? p ys i x (and_right (p y) (all p ys) h) e

abbrev same_grade : String × TokenKind → Bool
same_grade (text, k) = precedence (codes text) == grade k

same_grade-all : all same_grade punctuators ≡ true
unfolding precedence infix_prec same_bytes
same_grade-all = refl

-- Directives and the parser group alike: the precedence of a punctuator in an #if expression is that
-- of its token in the parser, counted from `||`, for each of the 48 punctuators of the lexer; the
-- others, with assignment and comma, are no operators of a directive.
pub precedence-grade :
    (i : ℕ) (text : String) (k : TokenKind)
    → get_elem? punctuators i ≡ some (text, k)
    → precedence (codes text) ≡ grade k
precedence-grade i text k e =
    let same = all-get_elem? same_grade punctuators i (text, k) same_grade-all e in ground arith

-- The parser takes a token as a right associative operator exactly where the analysis takes its
-- operator for an assignment.
pub is_assignment-token_to_binary_op :
    (k : TokenKind) → is_assignment (token_to_binary_op k) ≡ is_right_assoc k
unfolding is_assignment token_to_binary_op is_right_assoc
is_assignment-token_to_binary_op TokenKind.assign = refl
is_assignment-token_to_binary_op _ = refl

abbrev same_operation : String × TokenKind → String × TokenKind → Bool
same_operation (text, k) (text', k') =
    not (same_bytes (codes text') (codes text ++ codes "="))
    || not (is_right_assoc k')
    || op_ordinal (compound_operation (token_to_binary_op k')) == op_ordinal (token_to_binary_op k)

same_operation-all : all (λ x. all (same_operation x) punctuators) punctuators ≡ true
unfolding same_bytes is_right_assoc token_to_binary_op compound_operation
same_operation-all = refl

abbrev op_of : ℕ → BinaryOp
op_of n =
    get_or
      (BinaryOp.add ∷ BinaryOp.sub ∷ BinaryOp.mul ∷ BinaryOp.div ∷ BinaryOp.modulo ∷ BinaryOp.and
        ∷ BinaryOp.or ∷ BinaryOp.bitand ∷ BinaryOp.bitor ∷ BinaryOp.bitxor ∷ BinaryOp.lshift
        ∷ BinaryOp.rshift ∷ BinaryOp.eq ∷ BinaryOp.neq ∷ BinaryOp.lt ∷ BinaryOp.gt ∷ BinaryOp.leq
        ∷ BinaryOp.geq ∷ BinaryOp.assign ∷ BinaryOp.add_assign ∷ BinaryOp.sub_assign
        ∷ BinaryOp.mul_assign ∷ BinaryOp.div_assign ∷ BinaryOp.mod_assign ∷ BinaryOp.and_assign
        ∷ BinaryOp.or_assign ∷ BinaryOp.xor_assign ∷ BinaryOp.lshift_assign ∷ BinaryOp.rshift_assign
        ∷ BinaryOp.comma ∷ [])
      n BinaryOp.add

op_of-op_ordinal : (op : BinaryOp) → op_of (op_ordinal op) ≡ op
op_of-op_ordinal BinaryOp.add = refl
op_of-op_ordinal _ = refl

same_ordinal : (o p : BinaryOp) → (op_ordinal o == op_ordinal p) ≡ true → o ≡ p
same_ordinal o p h =
    let eq : op_ordinal o ≡ op_ordinal p = ground arith in
    sym (op_of-op_ordinal o) ∙ ap op_of eq ∙ op_of-op_ordinal p

third : (a b c : Bool) → a ≡ true → b ≡ true → (not a || not b || c) ≡ true → c ≡ true
third a b c ha hb h = ground arith

-- A compound assignment computes with the operator that its spelling begins with: where a punctuator
-- is another one and `=`, and the parser takes it for an assignment, `compoundOperation` of its operator
-- is the operator of the other token.
pub compound_operation-token_to_binary_op :
    (i j : ℕ) (text text' : String) (k k' : TokenKind)
    → get_elem? punctuators i ≡ some (text, k)
    → get_elem? punctuators j ≡ some (text', k')
    → codes text' ≡ codes text ++ codes "="
    → is_right_assoc k' ≡ true
    → compound_operation (token_to_binary_op k') ≡ token_to_binary_op k
compound_operation-token_to_binary_op i j text text' k k' at at' spelled assigns =
    let row =
      all-get_elem? (λ x. all (same_operation x) punctuators) punctuators i (text, k)
        same_operation-all at in
    let cell = all-get_elem? (same_operation (text, k)) punctuators j (text', k') row at' in
    let spelled' = (same_bytes_iff (codes text') (codes text ++ codes "=")).1 spelled in
    same_ordinal _ _ (
      third (same_bytes (codes text') (codes text ++ codes "=")) (is_right_assoc k') _ spelled'
        assigns cell)
