-- ===== src/Preprocessor/Output/Ending.antt =====
-- The calls of `next` of lib/Lex/Preprocessor.cpp come to the end of the input.
use mathlib.Core.Path.{subst}
use tensorium_cc.Prelude.{
  ℕ, zero, suc, ◌+◌, ◌≤◌, ◌<◌, ◌≡◌, refl, ap, true, false, not, ◌&&◌, List, [], ◌∷◌, ◌++◌, drop,
  length, elim_ind, Bool-cases, inl, inr, arith,
}
use tensorium_cc.Diagnostic.{DiagnosticEngine, has_errors}
use tensorium_cc.Token.{Token, TokenKind, same_kind, is_eof, is_error, ordinal}
use tensorium_cc.Preprocessor.{PpToken}
use tensorium_cc.Preprocessor.State.{State, Setting, Outcome, ok, ◌>>=◌, engine}
use tensorium_cc.Preprocessor.Ends.{Ends}
use tensorium_cc.Preprocessor.Process.{run, ran, no_errors, process}
use tensorium_cc.Preprocessor.Output.{convert, is_string, join_strings, end_token, next_token, next}

-- The token of the last of `n + 1` calls.
unfoldable pub nth_next : Setting → ℕ → State → Outcome Token
nth_next set zero p = next set p
nth_next set (suc n) p = next set p >>= λ _ q. nth_next set n q

join_strings-read :
    (set : Setting) (token : Token) (read : ℕ) (rest : List PpToken) (d : DiagnosticEngine)
    → read ≤ (join_strings set token read rest d).1
unfolding join_strings
join_strings-read set token read [] d = omega arith
join_strings-read set token read (raw ∷ rest) d =
    let part = (convert set raw d).0 in
    let more : Token = record token {
      text = token.text ++ part.text;
      str_val = token.str_val ++ part.str_val;
    } in
    elim_ind (λ (r : Token × ℕ × DiagnosticEngine). read ≤ r.1)
      (same_kind token.kind TokenKind.string_lit && is_string raw)
      (λ _.
        elim_ind (λ (r : Token × ℕ × DiagnosticEngine). read ≤ r.1) (is_error (convert set raw d).0)
          (λ _. omega arith)
          (λ _. omega (arith, join_strings-read set more (read + 1) rest (convert set raw d).1)))
      (λ _. omega arith)

next_token-cursor :
    (set : Setting) (raw : PpToken) (rest : List PpToken) (p : State)
    → p.cursor < (next_token set (raw ∷ rest) p).1.cursor
unfolding next_token
next_token-cursor set raw rest p =
    let (first, d) = convert set raw (engine p) in
    omega (arith, join_strings-read set first 1 rest d)

-- A state in which `run` has been called, with no more than `n` tokens behind the cursor.
abbrev Left : ℕ → State → Type 0
Left n p = p.ran ≡ true × length p.output ≤ n + p.cursor

run_ran :
    (set : Setting) (p : State) → p.ran ≡ true → run set p ≡ ok (not (has_errors (engine p))) p
unfolding run
run_ran set p h =
    ap
      (λ b. elim b [
        | true ↦ no_errors (ok _ p)
        | false ↦ no_errors (ran (process set 64 set.main p.end (record p { ran = true })))
      ])
      h

-- `next` where `run` has been called.
next_error :
    (set : Setting) (p : State)
    → p.ran ≡ true
    → has_errors (engine p) ≡ true
    → next set p ≡ ok (end_token p) p
unfolding next
next_error set p h e = rw (next, run_ran set p h, e) refl

next_clean :
    (set : Setting) (p : State) (rest : List PpToken)
    → p.ran ≡ true
    → has_errors (engine p) ≡ false
    → drop p.cursor p.output ≡ rest
    → next set p ≡ ok (next_token set rest p).0 (next_token set rest p).1
unfolding next
next_clean set p rest h e left = rw (next, run_ran set p h, e, left) refl

abbrev EndsInput : Outcome Token → Type 0
EndsInput m = Ends (λ token q. is_eof token ≡ true) (λ q. ⊥) m

end_token-Eof : (p : State) → is_eof (end_token p) ≡ true
unfolding same_kind ordinal
end_token-Eof p = refl

-- Behind an error every call gives the end of the input.
nth_next-error :
    (set : Setting) (n : ℕ) (p : State)
    → p.ran ≡ true
    → has_errors (engine p) ≡ true
    → EndsInput (nth_next set n p)
unfolding nth_next
nth_next-error set zero p h e = rw (nth_next, next_error set p h e) (end_token-Eof p)
nth_next-error set (suc n) p h e = rw (nth_next, next_error set p h e) (nth_next-error set n p h e)

drop-nil : {A : Type 0} (n : ℕ) (xs : List A) → drop n xs ≡ [] → length xs ≤ n
drop-nil zero [] h = omega arith
drop-nil zero (x ∷ xs) h = absurd (omega (arith, ap length h))
drop-nil (suc n) [] h = omega arith
drop-nil (suc n) (x ∷ xs) h = omega (arith, drop-nil n xs h)

drop-cons :
    {A : Type 0} (n : ℕ) (xs : List A) (x : A) (rest : List A)
    → drop n xs ≡ x ∷ rest
    → n < length xs
drop-cons zero [] x rest h = absurd (omega (arith, ap length h))
drop-cons zero (y ∷ xs) x rest h = omega arith
drop-cons (suc n) [] x rest h = absurd (omega (arith, ap length h))
drop-cons (suc n) (y ∷ xs) x rest h = omega (arith, drop-cons n xs x rest h)

-- One call where there is no error, and the calls behind it.
clean-EndsInput :
    (set : Setting) (n : ℕ) (p : State) (rest : List PpToken)
    → Left n p
    → has_errors (engine p) ≡ false
    → drop p.cursor p.output ≡ rest
    → ((m : ℕ) (q : State) → n ≡ suc m → Left m q → EndsInput (nth_next set m q))
    → EndsInput (nth_next set n p)
unfolding nth_next next_token
clean-EndsInput set zero p [] l e left more =
    rw (nth_next, next_clean set p [] l.0 e left) (end_token-Eof p)
clean-EndsInput set (suc n) p [] l e left more =
    rw (nth_next, next_clean set p [] l.0 e left)
      (more n p refl (l.0, omega (arith, drop-nil p.cursor p.output left)))
clean-EndsInput set zero p (raw ∷ rest) l e left more =
    absurd (omega (arith, l.1, drop-cons p.cursor p.output raw rest left))
clean-EndsInput set (suc n) p (raw ∷ rest) l e left more =
    rw (nth_next, next_clean set p (raw ∷ rest) l.0 e left)
      (more n (next_token set (raw ∷ rest) p).1 refl
        (l.0, omega (arith, l.1, next_token-cursor set raw rest p)))

-- Once `run` has been called, the calls of `next` come to the end of the input: where `n` tokens or
-- fewer are left, the call behind `n` others gives END_OF_FILE, whatever the tokens and errors before.
pub nth_next-EndsInput :
    (set : Setting) (n : ℕ) (p : State)
    → p.ran ≡ true
    → length p.output ≤ n + p.cursor
    → Ends (λ token q. is_eof token ≡ true) (λ q. ⊥) (nth_next set n p)
nth_next-EndsInput set zero p h l = elim (Bool-cases (has_errors (engine p))) [
  | inl e ↦ nth_next-error set 0 p h e
  | inr e ↦
      clean-EndsInput set 0 p (drop p.cursor p.output) (h, l) e refl
        (λ m q none_left. absurd (omega (arith, none_left)))
]
nth_next-EndsInput set (suc n) p h l = elim (Bool-cases (has_errors (engine p))) [
  | inl e ↦ nth_next-error set (suc n) p h e
  | inr e ↦
      clean-EndsInput set (suc n) p (drop p.cursor p.output) (h, l) e refl
        λ m q same (h', l').
          let fewer : n ≡ m = omega (arith, same) in
          subst (λ k. EndsInput (nth_next set k q)) fewer
            (nth_next-EndsInput set n q h' (rw fewer l'))
]
