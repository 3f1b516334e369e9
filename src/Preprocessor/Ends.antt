-- ===== src/Preprocessor/Ends.antt =====
-- How the methods of lib/Lex/Preprocessor.cpp end.
use tensorium_cc.Prelude.{◌≡◌, true, Bytes, arith}
use tensorium_cc.Location.{SourceLoc}
use tensorium_cc.Diagnostic.{report, has_errors}
use tensorium_cc.Preprocessor.State.{
  State, Outcome, ok, failed, out_of_range, out_of_fuel, ◌>>=◌, engine, report_at,
}

-- A run that returns: with a value and a state that `Q` holds of, or false and a state that `P` holds of.
abbrev pub Ends : {A : Type 0} → (A → State → Type 0) → (State → Type 0) → Outcome A → Type 0
Ends Q P (ok a q) = Q a q
Ends Q P (failed q) = P q
Ends Q P out_of_range = ⊥
Ends Q P out_of_fuel = ⊥

pub Ends-bind :
    {A B : Type 0} (Q : A → State → Type 0) (R : B → State → Type 0) (P : State → Type 0)
    (m : Outcome A) (f : A → State → Outcome B)
    → Ends Q P m
    → ((a : A) (q : State) → Q a q → Ends R P (f a q))
    → Ends R P (m >>= f)
Ends-bind Q R P (ok a q) f h k = k a q h
Ends-bind Q R P (failed q) f h k = h
Ends-bind Q R P out_of_range f h k = absurd h
Ends-bind Q R P out_of_fuel f h k = absurd h

pub Ends-weaken :
    {A : Type 0} (Q R : A → State → Type 0) (P S : State → Type 0) (m : Outcome A)
    → Ends Q P m
    → ((a : A) (q : State) → Q a q → R a q)
    → ((q : State) → P q → S q)
    → Ends R S m
Ends-weaken Q R P S (ok a q) h f g = f a q h
Ends-weaken Q R P S (failed q) h f g = g q h
Ends-weaken Q R P S out_of_range h f g = absurd h
Ends-weaken Q R P S out_of_fuel h f g = absurd h

pub report_at-has_errors :
    (at : SourceLoc) (message : Bytes) (p : State)
    → has_errors (engine (report_at at message p)) ≡ true
unfolding report_at report has_errors
report_at-has_errors at message p = ground arith

-- A method that returns, true or false, with a state that `P` holds of, and false only with an error.
abbrev pub Returns : {A : Type 0} → (State → Type 0) → Outcome A → Type 0
Returns P m = Ends (λ _ q. P q) (λ q. P q × has_errors (engine q) ≡ true) m
