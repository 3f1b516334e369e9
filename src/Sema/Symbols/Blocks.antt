-- ===== src/Sema/Symbols/Blocks.antt =====
-- The symbol table of include/cc1/Sema/SymbolTable.hpp as a stack of environments.
use mathlib.Core.Option
use mathlib.Core.Path.{fun_ext}
use tensorium_cc.Prelude.{
  ◌≡◌, refl, sym, ap, ◌∙◌, Bool, true, false, Option, none, some, List, [], ◌∷◌, ◌++◌,
  if◌then◌else◌, Bytes, same_bytes, same_bytes_iff, inl, inr, Bool-cases,
}
use tensorium_cc.Sema.Symbols.{Scope, SymbolTable, find, put, or_else, push, pop, lookup, bind}

-- What a name means, and the change of one name.
abbrev pub Environment : Type 0 → Type 0
Environment D = Bytes → Option D

-- The calls of the table in their order.
pub data Operation (D : Type 0) : Type 0 where
  entered : Operation D
  left : Operation D
  bound : Bytes → D → Operation D

if_again :
    {A : Type 0} (b : Bool) (x y z : A)
    → (if b then x else z) ≡ (if b then x else if b then y else z)
if_again true x y z = refl
if_again false x y z = refl

other_name :
    (key name other : Bytes)
    → same_bytes key name ≡ false
    → same_bytes key other ≡ true
    → same_bytes name other ≡ false
other_name key name other differs here = elim (Bool-cases (same_bytes name other)) [
  | inl same ↦
      let eq = (same_bytes_iff key other).0 here ∙ sym ((same_bytes_iff name other).0 same) in
      cc ((same_bytes_iff key name).1 eq, differs)
  | inr b ↦ b
]

module _ {D : Type 0} where
  abbrev pub step : Operation D → SymbolTable D → Option (SymbolTable D)
  step entered table = some (push table)
  step left table = pop table
  step (bound name decl) table = bind name decl table

  abbrev pub after :
      Option (SymbolTable D) → (SymbolTable D → Option (SymbolTable D)) → Option (SymbolTable D)
  after none f = none
  after (some t) f = f t

  abbrev pub run : List (Operation D) → SymbolTable D → Option (SymbolTable D)
  run [] table = some table
  run (o ∷ os) table = after (step o table) (run os)

  abbrev pub updated : Bytes → D → Environment D → Environment D
  updated name decl env other = if same_bytes name other then some decl else env other

  abbrev pub innermost : List (Environment D) → Environment D
  innermost [] other = none
  innermost (env ∷ envs) other = env other

  -- The specification: entering a block keeps what each name means, leaving it gives back what it meant
  -- outside, and a declaration changes one name.
  abbrev pub spec_step : Operation D → List (Environment D) → Option (List (Environment D))
  spec_step entered envs = some (innermost envs ∷ envs)
  spec_step left [] = none
  spec_step left (env ∷ envs) = some envs
  spec_step (bound name decl) [] = none
  spec_step (bound name decl) (env ∷ envs) = some (updated name decl env ∷ envs)

  abbrev pub spec_after :
      Option (List (Environment D))
      → (List (Environment D) → Option (List (Environment D)))
      → Option (List (Environment D))
  spec_after none f = none
  spec_after (some t) f = f t

  abbrev pub spec_run : List (Operation D) → List (Environment D) → Option (List (Environment D))
  spec_run [] envs = some envs
  spec_run (o ∷ os) envs = spec_after (spec_step o envs) (spec_run os)

  -- The environments that the scopes of a table stand for.
  abbrev pub environments : SymbolTable D → List (Environment D)
  environments [] = []
  environments (scope ∷ table) = (λ name. lookup name (scope ∷ table)) ∷ environments table

  innermost-environments :
      (table : SymbolTable D) (name : Bytes)
      → innermost (environments table) name ≡ lookup name table
  unfolding lookup
  innermost-environments [] name = refl
  innermost-environments (scope ∷ table) name = refl

  or_else-if :
      (b : Bool) (d : D) (here there : Option D)
      → or_else (if b then some d else here) there ≡ (if b then some d else or_else here there)
  or_else-if true d here there = refl
  or_else-if false d here there = refl

  find-put :
      (name : Bytes) (decl : D) (scope : Scope D) (other : Bytes)
      → find other (put name decl scope)
        ≡ (if same_bytes name other then some decl else find other scope)
  unfolding find put
  find-put name decl [] other = refl
  find-put name decl ((key, d) ∷ rest) other = elim (Bool-cases (same_bytes key name)) [
    | inl same ↦
        rw (same, (same_bytes_iff key name).0 same)
          (if_again (same_bytes name other) (some decl) (some d) (find other rest))
    | inr differs ↦
        rw (differs, find-put name decl rest other)
          (elim (Bool-cases (same_bytes key other)) [
            | inl here ↦ rw (here, other_name key name other differs here) refl
            | inr there ↦ rw there refl
          ])
  ]

  environments-push :
      (table : SymbolTable D)
      → environments (push table) ≡ innermost (environments table) ∷ environments table
  unfolding push lookup find
  environments-push table =
      ap (λ env. env ∷ environments table) (fun_ext λ name. sym (innermost-environments table name))

  environments-put :
      (name : Bytes) (decl : D) (scope : Scope D) (table : SymbolTable D)
      → environments (put name decl scope ∷ table)
        ≡ updated name decl (λ other. lookup other (scope ∷ table)) ∷ environments table
  unfolding lookup
  environments-put name decl scope table =
      ap (λ env. env ∷ environments table)
        (fun_ext λ other.
          rw (find-put name decl scope other)
            (or_else-if (same_bytes name other) decl (find other scope) (lookup other table)))

  step-spec_step :
      (o : Operation D) (table : SymbolTable D)
      → Option.map environments (step o table) ≡ spec_step o (environments table)
  unfolding pop bind
  step-spec_step entered table = ap some (environments-push table)
  step-spec_step left [] = refl
  step-spec_step left (scope ∷ table) = refl
  step-spec_step (bound name decl) [] = refl
  step-spec_step (bound name decl) (scope ∷ table) =
      ap some (environments-put name decl scope table)

  after-spec_after :
      (os : List (Operation D)) (t : Option (SymbolTable D)) (envs : Option (List (Environment D)))
      → ((u : SymbolTable D) → Option.map environments (run os u) ≡ spec_run os (environments u))
      → Option.map environments t ≡ envs
      → Option.map environments (after t (run os)) ≡ spec_after envs (spec_run os)
  after-spec_after os none envs h e = ap (λ es. spec_after es (spec_run os)) e
  after-spec_after os (some t) envs h e = h t ∙ ap (λ es. spec_after es (spec_run os)) e

  -- Any sequence of calls of `push`, `pop` and `bind` does with the table what the specification does
  -- with the environments that it stands for: the calls fail together, where no scope is open, and
  -- every name is looked up in the table as in the innermost environment.
  pub run-spec_run :
      (os : List (Operation D)) (table : SymbolTable D)
      → Option.map environments (run os table) ≡ spec_run os (environments table)
  run-spec_run [] table = refl
  run-spec_run (o ∷ os) table =
      after-spec_after os (step o table) (spec_step o (environments table)) (run-spec_run os)
        (step-spec_step o table)

-- The calls of a block: declarations, and blocks inside.
pub data Balanced {D : Type 0} : List (Operation D) → Type 0 where
  nothing : Balanced []
  declared :
      (name : Bytes) (decl : D) (os : List (Operation D))
      → Balanced os
      → Balanced (bound name decl ∷ os)
  nested :
      (inner os : List (Operation D))
      → Balanced inner
      → Balanced os
      → Balanced (entered ∷ (inner ++ (left ∷ os)))

module _ {D : Type 0} where
  run-append :
      (os us : List (Operation D)) (table : SymbolTable D)
      → run (os ++ us) table ≡ after (run os table) (run us)
  run-append [] us table = refl
  run-append (o ∷ os) us table = after-append os us (step o table) (run-append os us)
    where
      after-append :
          (os us : List (Operation D)) (t : Option (SymbolTable D))
          → ((u : SymbolTable D) → run (os ++ us) u ≡ after (run os u) (run us))
          → after t (run (os ++ us)) ≡ after (after t (run os)) (run us)
      after-append os us none h = refl
      after-append os us (some t) h = h t

  run-Balanced :
      (os : List (Operation D))
      → Balanced os
      → (scope : Scope D) (table : SymbolTable D)
      → (scope' : Scope D) × (run os (scope ∷ table) ≡ some (scope' ∷ table))
  unfolding push pop bind
  run-Balanced os nothing scope table = (scope, refl)
  run-Balanced _ (declared name decl os b) scope table =
      run-Balanced os b (put name decl scope) table
  run-Balanced _ (nested inner os b b') scope table =
      let (inside, eq) = run-Balanced inner b [] (scope ∷ table) in
      let (behind, eq') = run-Balanced os b' scope table in
      (
        behind,
        run-append inner (left ∷ os) ([] ∷ scope ∷ table)
            ∙ ap (λ t. after t (run (left ∷ os))) eq
            ∙ eq',
      )

  -- A block of declarations and inner blocks, entered by `push` and left by `pop`, never fails and
  -- leaves the table as it found it.
  pub run-block :
      (os : List (Operation D)) (table : SymbolTable D)
      → Balanced os
      → run (entered ∷ (os ++ (left ∷ []))) table ≡ some table
  unfolding push pop
  run-block os table b =
      let (inside, eq) = run-Balanced os b [] table in
      run-append os (left ∷ []) ([] ∷ table) ∙ ap (λ t. after t (run (left ∷ []))) eq
