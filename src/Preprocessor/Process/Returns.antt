-- ===== src/Preprocessor/Process/Returns.antt =====
-- The directives of lib/Lex/Preprocessor.cpp return.
use tensorium_cc.Prelude.{
  ◌≡◌, Bool, true, false, not, Option, none, some, List, [], ◌∷◌, ◌++◌, if_ind,
}
use tensorium_cc.Location.{SourceLoc}
use tensorium_cc.Diagnostic.{has_errors}
use tensorium_cc.LangOptions.{LangOptions}
use tensorium_cc.Preprocessor.{PpToken, PpTokenKind}
use tensorium_cc.Preprocessor.State.{State, Setting, Outcome, ok, ◌>>=◌, engine, is_predefined}
use tensorium_cc.Preprocessor.Ends.{Ends, Ends-bind, Returns}
use tensorium_cc.Preprocessor.Define.{is, is_empty}
use tensorium_cc.Preprocessor.Define.Valid.{
  WellFormed, AllLexed, Lexed, refusal-WellFormed, ValidMacros-erase_macro,
}
use tensorium_cc.Preprocessor.Expand.{expand}
use tensorium_cc.Preprocessor.Conditionals.{Conditional, wants_condition, elif_frame}
use tensorium_cc.Preprocessor.Conditionals.Nested.{Nested, elif_frame-Nested, else_frame-Nested}
use tensorium_cc.Preprocessor.Condition.{condition}
use tensorium_cc.Preprocessor.Condition.Returns.{expand-Returns, condition-Returns}
use tensorium_cc.Preprocessor.Process.{
  lines_from, flush, one_name, selected_name, selected, next_branch, undef,
}

pub Returns-bind :
    {A B : Type 0} (m : Outcome A) (f : A → State → Outcome B)
    → Returns WellFormed m
    → ((a : A) (q : State) → WellFormed q → Returns WellFormed (f a q))
    → Returns WellFormed (m >>= f)
Returns-bind m f h k =
    Ends-bind (λ _ q. WellFormed q) (λ _ q. WellFormed q)
      (λ q. WellFormed q × has_errors (engine q) ≡ true) m f h k

-- Lines of tokens of the scanner.
abbrev pub LinesLexed : List (List PpToken) → Type 0
LinesLexed [] = Unit
LinesLexed (line ∷ lines) = AllLexed line × LinesLexed lines

AllLexed-snoc :
    (ts : List PpToken) (t : PpToken) → AllLexed ts → Lexed t → AllLexed (ts ++ (t ∷ []))
AllLexed-snoc [] t h k = (k, _)
AllLexed-snoc (u ∷ ts) t h k = (h.0, AllLexed-snoc ts t h.1 k)

split-Lexed :
    (kind : PpTokenKind) (ended more : List (List PpToken))
    → LinesLexed ended
    → LinesLexed more
    → LinesLexed (elim kind [ PpTokenKind.newline ↦ ended | _ ↦ more ])
split-Lexed PpTokenKind.newline ended more h k = h
split-Lexed PpTokenKind.identifier ended more h k = k
split-Lexed PpTokenKind.number ended more h k = k
split-Lexed PpTokenKind.string ended more h k = k
split-Lexed PpTokenKind.character ended more h k = k
split-Lexed PpTokenKind.header ended more h k = k
split-Lexed PpTokenKind.punct ended more h k = k
split-Lexed PpTokenKind.other ended more h k = k

pub lines_from-Lexed :
    (line ts : List PpToken) → AllLexed line → AllLexed ts → LinesLexed (lines_from line ts)
unfolding lines_from
lines_from-Lexed line [] h k = (h, _)
lines_from-Lexed line (t ∷ ts) h k =
    split-Lexed t.kind _ _ (h, lines_from-Lexed [] ts _ k.1)
      (lines_from-Lexed (line ++ (t ∷ [])) ts (AllLexed-snoc line t h k.0) k.1)

pub flush-Returns :
    (set : Setting) (pending : List PpToken) (p : State)
    → WellFormed p
    → Returns WellFormed (flush set pending p)
unfolding flush
flush-Returns set pending p w =
    Returns-bind (expand set pending p) _ (expand-Returns set pending p w) (λ ts q w'. w')

selected_name-Returns :
    (set : Setting) (directive : PpToken) (loc : SourceLoc) (o : Option PpToken) (p : State)
    → WellFormed p
    → Returns WellFormed (selected_name set directive loc o p)
unfolding selected_name
selected_name-Returns set directive loc none p w = refusal-WellFormed loc _ p w
selected_name-Returns set directive loc (some t) p w = w

-- A condition that is computed only where it is wanted.
wanted-Returns :
    (set : Setting) (args : List PpToken) (loc : SourceLoc) (b : Bool) (p : State)
    → WellFormed p
    → Returns WellFormed (elim b [ true ↦ condition set args loc p | false ↦ ok false p ])
wanted-Returns set args loc true p w = condition-Returns set args loc p w
wanted-Returns set args loc false p w = w

pub selected-Returns :
    (set : Setting) (directive : PpToken) (args : List PpToken) (loc : SourceLoc) (active : Bool)
    (p : State)
    → WellFormed p
    → Returns WellFormed (selected set directive args loc active p)
unfolding selected
selected-Returns set directive args loc active p w =
    if_ind (Returns WellFormed) (not (is directive "if"))
      (λ _. selected_name-Returns set directive loc (one_name args) p w)
      (λ _. wanted-Returns set args loc active p w)

-- A directive that returns with a stack that is nested.
abbrev pub Keeps : Outcome (List Conditional) → Type 0
Keeps m =
    Ends (λ stack q. Nested stack × WellFormed q) (λ q. WellFormed q × has_errors (engine q) ≡ true)
      m

pub Keeps-bind :
    {A : Type 0} (m : Outcome A) (f : A → State → Outcome (List Conditional))
    → Returns WellFormed m
    → ((a : A) (q : State) → WellFormed q → Keeps (f a q))
    → Keeps (m >>= f)
Keeps-bind m f h k =
    Ends-bind (λ _ q. WellFormed q) (λ stack q. Nested stack × WellFormed q)
      (λ q. WellFormed q × has_errors (engine q) ≡ true) m f h k

pub next_branch-Keeps :
    (set : Setting) (directive : PpToken) (args : List PpToken) (loc : SourceLoc)
    (frame : Conditional) (outer : List Conditional) (p : State)
    → Nested (frame ∷ outer)
    → WellFormed p
    → Keeps (next_branch set directive args loc frame outer p)
unfolding next_branch
next_branch-Keeps set directive args loc frame outer p h w =
    if_ind Keeps (is directive "elif")
      (λ _.
        if_ind Keeps frame.seen_else (λ _. refusal-WellFormed loc _ p w)
          (λ _.
            Keeps-bind _ (λ chosen q. ok (elif_frame chosen frame ∷ outer) q)
              (wanted-Returns set args loc (wants_condition frame) p w)
              (λ chosen q w'. (elif_frame-Nested frame outer chosen h, w'))))
      λ _.
        if_ind Keeps (not (is_empty args)) (λ _. refusal-WellFormed loc _ p w)
          λ _.
            if_ind Keeps (is directive "endif") (λ _. (h.1, w))
              λ _.
                if_ind Keeps frame.seen_else (λ _. refusal-WellFormed loc _ p w)
                  (λ _. (else_frame-Nested frame outer h, w))

pub undef-Returns :
    (options : LangOptions) (loc : SourceLoc) (o : Option PpToken) (p : State)
    → WellFormed p
    → Returns WellFormed (undef options loc o p)
unfolding undef
undef-Returns options loc none p w = refusal-WellFormed loc _ p w
undef-Returns options loc (some t) p w =
    if_ind (Returns WellFormed) (is_predefined options t.text) (λ _. refusal-WellFormed t.loc _ p w)
      (λ _. ValidMacros-erase_macro t.text p.macros w)
