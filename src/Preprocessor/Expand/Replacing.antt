-- ===== src/Preprocessor/Expand/Replacing.antt =====
-- One replacement of `expand` (lib/Lex/Preprocessor.cpp) returns.
use tensorium_cc.Prelude.{
  suc, ◌||◌, ap, ◌≡◌, refl, sym, ◌∙◌, Bool, true, false, Option, none, some, List, [], ◌∷◌, ◌++◌,
  if◌then◌else◌, if_ind, elim_ind, Bool-cases, inl, inr, length, Bytes, arith,
}
use mathlib.Core.Bool.{true≢false}
use mathlib.Core.Path.{subst}
use tensorium_cc.Preprocessor.Tokenize.Within.{scan_input-is_within}
use tensorium_cc.Location.{SourceLoc}
use tensorium_cc.Diagnostic.{has_errors}
use tensorium_cc.Preprocessor.{PpToken}
use tensorium_cc.Preprocessor.State.{Macro, State, Setting, Outcome, ok, ◌>>=◌, engine}
use tensorium_cc.Preprocessor.Define.{is, is_empty, first_is}
use tensorium_cc.Preprocessor.Define.Valid.{ValidMacro, AllFit}
use tensorium_cc.Preprocessor.Predefined.{spelling}
use tensorium_cc.Preprocessor.Expand.{replace, tail, invoke, invoke_closed, Invocation}
use tensorium_cc.Preprocessor.Expand.Arguments.{
  Collected, closed, unclosed, no_arguments, check_arguments,
}
use tensorium_cc.Preprocessor.Expand.Substitute.{Part, substitute}
use tensorium_cc.Preprocessor.Expand.Paste.{
  repeat, fragment, begins_comment, reads_within, scan_fragment, joined, join_parts, paste_from,
  paste_all, reverse_onto, is_pasted,
}
use tensorium_cc.Preprocessor.Ends.{Ends, Ends-bind, Ends-weaken}
use tensorium_cc.Preprocessor.Expand.Ends.{
  Grown, Broken, report_at-Broken, Grown-refl, Grown-trans, OneMore, collect-OneMore, Matches,
  check_arguments-Matches,
}
use tensorium_cc.Preprocessor.Expand.Substituting.{substitute-Good}
use tensorium_cc.Preprocessor.Expand.Joinable.{
  Place, start, behind_part, behind_hashes, Joinable, Parameters-Identifiers,
}

-- A run that returns and keeps what it must.
abbrev pub Keeps : {A : Type 0} → State → Outcome A → Type 0
Keeps p m = Ends (λ _ q. Grown p q) (Broken p) m

pub Keeps-from : {A : Type 0} (p q : State) (m : Outcome A) → Grown p q → Keeps q m → Keeps p m
Keeps-from p q m g h =
    Ends-weaken (λ _ r. Grown q r) (λ _ r. Grown p r) (Broken q) (Broken p) m h
      (λ _ r. Grown-trans p q r g) (λ r (h', e). (Grown-trans p q r g h', e))

pub Keeps-bind :
    {A B : Type 0} (p : State) (m : Outcome A) (f : A → State → Outcome B)
    → Keeps p m
    → ((a : A) (q : State) → Grown p q → Keeps q (f a q))
    → Keeps p (m >>= f)
Keeps-bind p m f h k =
    Ends-bind (λ _ q. Grown p q) (λ _ q. Grown p q) (Broken p) m f h
      (λ a q g. Keeps-from p q (f a q) g (k a q g))

scan_fragment-Grown :
    (allow : Bool) (at : SourceLoc) (text : Bytes) (p : State)
    → Grown p (scan_fragment allow at text p).1
unfolding scan_fragment
scan_fragment-Grown allow at text p =
    if_ind (λ (r : List PpToken × State). Grown p r.1) _ (λ _. Grown-refl p) (λ _. Grown-refl p)

repeat-length : (at : SourceLoc) (text : Bytes) → length (repeat at text) ≡ length text
repeat-length at [] = refl
repeat-length at (c ∷ text) = ap suc (repeat-length at text)

reads_within_always :
    (allow : Bool) (at : SourceLoc) (text : Bytes) → reads_within allow at text ≡ true
unfolding reads_within
reads_within_always allow at text =
    let count = repeat-length at text in
    or_right (begins_comment text) _
      (scan_input-is_within allow (fragment at text) (omega (arith, count)))
  where
    or_right : (a b : Bool) → b ≡ true → (a || b) ≡ true
    or_right true b h = refl
    or_right false b h = h

joined-Grown :
    (at context : SourceLoc) (left right : Part) (text : Bytes) (o : Option PpToken) (p q : State)
    → Grown p q
    → Keeps p (joined at context left right text o q)
unfolding joined
joined-Grown at context left right text none p q g = report_at-Broken p q at _ g
joined-Grown at context left right text (some t) p q g = g

join_parts-Grown :
    (allow : Bool) (at context : SourceLoc) (left right : Part) (p : State)
    → Keeps p (join_parts allow at context left right p)
unfolding join_parts
join_parts-Grown allow at context left right p =
    let P = Keeps p in
    if_ind P left.empty (λ _. Grown-refl p)
      λ _.
        if_ind P right.empty (λ _. Grown-refl p)
          λ _.
            let scan = scan_fragment allow at (spelling left.token ++ spelling right.token) p in
            let g = scan_fragment-Grown allow at (spelling left.token ++ spelling right.token) p in
            let text = spelling left.token ++ spelling right.token in
            elim_ind P (reads_within allow at text)
              (λ _.
                if_ind P (has_errors (engine scan.1)) (λ e. (g, e))
                  (λ _. joined-Grown at context left right text (is_pasted scan.0) p scan.1 g))
              (λ e. true≢false (sym (reads_within_always allow at text) ∙ e))

Joinable-hashes :
    (place : Place) (part : Part) (parts : List Part)
    → Joinable place (part ∷ parts)
    → part.paste ≡ true
    → place ≡ behind_part × Joinable behind_hashes parts
Joinable-hashes start part parts h e = absurd (true≢false (sym e ∙ h.0))
Joinable-hashes behind_part part parts h e =
    (refl, subst (λ b. Joinable (if b then behind_hashes else behind_part) parts) e h)
Joinable-hashes behind_hashes part parts h e = absurd (true≢false (sym e ∙ h.0))

Joinable-part :
    (place : Place) (part : Part) (parts : List Part)
    → Joinable place (part ∷ parts)
    → part.paste ≡ false
    → Joinable behind_part parts
Joinable-part start part parts h e = h.1
Joinable-part behind_part part parts h e =
    subst (λ b. Joinable (if b then behind_hashes else behind_part) parts) e h
Joinable-part behind_hashes part parts h e = h.1

module _ (allow : Bool) (at context : SourceLoc) where
  paste_from-Keeps :
      (parts pasted : List Part) (place : Place) (p : State)
      → Joinable place parts
      → (place ≡ behind_part → is_empty pasted ≡ false)
      → Keeps p (paste_from allow at context pasted parts p)
  unfolding paste_from
  paste_from-Keeps [] pasted place p h filled = Grown-refl p
  paste_from-Keeps (part ∷ []) pasted place p h filled =
      elim_ind (Keeps p) part.paste (λ e. (Joinable-hashes place part [] h e).1) (λ e. Grown-refl p)
  paste_from-Keeps (part ∷ right ∷ rest) [] place p h filled =
      let parts = right ∷ rest in
      elim_ind (Keeps p) part.paste
        (λ e. true≢false (filled (Joinable-hashes place part parts h e).0))
        (λ e.
          paste_from-Keeps (right ∷ rest) (part ∷ []) behind_part p
            (Joinable-part place part parts h e) (λ _. refl))
  paste_from-Keeps (part ∷ right ∷ rest) (left ∷ pasted) place p h filled =
      let parts = right ∷ rest in
      elim_ind (Keeps p) part.paste
        (λ e.
          let (plain_right, more) = (Joinable-hashes place part parts h e).1 in
          Keeps-bind p (join_parts allow at context left right p)
            (λ made q. paste_from allow at context (made ∷ pasted) rest q)
            (join_parts-Grown allow at context left right p)
            (λ made q g. paste_from-Keeps rest (made ∷ pasted) behind_part q more (λ _. refl)))
        (λ e.
          paste_from-Keeps (right ∷ rest) (part ∷ left ∷ pasted) behind_part p
            (Joinable-part place part parts h e) (λ _. refl))

  paste_all-Keeps :
      (parts : List Part) (p : State)
      → Joinable start parts
      → Keeps p (paste_all allow at context parts p)
  unfolding paste_all
  paste_all-Keeps parts p h =
      Keeps-bind p (paste_from allow at context [] parts p)
        (λ pasted q. ok (reverse_onto pasted []) q)
        (paste_from-Keeps parts [] start p h (λ e. ground (arith, e))) (λ pasted q g. Grown-refl q)

-- The arguments of an invocation fit the macro.
abbrev Called : Macro → State → Invocation → State → Type 0
Called macro p call q =
    Grown p q × (macro.function_like ≡ true → length call.arguments ≡ length macro.parameters)

invoke_closed-Called :
    (macro : Macro) (t : PpToken) (c : Collected) (p : State)
    → ValidMacro macro
    → OneMore c
    → Ends (Called macro p) (Broken p) (invoke_closed macro t c p)
unfolding invoke_closed
invoke_closed-Called macro t unclosed p v h = report_at-Broken p p t.loc _ (Grown-refl p)
invoke_closed-Called macro t (closed arguments commas end rest) p v h =
    Ends-bind (Matches macro p) (Called macro p) (Broken p)
      (check_arguments macro t (no_arguments macro arguments) commas p) _
      (check_arguments-Matches macro t arguments commas p v h) (λ values q m. (m.1, λ _. m.0))

invoke-Called :
    (macro : Macro) (t : PpToken) (rest : List PpToken) (p : State)
    → ValidMacro macro
    → Ends (Called macro p) (Broken p) (invoke macro t rest p)
unfolding invoke
invoke-Called macro t rest p v =
    if_ind (Ends (Called macro p) (Broken p)) macro.function_like
      (λ _. invoke_closed-Called macro t _ p v (collect-OneMore 0 [] (tail rest)))
      (λ e. (Grown-refl p, λ f. absurd (true≢false (sym f ∙ e))))

Ready-first : (macro : Macro) (ts : List PpToken) → AllFit macro none ts → first_is ts "##" ≡ false
Ready-first macro [] fits = refl
Ready-first macro (t ∷ ts) (fit, fits) = elim (Bool-cases (is t "##")) [
  | inl e ↦ absurd (true≢false (fit.pastes e).0)
  | inr e ↦ e
]

pub replace-Keeps :
    (set : Setting) (nested : List PpToken → State → Outcome (List PpToken)) (macro : Macro)
    (t : PpToken) (rest : List PpToken) (p : State)
    → ValidMacro macro
    → ((input : List PpToken) (q : State) → Grown p q → Keeps q (nested input q))
    → Keeps p (replace set nested macro t rest p)
unfolding replace
replace-Keeps set nested macro t rest p v n =
    Ends-bind (Called macro p) (λ _ r. Grown p r) (Broken p) (invoke macro t rest p) _
      (invoke-Called macro t rest p v)
      λ call q (g, count).
        Ends-bind (λ parts r. Joinable start parts × Grown p r) (λ _ r. Grown p r) (Broken p)
          (substitute nested macro t.loc call.context call.arguments false false macro.replacement
            [] q)
          _
          (substitute-Good nested macro t.loc call.context call.arguments p
            (λ input s g. Keeps-from p s (nested input s) g (n input s g))
            (Parameters-Identifiers macro.variadic macro.parameters v.named) count macro.replacement
            false false start none [] q v.fits v.lexed
            (refl, Ready-first macro macro.replacement v.fits) g)
          λ parts r (h, g'). Keeps-from p r _ g' (
            Keeps-bind r (paste_all set.options.allow_line_comments t.loc call.context parts r) _
              (paste_all-Keeps set.options.allow_line_comments t.loc call.context parts r h)
              (λ pasted s _. Grown-refl s))
