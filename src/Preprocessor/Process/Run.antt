-- ===== src/Preprocessor/Process/Run.antt =====
-- `process` and `run` of lib/Lex/Preprocessor.cpp return.
use tensorium_cc.Prelude.{
  ◌∙◌, sym, ℕ, zero, suc, ◌≡◌, refl, Bool, true, not, ◌&&◌, List, [], ◌∷◌, if_ind, elim_ind,
}
use tensorium_cc.Location.{SourceLoc}
use tensorium_cc.Diagnostic.{DiagnosticEngine, has_errors}
use tensorium_cc.Sources.{FilePointer}
use tensorium_cc.Preprocessor.{PpToken}
use tensorium_cc.Preprocessor.Normalize.{normalize}
use tensorium_cc.Preprocessor.Tokenize.{is_within, scan_input, tokenize_input}
use tensorium_cc.Preprocessor.Tokenize.Within.{normalize-is_within}
use mathlib.Core.Bool.{true≢false}
use tensorium_cc.Preprocessor.Tokenize.Lexed.{tokenize_input-AllLexed}
use tensorium_cc.Preprocessor.State.{
  State, Setting, Outcome, ok, failed, out_of_range, out_of_fuel, engine, with_engine,
}
use tensorium_cc.Preprocessor.Ends.{Ends, Ends-bind, Returns}
use tensorium_cc.Preprocessor.Define.{is}
use tensorium_cc.Preprocessor.Define.Valid.{WellFormed, AllLexed, refusal-WellFormed}
use tensorium_cc.Preprocessor.Define.WellFormed.{define-WellFormed}
use tensorium_cc.Preprocessor.Expand.Solid.{AllLexed-AllSolid}
use tensorium_cc.Preprocessor.Conditionals.{Conditional, is_active, open_frame}
use tensorium_cc.Preprocessor.Conditionals.Nested.{Nested, open_frame-Nested}
use tensorium_cc.Preprocessor.Include.Returns.{include-Returns}
use tensorium_cc.Preprocessor.Process.{
  lines_from, flush, one_name, is_once, command, opens, continues, continued, perform, after_hash,
  process_lines, close_file, process_tokens, visit, process_file, is_done, process, ran, no_errors,
  run,
}
use tensorium_cc.Preprocessor.Process.Returns.{
  LinesLexed, lines_from-Lexed, flush-Returns, selected-Returns, Keeps, Keeps-bind,
  next_branch-Keeps, undef-Returns,
}

module _ (set : Setting) (deeper : FilePointer → SourceLoc → State → Outcome Unit)
    (deeper-Returns : (file : FilePointer) (at : SourceLoc) (q : State)
      → WellFormed q
      → Returns WellFormed (deeper file at q)) where
  command-Returns :
      (file : FilePointer) (directive : PpToken) (args : List PpToken) (loc : SourceLoc) (p : State)
      → AllLexed args
      → WellFormed p
      → Returns WellFormed (command set deeper file directive args loc p)
  unfolding command
  command-Returns file directive args loc p l w =
      let P = Returns WellFormed in
      if_ind P (is directive "define") (λ _. define-WellFormed set.options args loc p l w)
        λ _.
          if_ind P (is directive "undef") (λ _. undef-Returns set.options loc (one_name args) p w)
            λ _.
              if_ind P (is directive "include")
                (λ _.
                  include-Returns set deeper deeper-Returns file.file args loc p
                    (AllLexed-AllSolid args l) w)
                λ _.
                  if_ind P (is directive "pragma" && is_once args) (λ _. w)
                    λ _.
                      if_ind P (is directive "error") (λ _. refusal-WellFormed loc _ p w)
                        (λ _. refusal-WellFormed loc _ p w)

  continued-Keeps :
      (directive : PpToken) (args : List PpToken) (loc : SourceLoc) (stack : List Conditional)
      (p : State)
      → Nested stack
      → WellFormed p
      → Keeps (continued set deeper directive args loc stack p)
  unfolding continued
  continued-Keeps directive args loc [] p h w = refusal-WellFormed loc _ p w
  continued-Keeps directive args loc (frame ∷ outer) p h w =
      next_branch-Keeps set directive args loc frame outer p h w

  -- A directive returns, false only with an error in the engine. If it returns true, the stack of
  -- conditionals is nested as before: each is active only inside an active one, and a branch that is
  -- active is taken.
  pub perform-Nested :
      (file : FilePointer) (directive : PpToken) (args : List PpToken) (loc : SourceLoc)
      (stack : List Conditional) (p : State)
      → AllLexed args
      → Nested stack
      → WellFormed p
      → Ends
          (λ after q. Nested after × WellFormed q)
          (λ q. WellFormed q × has_errors (engine q) ≡ true)
          (perform set deeper file directive args loc stack p)
  unfolding perform
  perform-Nested file directive args loc stack p l h w =
      if_ind Keeps (opens set deeper directive)
        (λ _.
          Keeps-bind _ (λ chosen q. ok (open_frame (is_active stack) chosen loc ∷ stack) q)
            (selected-Returns set directive args loc (is_active stack) p w)
            (λ chosen q w'. (open_frame-Nested stack chosen loc h, w')))
        λ _.
          if_ind Keeps (continues set deeper directive)
            (λ _. continued-Keeps directive args loc stack p h w)
            λ _.
              if_ind Keeps (not (is_active stack)) (λ _. (h, w))
                (λ _.
                  Keeps-bind _ (λ _ q. ok stack q) (command-Returns file directive args loc p l w)
                    (λ _ q w'. (h, w')))

  after_hash-Keeps :
      (file : FilePointer) (line : List PpToken) (loc : SourceLoc) (stack : List Conditional)
      (p : State)
      → AllLexed line
      → Nested stack
      → WellFormed p
      → Keeps (after_hash set deeper file line loc stack p)
  unfolding after_hash
  after_hash-Keeps file [] loc stack p l h w = (h, w)
  after_hash-Keeps file (directive ∷ args) loc stack p l h w =
      perform-Nested file directive args loc stack p l.1 h w

  process_lines-Keeps :
      (file : FilePointer) (lines : List (List PpToken)) (stack : List Conditional)
      (pending : List PpToken) (p : State)
      → LinesLexed lines
      → Nested stack
      → WellFormed p
      → Keeps (process_lines set deeper file lines stack pending p)
  unfolding process_lines
  process_lines-Keeps file [] stack pending p l h w =
      Keeps-bind (flush set pending p) (λ _ q. ok stack q) (flush-Returns set pending p w)
        (λ _ q w'. (h, w'))
  process_lines-Keeps file ([] ∷ lines) stack pending p l h w =
      process_lines-Keeps file lines stack pending p l.1 h w
  process_lines-Keeps file ((first ∷ line) ∷ lines) stack pending p l h w =
      elim_ind Keeps (is first "#")
        (λ _. Keeps-bind (flush set pending p) _ (flush-Returns set pending p w) λ _ q w'.
          Ends-bind (λ after r. Nested after × WellFormed r)
            (λ after r. Nested after × WellFormed r)
            (λ r. WellFormed r × has_errors (engine r) ≡ true)
            (after_hash set deeper file line first.loc stack q) _
            (after_hash-Keeps file line first.loc stack q l.0.1 h w')
            (λ after r (h', w''). process_lines-Keeps file lines after [] r l.1 h' w''))
        (λ _. process_lines-Keeps file lines stack _ p l.1 h w)

  close_file-Returns :
      (stack : List Conditional) (p : State)
      → WellFormed p
      → Returns WellFormed (close_file set deeper stack p)
  unfolding close_file
  close_file-Returns [] p w = w
  close_file-Returns (frame ∷ outer) p w = refusal-WellFormed frame.loc _ p w

  process_tokens-Returns :
      (file : FilePointer) (ts : List PpToken) (d : DiagnosticEngine) (p : State)
      → AllLexed ts
      → WellFormed p
      → Returns WellFormed (process_tokens set deeper file (ts, d) p)
  unfolding process_tokens
  process_tokens-Returns file ts d p l w =
      if_ind (Returns WellFormed) (has_errors d) (λ e. (w, e))
        (λ _.
          Ends-bind (λ after q. Nested after × WellFormed q) (λ _ q. WellFormed q)
            (λ q. WellFormed q × has_errors (engine q) ≡ true)
            (process_lines set deeper file (lines_from [] ts) [] [] (with_engine d p)) _
            (process_lines-Keeps file (lines_from [] ts) [] [] (with_engine d p)
              (lines_from-Lexed [] ts _ l) _ w)
            (λ after q (h, w'). close_file-Returns after q w'))

  process_file-Returns :
      (file : FilePointer) (p : State)
      → WellFormed p
      → Returns WellFormed (process_file set deeper file p)
  unfolding process_file
  process_file-Returns file p w =
      let input = normalize file.file in
      let q = visit set deeper file input p in
      let scan = tokenize_input set.options.allow_line_comments input (engine q) in
      let within = normalize-is_within set.options.allow_line_comments file.file in
      elim_ind (Returns WellFormed) (is_within (scan_input set.options.allow_line_comments input))
        (λ _.
          process_tokens-Returns file scan.0 scan.1 q
            (tokenize_input-AllLexed set.options.allow_line_comments input (engine q)) w)
        (λ e. true≢false (sym within ∙ e))

-- Whatever files the system holds, and however they include one another, `process` comes to an end
-- without reading out of range, at any depth below its limit. It returns false only with an error in
-- the engine, and leaves the macros well formed.
pub process-Returns :
    (set : Setting) (levels : ℕ) (file : FilePointer) (at : SourceLoc) (p : State)
    → WellFormed p
    → Ends
        (λ _ q. WellFormed q)
        (λ q. WellFormed q × has_errors (engine q) ≡ true)
        (process set levels file at p)
unfolding process
process-Returns set zero file at p w =
    elim_ind (Returns WellFormed) (is_done file p) (λ _. w) (λ _. refusal-WellFormed at _ p w)
process-Returns set (suc levels) file at p w =
    elim_ind (Returns WellFormed) (is_done file p) (λ _. w)
      (λ _. process_file-Returns set (process set levels) (process-Returns set levels) file p w)

-- What `run` promises of its result.
abbrev Reports : Outcome Bool → Type 0
Reports m = Ends (λ success q. success ≡ not (has_errors (engine q))) (λ q. ⊥) m

ran-Reports : (m : Outcome Unit) → Returns WellFormed m → Reports (no_errors (ran m))
unfolding ran
ran-Reports (ok a p) h = refl
ran-Reports (failed p) h = refl
ran-Reports out_of_range h = h
ran-Reports out_of_fuel h = h

-- `run` comes to an end on every main file, with true just if the engine has no error. From the state
-- that the constructor makes, or any other with well-formed macros, it neither reads out of range nor
-- runs out of fuel.
pub run-Reports :
    (set : Setting) (p : State)
    → WellFormed p
    → Ends (λ success q. success ≡ not (has_errors (engine q))) (λ q. ⊥) (run set p)
unfolding run
run-Reports set p w =
    elim_ind Reports p.ran (λ _. refl)
      (λ _. ran-Reports _ (process-Returns set 64 set.main p.end (record p { ran = true }) w))
