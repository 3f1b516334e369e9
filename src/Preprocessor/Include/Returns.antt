-- ===== src/Preprocessor/Include/Returns.antt =====
-- `include` of lib/Lex/Preprocessor.cpp returns where `process` does.
use tensorium_cc.Prelude.{
  ◌≡◌, true, false, Option, none, some, List, [], ◌∷◌, if_ind, elim_ind, Bytes, String,
}
use tensorium_cc.Location.{SourceLoc}
use tensorium_cc.Diagnostic.{has_errors}
use tensorium_cc.Sources.{SourceFile, FilePointer, SourceManager}
use tensorium_cc.Sources.Lookup.{Loaded, load-Loaded}
use tensorium_cc.Preprocessor.{PpToken}
use tensorium_cc.Preprocessor.State.{
  Macro, State, Setting, Outcome, ok, failed, out_of_range, out_of_fuel, engine,
}
use tensorium_cc.Preprocessor.Ends.{Ends, Ends-bind, Returns}
use tensorium_cc.Preprocessor.Define.{is, is_empty}
use tensorium_cc.Preprocessor.Define.Valid.{WellFormed, refusal-WellFormed}
use tensorium_cc.Preprocessor.Expand.{expand}
use tensorium_cc.Preprocessor.Expand.Solid.{AllSolid, Yields}
use tensorium_cc.Preprocessor.Expand.Solid.Loop.{expand-Solid}
use tensorium_cc.Preprocessor.Condition.Returns.{expand-Returns}
use tensorium_cc.Preprocessor.Include.{
  names_file, is_computed, Header, header, no_header, beyond, marked, up_to_close, bracketed,
  header_of, process_loaded, load_found, include_header, include,
}

abbrev Within : Header → Type 0
Within beyond = ⊥
Within _ = Unit

marked-Within : (text : Bytes) → is_empty text ≡ false → Within (marked text)
unfolding marked
marked-Within [] h = cc
marked-Within (c ∷ text) h = _

bracketed-Within : (o : Option Bytes) → Within (bracketed o)
bracketed-Within none = _
bracketed-Within (some text) = _

header_of-Within : (ts : List PpToken) → AllSolid ts → Within (header_of ts)
unfolding header_of
header_of-Within [] h = _
header_of-Within (t ∷ []) h = if_ind Within (names_file t) (λ _. marked-Within t.text h.0) (λ _. _)
header_of-Within (t ∷ u ∷ []) h = _
header_of-Within (t ∷ u ∷ v ∷ ts) h =
    if_ind Within (is t "<") (λ _. bracketed-Within (up_to_close true (u ∷ v ∷ ts))) (λ _. _)

-- A run that returns, with tokens that have a text.
both :
    (macros : List (Bytes × Macro)) (m : Outcome (List PpToken))
    → Returns WellFormed m
    → Yields macros AllSolid m
    → Ends (λ ts q. WellFormed q × AllSolid ts) (λ q. WellFormed q × has_errors (engine q) ≡ true) m
both macros (ok ts q) h k = (h, k.0)
both macros (failed q) h k = h
both macros out_of_range h k = h
both macros out_of_fuel h k = h

module _ (set : Setting) (process : FilePointer → SourceLoc → State → Outcome Unit)
    (processes : (file : FilePointer) (at : SourceLoc) (q : State)
      → WellFormed q
      → Returns WellFormed (process file at q)) where
  process_loaded-Returns :
      (loc : SourceLoc) (p : State) (r : Option FilePointer × SourceManager)
      → WellFormed p
      → Loaded r
      → Returns WellFormed (process_loaded set process loc p r)
  unfolding process_loaded
  process_loaded-Returns loc p (none, sources) w l = (w, l)
  process_loaded-Returns loc p (some file, sources) w l = processes file loc _ w

  load_found-Returns :
      (loc : SourceLoc) (name : Bytes) (o : Option String) (p : State)
      → WellFormed p
      → Returns WellFormed (load_found set process loc name o p)
  unfolding load_found
  load_found-Returns loc name none p w = refusal-WellFormed loc _ p w
  load_found-Returns loc name (some path) p w =
      process_loaded-Returns loc p _ w
        (load-Loaded set.system.key set.system.read path loc p.sources)

  include_header-Returns :
      (file : SourceFile) (loc : SourceLoc) (h : Header) (p : State)
      → Within h
      → WellFormed p
      → Returns WellFormed (include_header set process file loc h p)
  unfolding include_header
  include_header-Returns file loc beyond p h w = absurd h
  include_header-Returns file loc no_header p h w = refusal-WellFormed loc _ p w
  include_header-Returns file loc (header quoted name) p h w =
      if_ind (Returns WellFormed) (is_empty name) (λ _. refusal-WellFormed loc _ p w)
        (λ _. load_found-Returns loc name _ p w)

  pub include-Returns :
      (file : SourceFile) (ts : List PpToken) (loc : SourceLoc) (p : State)
      → AllSolid ts
      → WellFormed p
      → Returns WellFormed (include set process file ts loc p)
  unfolding include
  include-Returns file ts loc p h w =
      elim_ind (Returns WellFormed) (is_computed ts)
        (λ _.
          Ends-bind (λ us q. WellFormed q × AllSolid us) (λ _ q. WellFormed q)
            (λ q. WellFormed q × has_errors (engine q) ≡ true) (expand set ts p) _
            (both p.macros (expand set ts p) (expand-Returns set ts p w)
              (expand-Solid set ts p w h))
            (λ us q (w', s).
              include_header-Returns file loc (header_of us) q (header_of-Within us s) w'))
        (λ _. include_header-Returns file loc (header_of ts) p (header_of-Within ts h) w)
