-- ===== src/Sources/Lookup.antt =====
-- A file that `load` of lib/Basic/SourceManager.cpp has given stays the same object.
use tensorium_cc.Prelude.{
  ◌≡◌, refl, sym, ap, true, Option, none, some, Option-cases, inl, inr, Bool-cases, str_eq, Bytes,
  String, eq_iff, ◌∙◌, arith,
}
use tensorium_cc.Location.{SourceLoc}
use tensorium_cc.Diagnostic.{DiagnosticEngine, report, has_errors}
use tensorium_cc.Sources.{
  FilePointer, SourceManager, Contents, unopened, unreadable, contents, find_file, insert_file, add,
  load_new, load,
}

find_file-insert_file :
    (p : FilePointer) (s : SourceManager) → find_file p.identity (insert_file p s).files ≡ some p
unfolding find_file
find_file-insert_file p s = rw ((eq_iff p.identity p.identity).1 refl) refl

module _ (key : String → String) where
  -- What `load` gives stands in the files behind it.
  abbrev Stands : String → Option FilePointer × SourceManager → Type 0
  Stands filename (p, after) =
      (q : FilePointer) → p ≡ some q → find_file (key filename) after.files ≡ some q

  add-Stands :
      (filename : String) (content : Bytes) (s : SourceManager) (o : Option FilePointer)
      → find_file (key filename) s.files ≡ o
      → find_file (key filename) (add key filename content s).1.files
        ≡ some (add key filename content s).0
  unfolding add
  add-Stands filename content s none e =
      rw (add, e)
        (find_file-insert_file
          (record {
            identity = key filename;
            file = record { filename = filename; content = content };
          })
          s)
  add-Stands filename content s (some p) e = rw (add, e) e

  load_new-Stands :
      (read : Contents) (filename : String) (at : SourceLoc) (s : SourceManager)
      → Stands filename (load_new key read filename at s)
  unfolding load_new
  load_new-Stands unopened filename at s q e = ground arith
  load_new-Stands unreadable filename at s q e = ground arith
  load_new-Stands (contents bytes) filename at s q e =
      add-Stands filename bytes s (find_file (key filename) s.files) refl ∙ e

  load-Stands :
      (read : String → Contents) (filename : String) (at : SourceLoc) (s : SourceManager)
      (o : Option FilePointer)
      → find_file (key filename) s.files ≡ o
      → Stands filename (load key read filename at s)
  unfolding load
  load-Stands read filename at s none e =
      rw (load, e) (load_new-Stands (read filename) filename at s)
  load-Stands read filename at s (some p) e = rw (load, e) (λ q h. e ∙ h)

  load_known :
      (read : String → Contents) (filename : String) (at : SourceLoc) (s : SourceManager)
      (p : FilePointer)
      → find_file (key filename) s.files ≡ some p
      → load key read filename at s ≡ (some p, s)
  unfolding load
  load_known read filename at s p e = rw (load, e) refl

  -- What becomes of a manager: files are added and loaded, and others report to its engine.
  pub data Later (s : SourceManager) : SourceManager → Type 0 where
    now : Later s s
    after_add :
        {t : SourceManager} (filename : String) (content : Bytes)
        → Later s t
        → Later s (add key filename content t).1
    after_load :
        {t : SourceManager} (read : String → Contents) (filename : String) (at : SourceLoc)
        → Later s t
        → Later s (load key read filename at t).1
    after_report :
        {t : SourceManager} (engine : DiagnosticEngine)
        → Later s t
        → Later s (record t { diagnostics = engine })

  -- The file with a key stays in the files.
  abbrev Keeps : String → FilePointer → SourceManager → Type 0
  Keeps k p s = find_file k s.files ≡ some p

  insert_file-Keeps :
      (k : String) (p q : FilePointer) (s : SourceManager)
      → find_file q.identity s.files ≡ none
      → Keeps k p s
      → Keeps k p (insert_file q s)
  unfolding find_file
  insert_file-Keeps k p q s missing h = elim (Bool-cases (str_eq q.identity k)) [
    | inl e ↦
        let same : q.identity ≡ k = (eq_iff q.identity k).0 e in
        let none_there : find_file k s.files ≡ none = rw (sym same) missing in cc (h, none_there)
    | inr e ↦ rw e h
  ]

  add-Keeps :
      (k : String) (p : FilePointer) (filename : String) (content : Bytes) (s : SourceManager)
      → Keeps k p s
      → Keeps k p (add key filename content s).1
  unfolding add
  add-Keeps k p filename content s h = elim (Option-cases (find_file (key filename) s.files)) [
    | inl e ↦ rw (add, e) (insert_file-Keeps k p _ s e h)
    | inr (q, e) ↦ rw (add, e) h
  ]

  load_new-Keeps :
      (k : String) (p : FilePointer) (read : Contents) (filename : String) (at : SourceLoc)
      (s : SourceManager)
      → Keeps k p s
      → Keeps k p (load_new key read filename at s).1
  unfolding load_new
  load_new-Keeps k p unopened filename at s h = h
  load_new-Keeps k p unreadable filename at s h = h
  load_new-Keeps k p (contents bytes) filename at s h = add-Keeps k p filename bytes s h

  load-Keeps :
      (k : String) (p : FilePointer) (read : String → Contents) (filename : String) (at : SourceLoc)
      (s : SourceManager)
      → Keeps k p s
      → Keeps k p (load key read filename at s).1
  unfolding load
  load-Keeps k p read filename at s h = elim (Option-cases (find_file (key filename) s.files)) [
    | inl e ↦ rw (load, e) (load_new-Keeps k p (read filename) filename at s h)
    | inr (q, e) ↦ rw (load, e) h
  ]

  Later-Keeps :
      (k : String) (p : FilePointer) (s t : SourceManager) → Later s t → Keeps k p s → Keeps k p t
  Later-Keeps k p s _ now h = h
  Later-Keeps k p s _ (after_add {t} filename content l) h =
      add-Keeps k p filename content t (Later-Keeps k p s t l h)
  Later-Keeps k p s _ (after_load {t} read filename at l) h =
      load-Keeps k p read filename at t (Later-Keeps k p s t l h)
  Later-Keeps k p s _ (after_report {t} engine l) h = Later-Keeps k p s t l h

  -- Where `load` gives a file, every later `load` of a name with the same key gives the same object,
  -- and neither reads nor reports anything, whatever files were added or loaded and whatever was
  -- reported in between, and whatever the file system holds by then.
  pub load-load :
      (read read' : String → Contents) (filename other : String) (at at' : SourceLoc)
      (s later : SourceManager) (p : FilePointer)
      → (load key read filename at s).0 ≡ some p
      → Later (load key read filename at s).1 later
      → key other ≡ key filename
      → load key read' other at' later ≡ (some p, later)
  load-load read read' filename other at at' s later p h between same =
      let found : find_file (key filename) (load key read filename at s).1.files ≡ some p =
        load-Stands read filename at s (find_file (key filename) s.files) refl p h in
      load_known read' other at' later p (
        ap (λ k. find_file k later.files) same
        ∙ Later-Keeps (key filename) p (load key read filename at s).1 later between found)

-- A `load` that gives no file has reported an error.
abbrev pub Loaded : Option FilePointer × SourceManager → Type 0
Loaded (none, after) = has_errors after.diagnostics ≡ true
Loaded (some p, after) = Unit

module _ (key : String → String) where
  load_new-Loaded :
      (read : Contents) (filename : String) (at : SourceLoc) (s : SourceManager)
      → Loaded (load_new key read filename at s)
  unfolding load_new report has_errors
  load_new-Loaded unopened filename at s = ground arith
  load_new-Loaded unreadable filename at s = ground arith
  load_new-Loaded (contents bytes) filename at s = _

  found-Loaded :
      (read : String → Contents) (filename : String) (at : SourceLoc) (s : SourceManager)
      (o : Option FilePointer)
      → find_file (key filename) s.files ≡ o
      → Loaded (load key read filename at s)
  unfolding load
  found-Loaded read filename at s none e =
      rw (load, e) (load_new-Loaded (read filename) filename at s)
  found-Loaded read filename at s (some p) e = rw (load, e) _

  pub load-Loaded :
      (read : String → Contents) (filename : String) (at : SourceLoc) (s : SourceManager)
      → Loaded (load key read filename at s)
  load-Loaded read filename at s =
      found-Loaded read filename at s (find_file (key filename) s.files) refl
