-- ===== src/Sources.antt =====
-- include/cc1/Basic/SourceManager.hpp and lib/Basic/SourceManager.cpp: the files that were added or
-- loaded, by their keys. The file system is a parameter: `key` is the function of that name, which asks
-- for the canonical path, and `read` is what the input stream of `load` gives.
pub mod Lookup
use tensorium_cc.Prelude.{
  Option, none, some, List, [], ◌∷◌, ◌++◌, if◌then◌else◌, Bytes, String, codes, str_eq,
}
use tensorium_cc.Location.{SourceLoc}
use tensorium_cc.Diagnostic.{DiagnosticEngine, error, report, add_source}

pub record SourceFile : Type 0 where
  pub filename : String
  pub content : Bytes

-- A `const SourceFile *`: the key that the file is stored under, and the file.
pub record FilePointer : Type 0 where
  pub identity : String
  pub file : SourceFile

pub record SourceManager : Type 0 where
  pub diagnostics : DiagnosticEngine
  pub files : List FilePointer

-- The stream of `load` can fail to open, or to be read.
pub data Contents : Type 0 where
  unopened unreadable : Contents
  contents : Bytes → Contents

-- `_files.find(identity)`.
unfoldable pub find_file : String → List FilePointer → Option FilePointer
find_file identity [] = none
find_file identity (p ∷ rest) =
    if str_eq p.identity identity then some p else find_file identity rest

-- The file that `add` makes and inserts.
abbrev pub insert_file : FilePointer → SourceManager → SourceManager
insert_file p sources = record {
  diagnostics = add_source p.file.filename p.file.content sources.diagnostics;
  files = p ∷ sources.files;
}

module _ (key : String → String) where
  unfoldable pub add : String → Bytes → SourceManager → FilePointer × SourceManager
  add filename content sources = elim (find_file (key filename) sources.files) [
    | some p ↦ (p, sources)
    | none ↦
        let p : FilePointer = record {
          identity = key filename;
          file = record { filename = filename; content = content };
        } in
        (p, insert_file p sources)
  ]

  -- What `load` does with a file that is not known yet.
  unfoldable pub load_new :
      Contents → String → SourceLoc → SourceManager → Option FilePointer × SourceManager
  load_new unopened filename at sources = (
    none,
    record sources {
      diagnostics =
          report error at (codes "cannot open include file '" ++ codes filename ++ codes "'") 1
            sources.diagnostics;
    },
  )
  load_new unreadable filename at sources = (
    none,
    record sources {
      diagnostics =
          report error at (codes "cannot read include file '" ++ codes filename ++ codes "'") 1
            sources.diagnostics;
    },
  )
  load_new (contents bytes) filename at sources =
      let (p, after) = add filename bytes sources in (some p, after)

  unfoldable pub load :
      (String → Contents) → String → SourceLoc → SourceManager → Option FilePointer × SourceManager
  load read filename at sources = elim (find_file (key filename) sources.files) [
    | some p ↦ (some p, sources)
    | none ↦ load_new (read filename) filename at sources
  ]
