-- ===== src/Preprocessor/Setup.antt =====
-- The constructor of class Preprocessor (lib/Lex/Preprocessor.cpp).
use tensorium_cc.Prelude.{
  ℕ, ◌+◌, false, Option, none, some, List, [], ◌∷◌, ◌++◌, ltb, if◌then◌else◌, get_or, Bytes, String,
  codes,
}
use tensorium_cc.LangOptions.{LangOptions}
use tensorium_cc.Diagnostic.Render.{to_string}
use tensorium_cc.Sources.{FilePointer, SourceManager}
use tensorium_cc.Preprocessor.Normalize.{file_start}
use tensorium_cc.Preprocessor.State.{System, Setting, State}

-- What `std::localtime` gives, for a year from 1900 on.
pub record LocalTime : Type 0 where
  pub tm_sec : ℕ
  pub tm_min : ℕ
  pub tm_hour : ℕ
  pub tm_mday : ℕ
  pub tm_mon : ℕ
  pub tm_year : ℕ

abbrev months : List String
months =
    "Jan" ∷ "Feb" ∷ "Mar" ∷ "Apr" ∷ "May" ∷ "Jun" ∷ "Jul" ∷ "Aug" ∷ "Sep" ∷ "Oct" ∷ "Nov" ∷ "Dec"
    ∷ []

-- `%2d`, `%02d` and, for a year, `%04d`, of a number that is not too long.
abbrev padded : ℕ → ℕ → Bytes
padded mark n = if ltb n 10 then mark ∷ to_string n else to_string n

unfoldable pub date_text : Option LocalTime → Bytes
date_text none = codes "??? ?? ????"
date_text (some tm) =
    codes (get_or months tm.tm_mon "")
    ++ codes " "
    ++ padded b' ' tm.tm_mday
    ++ codes " "
    ++ to_string (tm.tm_year + 1900)

unfoldable pub time_text : Option LocalTime → Bytes
time_text none = codes "??:??:??"
time_text (some tm) =
    padded b'0' tm.tm_hour
    ++ codes ":"
    ++ padded b'0' tm.tm_min
    ++ codes ":"
    ++ padded b'0' tm.tm_sec

unfoldable pub new_setting :
    FilePointer → LangOptions → List Bytes → Option LocalTime → System → Setting
new_setting main options include_dirs local system = record {
  main = main;
  options = options;
  include_dirs = include_dirs;
  date = date_text local;
  time = time_text local;
  system = system;
}

unfoldable pub new_state : Setting → SourceManager → State
new_state set sources = record {
  sources = sources;
  macros = [];
  once = [];
  visited = [];
  output = [];
  end = file_start set.main.file;
  cursor = 0;
  expansions = 0;
  ran = false;
}
