-- ===== src/Tests/Preprocessing.antt =====
-- Runs of lib/Lex/Preprocessor.cpp.
use tensorium_cc.Prelude.{
  ◌≡◌, refl, same_bytes, true, false, [], ◌∷◌, Option, some, none, String, Bytes, codes,
}
use tensorium_cc.LangOptions.{for_c99}
use tensorium_cc.Sources.{FilePointer, SourceManager, contents}
use tensorium_cc.Preprocessor.State.{System, Setting, State, Outcome, ok}
use tensorium_cc.Tests.Lexing.{whole_stod}
use tensorium_cc.Diagnostic.{
  line_starts_from, put_source, add_source, new_engine, report, has_errors,
}
use tensorium_cc.Preprocessor.Conditionals.{open_frame, elif_frame, else_frame}
use tensorium_cc.Preprocessor.Define.{
  parameter, parse_parameters, close_parameters, macro_head, check_replacement, same_names,
  same_replacement, same_macro, store_macro, define_checked, define_head, define,
}
use tensorium_cc.Preprocessor.Expand.{
  add_name, add_names, replacement_of, put_back, invoke_closed, invoke, replace, round_of_macro,
  round, expand_from, expand,
}
use tensorium_cc.Preprocessor.Expand.Arguments.{
  collect, intersect, join_variable, merge_variable, check_arguments,
}
use tensorium_cc.Preprocessor.Expand.Paste.{
  reads_within, scan_fragment, joined, join_parts, paste_from, paste_all,
}
use tensorium_cc.Preprocessor.Expand.Substitute.{
  index_of, parameter_index, action, find_prepared, insert_argument, prepare, value_of, substitute,
}
use tensorium_cc.Preprocessor.Include.{
  marked, up_to_close, header_of, inside_each, candidates, first_regular, process_loaded,
  load_found, include_header, include,
}
use tensorium_cc.Preprocessor.Normalize.{is_crlf, splice_width, normalize_from, normalize}
use tensorium_cc.Preprocessor.Output.{
  next, check_end, convert, join_strings, next_token, text_from, text,
}
use tensorium_cc.Preprocessor.Predefined.{
  quote_rest, quote, escape_literal, stringify_from, stringify, predefined,
}
use tensorium_cc.Preprocessor.Process.{
  lines_from, flush, selected_name, selected, next_branch, undef, error_message, holds, command,
  continued, perform, after_hash, process_lines, close_file, process_tokens, process_file, process,
  ran, run,
}
use tensorium_cc.Preprocessor.Scan.{
  run_of, comment_rest, header_rest, quoted_rest, number_rest, punctuators, starts_with,
  punctuator_width, contains, punctuation, token_at, piece,
}
use tensorium_cc.Preprocessor.Setup.{date_text, time_text, new_setting, new_state}
use tensorium_cc.Preprocessor.State.{
  report_at, find_macro, put_macro, erase_macro, member, is_predefined, is_defined,
}
use tensorium_cc.Preprocessor.Tokenize.{
  canonical, scanned_token, after_include, tokenize_from, scan_input, tokenize_input,
}
use tensorium_cc.Sources.{find_file, add, load_new, load}
use tensorium_cc.Lexer.Bytes.{is_space, is_digit, is_alpha, is_alnum, is_ident, is_ident_start}
use tensorium_cc.Diagnostic.Render.{to_string, decimal_over}

-- A file system with one file.
abbrev pub system : String → System
system other = record {
  beside = λ file name. "b.h";
  inside = λ directory name. "b.h";
  is_regular_file = λ path. true;
  read = λ path. contents (codes other);
  key = λ path. path;
  stod = whole_stod;
}

abbrev pub main_file : String → FilePointer
main_file source = record {
  identity = "a.c";
  file = record { filename = "a.c"; content = codes source };
}

abbrev pub set_of : String → String → Setting
set_of source other = new_setting (main_file source) for_c99 [] none (system other)

abbrev pub sources_of : String → SourceManager
sources_of source = record {
  diagnostics = new_engine false "a.c" (codes source);
  files = main_file source ∷ [];
}

abbrev pub start_of : String → String → State
start_of source other = new_state (set_of source other) (sources_of source)

-- What `text` gives, without the state.
abbrev outcome : Outcome Bytes → Option Bytes
outcome (ok b p) = some b
outcome _ = none

text_of : String → String → Option Bytes
unfolding line_starts_from put_source add_source new_engine report has_errors open_frame elif_frame
    else_frame parameter parse_parameters close_parameters macro_head check_replacement same_names
    same_replacement same_macro store_macro define_checked define_head define add_name add_names
    replacement_of put_back invoke_closed invoke replace round_of_macro round expand_from expand
    collect intersect join_variable merge_variable check_arguments reads_within scan_fragment joined
    join_parts paste_from paste_all index_of parameter_index action find_prepared insert_argument
    prepare value_of substitute marked up_to_close header_of inside_each candidates first_regular
    process_loaded load_found include_header include is_crlf splice_width normalize_from normalize
    next check_end convert join_strings next_token text_from text quote_rest quote escape_literal
    stringify_from stringify predefined lines_from flush selected_name selected next_branch undef
    error_message holds command continued perform after_hash process_lines close_file process_tokens
    process_file process ran run run_of comment_rest header_rest quoted_rest number_rest punctuators
    starts_with punctuator_width contains punctuation token_at piece date_text time_text new_setting
    new_state report_at find_macro put_macro erase_macro member is_predefined is_defined canonical
    scanned_token after_include tokenize_from scan_input tokenize_input find_file add load_new load
    is_space is_digit is_alpha is_alnum is_ident is_ident_start to_string decimal_over same_bytes
text_of source other = outcome (text (set_of source other) (start_of source other))

macros_and_files :
    text_of
      "#define F(x, y) x ## y #x\nF(a, b)\n#ifdef F\n__LINE__\n#else\nno\n#endif\n#include \"b.h\"\nG , r)\n"
      "#define G F(q\n"
    ≡ some (codes "ab \"a\"\n4\nqr \"q\"\n")
unfolding text_of
macros_and_files = refl

self_reference : text_of "#define f(x) x + f\nf(f(1))(2)\n" "" ≡ some (codes "1 + f + f ( 2 )\n")
unfolding text_of
self_reference = refl

once : text_of "#include \"b.h\"\n#include \"b.h\"\n" "#pragma once\nx\n" ≡ some (codes "x\n")
unfolding text_of
once = refl
