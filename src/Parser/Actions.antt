-- ===== src/Parser/Actions.antt =====
-- The actions of impl/parser.y, which build the commands of a line, and nextCommand of
-- impl/command.c. The actions that run before a syntax error is met are not in the model: what they
-- build is dropped, and a fault of theirs is not seen.
use operating_system_profoli.Base.{
  Bool, true, false, Option, none, some, List, [], ◌∷◌, map, Text, ◌==◌, if◌then◌else◌,
}
use operating_system_profoli.Command.{
  Args, Command, Commands, no_command, next_command, Redirects, no_redirect, FileType, PipeType,
}
use operating_system_profoli.Command.Arguments.{◌>>=◌, create_arguments, set_argument, append_all}
use operating_system_profoli.Command.Build.{
  create_command, Target, create_redirect, append_command, append_redirect,
}
use operating_system_profoli.Lexer.{
  Output, out, error, append, append_error, Pipe, pipe, pipe_error, Token, eoln, yeof, scan,
  returned,
}
use operating_system_profoli.Parser.{
  FileRedirect, from_file, to_file, FileRedirects, no_files, one_file, in_out, out_in, CommandTree,
  last, piped, Separator, in_background, and_then, CommandSeq, one, one_ended, more, read_line,
}

-- `strrchr(z, '/')`: what stands behind the last slash, if there is one.
unfoldable pub behind_slash : Text → Option Text
behind_slash [] = none
behind_slash (c ∷ t) = elim (behind_slash t) [
  | some u ↦ some u
  | none ↦ (if c == b'/' then some t else none)
]

abbrev pub short_name : Text → Text
short_name z = elim (behind_slash z) [ some u ↦ u | none ↦ z ]

abbrev pub file_type : Output → FileType
file_type out = FileType.redirect_out
file_type error = FileType.redirect_error
file_type append = FileType.append
file_type append_error = FileType.append_error

abbrev pub pipe_type : Pipe → PipeType
pipe_type pipe = PipeType.pipe
pipe_type pipe_error = PipeType.pipe_error

-- The actions of `redirect_in` and `redirect_out`.
unfoldable pub build_redirect : FileRedirect → Redirects
unfolding create_redirect
build_redirect (from_file f) = create_redirect (Target.to_file FileType.redirect_in f) no_redirect
build_redirect (to_file o f) = create_redirect (Target.to_file (file_type o) f) no_redirect

-- The actions of `redirect_file`, with NULL where there is none.
unfoldable pub build_files : FileRedirects → Option Redirects
unfolding build_redirect append_redirect
build_files no_files = some no_redirect
build_files (one_file r) = some (build_redirect r)
build_files (in_out f o g) =
    append_redirect (build_redirect (from_file f)) (build_redirect (to_file o g))
build_files (out_in o g f) =
    append_redirect (build_redirect (to_file o g)) (build_redirect (from_file f))

-- The actions of `redirect` where there is a pipe: alone, or behind the files.
unfoldable pub build_piped : FileRedirects → Redirects → Option Redirects
unfolding build_files append_redirect
build_piped no_files p = some p
build_piped (one_file r) p = append_redirect (build_redirect r) p
build_piped (in_out f o g) p = do files ← build_files (in_out f o g); append_redirect files p
build_piped (out_in o g f) p = do files ← build_files (out_in o g f); append_redirect files p

-- The parameters, and then the short name in front of them.
unfoldable pub build_arguments : Text → List Text → Option Args
build_arguments z ws = do
  pa ← append_all create_arguments ws
  set_argument pa 0 (some (short_name z))

-- The action of `command`.
unfoldable pub build_command : CommandTree → Option Command
unfolding build_piped build_arguments
build_command (last z ws fs) = do
  pa ← build_arguments z ws
  files ← build_files fs
  some (create_command z pa false files no_command)
build_command (piped z ws fs p t) = do
  pa ← build_arguments z ws
  pc ← build_command t
  files ← build_piped fs (create_redirect (Target.to_command (pipe_type p) pc) no_redirect)
  some (create_command z pa false files no_command)

-- `if ($2 == BACKGROUND) $1->fBackground = 1;`
abbrev pub set_background : Separator → Command → Command
set_background in_background (Command.command z b a r n) = Command.command z true a r n
set_background and_then pc = pc

-- The actions of `cmd_seq`.
unfoldable pub build_seq : CommandSeq → Option Command
unfolding append_command
build_seq (one t) = build_command t
build_seq (one_ended t s) = do pc ← build_command t; some (set_background s pc)
build_seq (more t s q) = do
  pc ← build_command t
  rest ← build_seq q
  some (set_background s (append_command pc rest))

-- What a call of nextCommand leaves: its result, `*eof`, and whether "syntax error" was printed.
pub record Parsed : Type 0 where
  pub pc : Commands
  pub eof : Bool
  pub syntax_error : Bool

-- The tokens of each line, with whether the line ended at the end of file.
abbrev pub attach : Token → List (List Token × Bool) → List (List Token × Bool)
attach k [] = (k ∷ [], true) ∷ []
attach k ((ts, e) ∷ ls) = (k ∷ ts, e) ∷ ls

unfoldable pub split_lines : List Token → List (List Token × Bool)
split_lines [] = []
split_lines (eoln ∷ ts) = ([], false) ∷ split_lines ts
split_lines (yeof ∷ ts) = ([], true) ∷ split_lines ts
split_lines (k ∷ ts) = attach k (split_lines ts)

-- The actions of `cmd_line`: a line of commands, and one that is not derived and is dropped to its
-- end.
abbrev pub accept : Bool → Option CommandSeq → Option Parsed
accept eof none = some (record { pc = no_command; eof = eof; syntax_error = true })
accept eof (some q) = do
  pc ← build_seq q
  some (record { pc = next_command pc; eof = eof; syntax_error = false })

-- nextCommand on one line; `none` is a write outside a block.
unfoldable pub parse_line : List Token × Bool → Option Parsed
unfolding build_seq
parse_line ([], eof) = some (record { pc = no_command; eof = eof; syntax_error = false })
parse_line (k ∷ ts, eof) = accept eof (read_line (k ∷ ts))

-- What the calls of nextCommand give on an input, one for each line.
unfoldable pub parse_text : Text → List (Option Parsed)
unfolding scan returned split_lines parse_line
parse_text t = map parse_line (split_lines (returned (scan t)))
