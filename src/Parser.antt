-- ===== src/Parser.antt =====
-- The grammar of impl/parser.y: its derivations as trees, what each derives, and a parser. The
-- automaton that bison makes of the grammar is not in the model; it accepts what the grammar derives.
pub mod Correct
pub mod Sound
pub mod Actions
pub mod Render
pub mod Printed
pub mod Scanned
pub mod RoundTrip
use operating_system_profoli.Base.{
  ℕ, zero, suc, ◌≡◌, refl, Option, none, some, List, [], ◌∷◌, ◌++◌, Text, length,
}
use operating_system_profoli.Lexer.{
  Output, Pipe, Token, word, command, filename, redirect_in, redirect_to, pipe_to, background,
  semicolon, eoln, yeof,
}

-- `redirect_in` and `redirect_out`.
pub data FileRedirect : Type 0 where
  from_file : Text → FileRedirect
  to_file : Output → Text → FileRedirect

-- `redirect_file`, or nothing: one redirection, or one of each kind.
pub data FileRedirects : Type 0 where
  no_files : FileRedirects
  one_file : FileRedirect → FileRedirects
  in_out : Text → Output → Text → FileRedirects
  out_in : Output → Text → Text → FileRedirects

-- `command`, with its `parameters`, its `redirect_file` and its `redirect_pipe`.
pub data CommandTree : Type 0 where
  last : Text → List Text → FileRedirects → CommandTree
  piped : Text → List Text → FileRedirects → Pipe → CommandTree → CommandTree

pub data Separator : Type 0 where
  in_background and_then : Separator

-- `cmd_seq`
pub data CommandSeq : Type 0 where
  one : CommandTree → CommandSeq
  one_ended : CommandTree → Separator → CommandSeq
  more : CommandTree → Separator → CommandSeq → CommandSeq

-- The tokens that are derived.
abbrev pub words : List Text → List Token
words [] = []
words (w ∷ ws) = word w ∷ words ws

abbrev pub redirect_tokens : FileRedirect → List Token
redirect_tokens (from_file f) = redirect_in ∷ filename f ∷ []
redirect_tokens (to_file o f) = redirect_to o ∷ filename f ∷ []

abbrev pub file_tokens : FileRedirects → List Token
file_tokens no_files = []
file_tokens (one_file r) = redirect_tokens r
file_tokens (in_out f o g) = redirect_in ∷ filename f ∷ redirect_to o ∷ filename g ∷ []
file_tokens (out_in o g f) = redirect_to o ∷ filename g ∷ redirect_in ∷ filename f ∷ []

unfoldable pub command_tokens : CommandTree → List Token
command_tokens (last z ws fs) = command z ∷ (words ws ++ file_tokens fs)
command_tokens (piped z ws fs p t) =
    command z ∷ (words ws ++ (file_tokens fs ++ (pipe_to p ∷ command_tokens t)))

abbrev pub separator_token : Separator → Token
separator_token in_background = background
separator_token and_then = semicolon

unfoldable pub seq_tokens : CommandSeq → List Token
seq_tokens (one t) = command_tokens t
seq_tokens (one_ended t s) = command_tokens t ++ (separator_token s ∷ [])
seq_tokens (more t s q) = command_tokens t ++ (separator_token s ∷ seq_tokens q)

-- The parameters at the front, with what follows.
unfoldable pub read_words : List Token → List Text × List Token
read_words (word w ∷ ts) = let (ws, rest) = read_words ts in (w ∷ ws, rest)
read_words ts = ([], ts)

unfoldable pub read_redirect : List Token → Option (FileRedirect × List Token)
read_redirect (redirect_in ∷ filename f ∷ ts) = some (from_file f, ts)
read_redirect (redirect_to o ∷ filename f ∷ ts) = some (to_file o f, ts)
read_redirect ts = none

-- Two redirections, where they are of different kinds.
abbrev pub pair : FileRedirect → FileRedirect → Option FileRedirects
pair (from_file f) (to_file o g) = some (in_out f o g)
pair (to_file o g) (from_file f) = some (out_in o g f)
pair (from_file f) (from_file g) = none
pair (to_file o f) (to_file q g) = none

-- One redirection was read; a second one of the other kind goes with it.
abbrev pub read_second :
    FileRedirect → List Token → Option (FileRedirect × List Token) → FileRedirects × List Token
read_second r ts none = (one_file r, ts)
read_second r ts (some (r', rest)) = elim (pair r r') [
  | none ↦ (one_file r, ts)
  | some fs ↦ (fs, rest)
]

abbrev pub read_first : List Token → Option (FileRedirect × List Token) → FileRedirects × List Token
read_first ts none = (no_files, ts)
read_first ts (some (r, rest)) = read_second r rest (read_redirect rest)

unfoldable pub read_files : List Token → FileRedirects × List Token
unfolding read_redirect
read_files ts = read_first ts (read_redirect ts)

abbrev pub map_command :
    (CommandTree → CommandTree)
    → Option (CommandTree × List Token)
    → Option (CommandTree × List Token)
map_command f none = none
map_command f (some (t, rest)) = some (f t, rest)

-- Behind the name, the parameters and the files: a pipe with a command, or the end of the command.
abbrev pub read_pipe :
    (List Token → Option (CommandTree × List Token))
    → Text
    → List Text
    → FileRedirects
    → List Token
    → Option (CommandTree × List Token)
read_pipe again z ws fs (pipe_to p ∷ ts) = map_command (piped z ws fs p) (again ts)
read_pipe again z ws fs ts = some (last z ws fs, ts)

-- A command, with what follows; the fuel is for the commands behind the pipes.
unfoldable pub read_command : ℕ → List Token → Option (CommandTree × List Token)
unfolding read_words read_files
read_command zero ts = none
read_command (suc n) (command z ∷ ts) =
    let (ws, behind_words) = read_words ts in
    let (fs, behind_files) = read_files behind_words in
    read_pipe (read_command n) z ws fs behind_files
read_command (suc n) ts = none

abbrev pub map_seq : (CommandSeq → CommandSeq) → Option CommandSeq → Option CommandSeq
map_seq f none = none
map_seq f (some q) = some (f q)

-- Behind a separator: the end, or more commands.
abbrev pub read_more :
    (List Token → Option CommandSeq) → CommandTree → Separator → List Token → Option CommandSeq
read_more again t s [] = some (one_ended t s)
read_more again t s (k ∷ ts) = map_seq (more t s) (again (k ∷ ts))

abbrev pub read_separator :
    (List Token → Option CommandSeq) → CommandTree → List Token → Option CommandSeq
read_separator again t [] = some (one t)
read_separator again t (background ∷ ts) = read_more again t in_background ts
read_separator again t (semicolon ∷ ts) = read_more again t and_then ts
read_separator again t (k ∷ ts) = none

abbrev pub read_rest :
    (List Token → Option CommandSeq) → Option (CommandTree × List Token) → Option CommandSeq
read_rest again none = none
read_rest again (some (t, rest)) = read_separator again t rest

unfoldable pub read_seq : ℕ → List Token → Option CommandSeq
unfolding read_command
read_seq zero ts = none
read_seq (suc n) ts = read_rest (read_seq n) (read_command (suc n) ts)

-- The tokens of a line before its end; each call takes a token, so that this fuel is enough.
unfoldable pub read_line : List Token → Option CommandSeq
unfolding read_seq
read_line ts = read_seq (suc (length ts)) ts
