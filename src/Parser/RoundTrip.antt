-- ===== src/Parser/RoundTrip.antt =====
-- A line that printCommand prints is read back as the same commands.
use operating_system_profoli.Base.{
  ◌≡◌, ◌≢◌, refl, ap, ◌∙◌, Bool, false, Option, none, some, List, [], ◌∷◌, ◌++◌, Text, All,
}
use operating_system_profoli.Command.{Command, next_command}
use operating_system_profoli.Command.Arguments.{◌>>=◌}
use operating_system_profoli.Command.Print.{print_command}
use operating_system_profoli.Lexer.{
  Token, pipe_to, eoln, yeof, Lexeme, token, initial, scan_from, returned,
}
use operating_system_profoli.Parser.{
  from_file, to_file, FileRedirects, no_files, one_file, in_out, out_in, CommandTree, last, piped,
  Separator, in_background, and_then, CommandSeq, one, one_ended, more, words, file_tokens,
  command_tokens, separator_token, seq_tokens,
}
use operating_system_profoli.Parser.Sound.{read_line_iff}
use operating_system_profoli.Parser.Actions.{
  build_seq, build_command, Parsed, attach, split_lines, parse_line, parse_text,
}
use operating_system_profoli.Parser.Render.{render_seq, IsSmallSeq}
use operating_system_profoli.Parser.Printed.{build_seq-print}
use operating_system_profoli.Parser.Scanned.{given, IsPlainSeq, trimmed, scan_seq}

-- A token within a line.
abbrev IsInner : Token → Type 0
IsInner eoln = ⊥
IsInner yeof = ⊥
IsInner k = Unit

All-append : (ks js : List Token) → All IsInner ks → All IsInner js → All IsInner (ks ++ js)
All-append [] js h h' = h'
All-append (k ∷ ks) js h h' = (h.0, All-append ks js h.1 h')

words-IsInner : (ws : List Text) → All IsInner (words ws)
words-IsInner [] = tt
words-IsInner (w ∷ ws) = (tt, words-IsInner ws)

file_tokens-IsInner : (fs : FileRedirects) → All IsInner (file_tokens fs)
file_tokens-IsInner no_files = tt
file_tokens-IsInner (one_file (from_file f)) = (tt, (tt, tt))
file_tokens-IsInner (one_file (to_file o f)) = (tt, (tt, tt))
file_tokens-IsInner (in_out f o g) = (tt, (tt, (tt, (tt, tt))))
file_tokens-IsInner (out_in o g f) = (tt, (tt, (tt, (tt, tt))))

command_tokens-IsInner : (t : CommandTree) → All IsInner (command_tokens t)
unfolding command_tokens
command_tokens-IsInner (last z ws fs) =
    (tt, All-append (words ws) (file_tokens fs) (words-IsInner ws) (file_tokens-IsInner fs))
command_tokens-IsInner (piped z ws fs p t) = (
  tt,
  All-append (words ws) (file_tokens fs ++ (pipe_to p ∷ command_tokens t)) (words-IsInner ws) (
      All-append (file_tokens fs) (pipe_to p ∷ command_tokens t) (file_tokens-IsInner fs)
        (tt, command_tokens-IsInner t)),
)

separator_token-IsInner : (s : Separator) → IsInner (separator_token s)
separator_token-IsInner in_background = tt
separator_token-IsInner and_then = tt

seq_tokens-IsInner : (q : CommandSeq) → All IsInner (seq_tokens q)
unfolding seq_tokens
seq_tokens-IsInner (one t) = command_tokens-IsInner t
seq_tokens-IsInner (one_ended t s) =
    All-append (command_tokens t) (separator_token s ∷ []) (command_tokens-IsInner t)
      (separator_token-IsInner s, tt)
seq_tokens-IsInner (more t s q) =
    All-append (command_tokens t) (separator_token s ∷ seq_tokens q) (command_tokens-IsInner t)
      (separator_token-IsInner s, seq_tokens-IsInner q)

-- One token more in the first line.
split_lines-IsInner :
    (k : Token) (ks : List Token) → IsInner k → split_lines (k ∷ ks) ≡ attach k (split_lines ks)
unfolding split_lines
split_lines-IsInner eoln ks h = absurd h
split_lines-IsInner yeof ks h = absurd h
split_lines-IsInner _ ks h = refl

split_lines-given :
    (ks : List Token) (ls : List Lexeme)
    → All IsInner ks
    → split_lines (returned (given ks (token eoln ∷ ls))) ≡ (ks, false) ∷ split_lines (returned ls)
unfolding split_lines returned
split_lines-given [] ls h = refl
split_lines-given (k ∷ ks) ls h =
    split_lines-IsInner k (returned (given ks (token eoln ∷ ls))) h.0
    ∙ ap (attach k) (split_lines-given ks ls h.1)

-- A `;` at the end of a line makes no difference to the commands.
build_seq-trimmed : (q : CommandSeq) → build_seq (trimmed q) ≡ build_seq q
unfolding build_seq trimmed
build_seq-trimmed (one t) = refl
build_seq-trimmed (one_ended t in_background) = refl
build_seq-trimmed (one_ended t and_then) = whole (build_command t)
  where
    whole : (o : Option Command) → o ≡ (o >>= λ pc. some pc)
    whole none = refl
    whole (some pc) = refl
build_seq-trimmed (more t s q) = rw (build_seq-trimmed q)

seq_tokens-ne_nil : (q : CommandSeq) → [] ≢ seq_tokens q
unfolding seq_tokens command_tokens
seq_tokens-ne_nil (one (last z ws fs)) = λ h. cc
seq_tokens-ne_nil (one (piped z ws fs p t)) = λ h. cc
seq_tokens-ne_nil (one_ended (last z ws fs) s) = λ h. cc
seq_tokens-ne_nil (one_ended (piped z ws fs p t) s) = λ h. cc
seq_tokens-ne_nil (more (last z ws fs) s q) = λ h. cc
seq_tokens-ne_nil (more (piped z ws fs p t) s q) = λ h. cc

-- A derived line is parsed as what its actions build.
parse_line-seq_tokens :
    (q : CommandSeq) (pc : Command) (eof : Bool)
    → build_seq q ≡ some pc
    → parse_line (seq_tokens q, eof)
      ≡ some (record { pc = next_command pc; eof = eof; syntax_error = false })
unfolding parse_line
parse_line-seq_tokens q pc eof e = nonempty (seq_tokens q) refl
  where
    nonempty :
        (ts : List Token)
        → ts ≡ seq_tokens q
        → parse_line (ts, eof)
          ≡ some (record { pc = next_command pc; eof = eof; syntax_error = false })
    nonempty [] h = absurd (seq_tokens-ne_nil q h)
    nonempty (k ∷ ts) h = rw ((read_line_iff (k ∷ ts) q).1 h, e)

-- What nextCommand gives for a line of commands.
abbrev pub parsed : Command → Parsed
parsed pc = record { pc = next_command pc; eof = false; syntax_error = false }

-- A line of plain words, with at most 14 parameters to a command, is built, and printed by
-- printCommand. What is printed, with a newline behind it, is read back as the same commands, and
-- what follows is read as it would be by itself.
pub parse_text-print :
    (q : CommandSeq)
    → IsPlainSeq q
    → IsSmallSeq q
    → (pc : Command) × (text : Text) × (build_seq q ≡ some pc)
      × (print_command pc ≡ some text)
      × ((rest : Text) → parse_text (text ++ (b'\n' ∷ rest)) ≡ some (parsed pc) ∷ parse_text rest)
unfolding parse_text
parse_text-print q plain small =
    let (pc, run, printed) = build_seq-print q small in
    (
      pc,
      render_seq q,
      run,
      printed,
      λ rest. rw (
        scan_seq q rest plain,
        split_lines-given (seq_tokens (trimmed q)) (scan_from 0 initial rest)
            (seq_tokens-IsInner (trimmed q)),
        parse_line-seq_tokens (trimmed q) pc false (build_seq-trimmed q ∙ run),
      ),
    )
