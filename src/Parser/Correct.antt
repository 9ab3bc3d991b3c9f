-- ===== src/Parser/Correct.antt =====
-- The parser accepts exactly what the grammar derives.
use mathlib.Core.List.{append_assoc, append-nil}
use operating_system_profoli.Base.{
  ℕ, zero, suc, ◌≤◌, ◌<◌, ◌≡◌, refl, Option, none, some, List, [], ◌∷◌, ◌++◌, Text, length,
  length-append, arith,
}
use operating_system_profoli.Lexer.{
  Token, word, command, filename, redirect_in, redirect_to, pipe_to, background, semicolon,
  logical_and, logical_or, eoln, yeof,
}
use operating_system_profoli.Parser.{
  from_file, to_file, FileRedirects, no_files, one_file, in_out, out_in, CommandTree, last, piped,
  Separator, in_background, and_then, CommandSeq, one, one_ended, more, words, file_tokens,
  command_tokens, separator_token, seq_tokens, read_words, read_redirect, read_files, read_pipe,
  read_command, map_seq, read_more, read_separator, read_seq,
}

-- What may stand behind a command: the end, or a separator.
abbrev Ends : List Token → Type 0
Ends [] = Unit {0}
Ends (background ∷ ts) = Unit
Ends (semicolon ∷ ts) = Unit
Ends (k ∷ ts) = ⊥

-- What may stand behind the files of a command: an end, or a pipe.
abbrev EndsFiles : List Token → Type 0
EndsFiles (pipe_to p ∷ ts) = Unit
EndsFiles ts = Ends ts

-- What may stand behind the parameters: no parameter.
abbrev EndsWords : List Token → Type 0
EndsWords (word w ∷ ts) = ⊥
EndsWords ts = Unit

read_words-words :
    (ws : List Text) (ts : List Token) → EndsWords ts → read_words (words ws ++ ts) ≡ (ws, ts)
unfolding read_words
read_words-words [] [] h = refl
read_words-words [] (word w ∷ ts) h = absurd h
read_words-words [] (command z ∷ ts) h = refl
read_words-words [] (filename z ∷ ts) h = refl
read_words-words [] (redirect_in ∷ ts) h = refl
read_words-words [] (redirect_to o ∷ ts) h = refl
read_words-words [] (pipe_to p ∷ ts) h = refl
read_words-words [] (background ∷ ts) h = refl
read_words-words [] (semicolon ∷ ts) h = refl
read_words-words [] (logical_and ∷ ts) h = refl
read_words-words [] (logical_or ∷ ts) h = refl
read_words-words [] (eoln ∷ ts) h = refl
read_words-words [] (yeof ∷ ts) h = refl
read_words-words (w ∷ ws) ts h = rw (read_words-words ws ts h)

Ends-EndsFiles : (ts : List Token) → Ends ts → EndsFiles ts
Ends-EndsFiles [] h = tt
Ends-EndsFiles (background ∷ ts) h = tt
Ends-EndsFiles (semicolon ∷ ts) h = tt
Ends-EndsFiles (_ ∷ ts) h = absurd h

-- Where a command's files end there is no redirection.
read_redirect-none : (ts : List Token) → EndsFiles ts → read_redirect ts ≡ none
unfolding read_redirect
read_redirect-none [] h = refl
read_redirect-none (pipe_to p ∷ ts) h = refl
read_redirect-none (background ∷ ts) h = refl
read_redirect-none (semicolon ∷ ts) h = refl
read_redirect-none (_ ∷ ts) h = absurd h

read_files-file_tokens :
    (fs : FileRedirects) (ts : List Token)
    → EndsFiles ts
    → read_files (file_tokens fs ++ ts) ≡ (fs, ts)
unfolding read_files
read_files-file_tokens no_files ts h = rw (read_redirect-none ts h)
read_files-file_tokens (one_file (from_file f)) ts h = rw (read_redirect-none ts h)
read_files-file_tokens (one_file (to_file o f)) ts h = rw (read_redirect-none ts h)
read_files-file_tokens (in_out f o g) ts h = refl
read_files-file_tokens (out_in o g f) ts h = refl

EndsWords-files :
    (fs : FileRedirects) (ts : List Token) → EndsFiles ts → EndsWords (file_tokens fs ++ ts)
EndsWords-files no_files [] h = tt
EndsWords-files no_files (pipe_to p ∷ ts) h = tt
EndsWords-files no_files (background ∷ ts) h = tt
EndsWords-files no_files (semicolon ∷ ts) h = tt
EndsWords-files no_files (_ ∷ ts) h = absurd h
EndsWords-files (one_file (from_file f)) ts h = tt
EndsWords-files (one_file (to_file o f)) ts h = tt
EndsWords-files (in_out f o g) ts h = tt
EndsWords-files (out_in o g f) ts h = tt

read_pipe-last :
    (again : List Token → Option (CommandTree × List Token)) (z : Text) (ws : List Text)
    (fs : FileRedirects) (ts : List Token)
    → Ends ts
    → read_pipe again z ws fs ts ≡ some (last z ws fs, ts)
read_pipe-last again z ws fs [] h = refl
read_pipe-last again z ws fs (background ∷ ts) h = refl
read_pipe-last again z ws fs (semicolon ∷ ts) h = refl
read_pipe-last again z ws fs (_ ∷ ts) h = absurd h

-- The parser reads a derived command off the front.
read_command-command_tokens :
    (t : CommandTree) (n : ℕ) (ts : List Token)
    → length (command_tokens t) ≤ n
    → Ends ts
    → read_command n (command_tokens t ++ ts) ≡ some (t, ts)
unfolding read_command command_tokens
read_command-command_tokens (last z ws fs) zero ts small h = absurd (omega arith)
read_command-command_tokens (piped z ws fs p t) zero ts small h = absurd (omega arith)
read_command-command_tokens (last z ws fs) (suc n) ts small h =
    rw
      (
        append_assoc (words ws) (file_tokens fs) ts,
        read_words-words ws (file_tokens fs ++ ts) (EndsWords-files fs ts (Ends-EndsFiles ts h)),
        read_files-file_tokens fs ts (Ends-EndsFiles ts h),
      )
      (read_pipe-last (read_command n) z ws fs ts h)
read_command-command_tokens (piped z ws fs p t) (suc n) ts small h = rw (
  append_assoc (words ws) (file_tokens fs ++ (pipe_to p ∷ command_tokens t)) ts,
  append_assoc (file_tokens fs) (pipe_to p ∷ command_tokens t) ts,
  read_words-words ws (file_tokens fs ++ (pipe_to p ∷ (command_tokens t ++ ts)))
      (EndsWords-files fs (pipe_to p ∷ (command_tokens t ++ ts)) tt),
  read_files-file_tokens fs (pipe_to p ∷ (command_tokens t ++ ts)) tt,
  read_command-command_tokens t n ts
      (omega (
        arith,
        length-append (words ws) (file_tokens fs ++ (pipe_to p ∷ command_tokens t)),
        length-append (file_tokens fs) (pipe_to p ∷ command_tokens t),
      ))
      h,
)

read_more-seq_tokens :
    (again : List Token → Option CommandSeq) (t : CommandTree) (s : Separator) (q : CommandSeq)
    → read_more again t s (seq_tokens q) ≡ map_seq (more t s) (again (seq_tokens q))
unfolding seq_tokens command_tokens
read_more-seq_tokens again t s (one (last z ws fs)) = refl
read_more-seq_tokens again t s (one (piped z ws fs p u)) = refl
read_more-seq_tokens again t s (one_ended (last z ws fs) s') = refl
read_more-seq_tokens again t s (one_ended (piped z ws fs p u) s') = refl
read_more-seq_tokens again t s (more (last z ws fs) s' q) = refl
read_more-seq_tokens again t s (more (piped z ws fs p u) s' q) = refl

-- Behind a separator, whatever it is.
read_separator-separator_token :
    (again : List Token → Option CommandSeq) (t : CommandTree) (s : Separator) (ts : List Token)
    → read_separator again t (separator_token s ∷ ts) ≡ read_more again t s ts
read_separator-separator_token again t in_background ts = refl
read_separator-separator_token again t and_then ts = refl

Ends-separator : (s : Separator) (ts : List Token) → Ends (separator_token s ∷ ts)
Ends-separator in_background ts = tt
Ends-separator and_then ts = tt

pub read_seq-seq_tokens :
    (q : CommandSeq) (n : ℕ) → length (seq_tokens q) < n → read_seq n (seq_tokens q) ≡ some q
unfolding read_seq seq_tokens
read_seq-seq_tokens q zero small = absurd (omega arith)
read_seq-seq_tokens (one t) (suc n) small =
    rw (rw append-nil at (read_command-command_tokens t (suc n) [] (omega arith) tt))
read_seq-seq_tokens (one_ended t s) (suc n) small =
    rw
      (read_command-command_tokens t (suc n) (separator_token s ∷ [])
        (omega (arith, length-append (command_tokens t) (separator_token s ∷ [])))
        (Ends-separator s []))
      (read_separator-separator_token (read_seq n) t s [])
read_seq-seq_tokens (more t s q) (suc n) small = rw (
  read_command-command_tokens t (suc n) (separator_token s ∷ seq_tokens q)
      (omega (arith, length-append (command_tokens t) (separator_token s ∷ seq_tokens q)))
      (Ends-separator s (seq_tokens q)),
  read_separator-separator_token (read_seq n) t s (seq_tokens q),
  read_more-seq_tokens (read_seq n) t s q,
  read_seq-seq_tokens q n
      (omega (arith, length-append (command_tokens t) (separator_token s ∷ seq_tokens q))),
)
