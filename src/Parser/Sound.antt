-- ===== src/Parser/Sound.antt =====
-- What the parser accepts is derived by the grammar.
use mathlib.Core.Path.{subst}
use mathlib.Core.List.{append_assoc, append-nil}
use operating_system_profoli.Base.{
  ℕ, zero, suc, ◌≡◌, ◌↔◌, refl, sym, ap, ◌∙◌, Option, none, some, List, [], ◌∷◌, ◌++◌, Text, length,
  arith,
}
use operating_system_profoli.Lexer.{
  Pipe, Token, word, command, filename, redirect_in, redirect_to, pipe_to, background, semicolon,
}
use operating_system_profoli.Parser.{
  FileRedirect, from_file, to_file, FileRedirects, CommandTree, piped, Separator, in_background,
  and_then, CommandSeq, more, words, redirect_tokens, file_tokens, command_tokens, separator_token,
  seq_tokens, read_words, read_redirect, read_second, read_first, read_files, map_command,
  read_pipe, read_command, map_seq, read_more, read_separator, read_rest, read_seq, read_line,
}
use operating_system_profoli.Parser.Correct.{read_seq-seq_tokens}

read_words_sound : (ts : List Token) → ts ≡ words (read_words ts).0 ++ (read_words ts).1
unfolding read_words
read_words_sound [] = refl
read_words_sound (word w ∷ ts) = ap (λ r. word w ∷ r) (read_words_sound ts)
read_words_sound (_ ∷ ts) = refl

-- What was read is what it derives, and the rest.
abbrev IsRedirect : List Token → Option (FileRedirect × List Token) → Type 0
IsRedirect ts none = Unit
IsRedirect ts (some (r, rest)) = ts ≡ redirect_tokens r ++ rest

abbrev IsCommand : List Token → Option (CommandTree × List Token) → Type 0
IsCommand ts none = Unit
IsCommand ts (some (t, rest)) = ts ≡ command_tokens t ++ rest

abbrev IsSeq : List Token → Option CommandSeq → Type 0
IsSeq ts none = Unit
IsSeq ts (some q) = ts ≡ seq_tokens q

read_redirect_sound : (ts : List Token) → IsRedirect ts (read_redirect ts)
unfolding read_redirect
read_redirect_sound (redirect_in ∷ filename f ∷ ts) = refl
read_redirect_sound (redirect_to o ∷ filename f ∷ ts) = refl
read_redirect_sound _ = tt

read_second_sound :
    (r : FileRedirect) (ts : List Token) (o : Option (FileRedirect × List Token))
    → IsRedirect ts o
    → redirect_tokens r ++ ts ≡ file_tokens (read_second r ts o).0 ++ (read_second r ts o).1
read_second_sound r ts none h = refl
read_second_sound (from_file f) ts (some (from_file g, rest)) h = refl
read_second_sound (from_file f) ts (some (to_file o g, rest)) h =
    ap (λ u. redirect_in ∷ filename f ∷ u) h
read_second_sound (to_file o g) ts (some (from_file f, rest)) h =
    ap (λ u. redirect_to o ∷ filename g ∷ u) h
read_second_sound (to_file o f) ts (some (to_file q g, rest)) h = refl

read_first_sound :
    (ts : List Token) (o : Option (FileRedirect × List Token))
    → IsRedirect ts o
    → ts ≡ file_tokens (read_first ts o).0 ++ (read_first ts o).1
read_first_sound ts none h = refl
read_first_sound ts (some (r, rest)) h =
    h ∙ read_second_sound r rest (read_redirect rest) (read_redirect_sound rest)

read_files_sound : (ts : List Token) → ts ≡ file_tokens (read_files ts).0 ++ (read_files ts).1
unfolding read_files
read_files_sound ts = read_first_sound ts (read_redirect ts) (read_redirect_sound ts)

map_command_sound :
    (z : Text) (ws : List Text) (fs : FileRedirects) (p : Pipe) (ts front : List Token)
    (o : Option (CommandTree × List Token))
    → IsCommand ts o
    → front ≡ words ws ++ (file_tokens fs ++ (pipe_to p ∷ ts))
    → IsCommand (command z ∷ front) (map_command (piped z ws fs p) o)
unfolding command_tokens
map_command_sound z ws fs p ts front none h e = tt
map_command_sound z ws fs p ts front (some (t, rest)) h e =
    ap (λ u. command z ∷ u)
      (e
        ∙ rw (
          h,
          append_assoc (words ws) (file_tokens fs ++ (pipe_to p ∷ command_tokens t)) rest,
          append_assoc (file_tokens fs) (pipe_to p ∷ command_tokens t) rest,
        ))

read_pipe_sound :
    (again : List Token → Option (CommandTree × List Token)) (z : Text) (ws : List Text)
    (fs : FileRedirects) (ts front : List Token)
    → ((u : List Token) → IsCommand u (again u))
    → front ≡ words ws ++ (file_tokens fs ++ ts)
    → IsCommand (command z ∷ front) (read_pipe again z ws fs ts)
unfolding command_tokens
read_pipe_sound again z ws fs (pipe_to p ∷ ts) front ih e =
    map_command_sound z ws fs p ts front (again ts) (ih ts) e
read_pipe_sound again z ws fs ts front ih e =
    ap (λ u. command z ∷ u) (e ∙ sym (append_assoc (words ws) (file_tokens fs) ts))

read_command_sound : (n : ℕ) (ts : List Token) → IsCommand ts (read_command n ts)
unfolding read_command
read_command_sound zero ts = tt
read_command_sound (suc n) (command z ∷ ts) =
    read_pipe_sound (read_command n) z (read_words ts).0 (read_files (read_words ts).1).0
      (read_files (read_words ts).1).1 ts (read_command_sound n)
      (read_words_sound ts
        ∙ ap (λ u. words (read_words ts).0 ++ u) (read_files_sound (read_words ts).1))
read_command_sound (suc n) _ = tt

read_more_sound :
    (again : List Token → Option CommandSeq) (t : CommandTree) (s : Separator)
    (ts front : List Token)
    → ((u : List Token) → IsSeq u (again u))
    → front ≡ command_tokens t ++ (separator_token s ∷ ts)
    → IsSeq front (read_more again t s ts)
unfolding seq_tokens
read_more_sound again t s [] front ih e = e
read_more_sound again t s (k ∷ ts) front ih e = then (again (k ∷ ts)) (ih (k ∷ ts))
  where
    then : (o : Option CommandSeq) → IsSeq (k ∷ ts) o → IsSeq front (map_seq (more t s) o)
    then none h = tt
    then (some q) h = e ∙ ap (λ u. command_tokens t ++ (separator_token s ∷ u)) h

read_separator_sound :
    (again : List Token → Option CommandSeq) (t : CommandTree) (ts front : List Token)
    → ((u : List Token) → IsSeq u (again u))
    → front ≡ command_tokens t ++ ts
    → IsSeq front (read_separator again t ts)
unfolding seq_tokens
read_separator_sound again t [] front ih e = e ∙ append-nil (command_tokens t)
read_separator_sound again t (background ∷ ts) front ih e =
    read_more_sound again t in_background ts front ih e
read_separator_sound again t (semicolon ∷ ts) front ih e =
    read_more_sound again t and_then ts front ih e
read_separator_sound again t (_ ∷ ts) front ih e = tt

read_rest_sound :
    (again : List Token → Option CommandSeq) (ts : List Token)
    (o : Option (CommandTree × List Token))
    → ((u : List Token) → IsSeq u (again u))
    → IsCommand ts o
    → IsSeq ts (read_rest again o)
read_rest_sound again ts none ih h = tt
read_rest_sound again ts (some (t, rest)) ih h = read_separator_sound again t rest ts ih h

read_seq_sound : (n : ℕ) (ts : List Token) → IsSeq ts (read_seq n ts)
unfolding read_seq
read_seq_sound zero ts = tt
read_seq_sound (suc n) ts =
    read_rest_sound (read_seq n) ts (read_command (suc n) ts) (read_seq_sound n)
      (read_command_sound (suc n) ts)

-- The parser accepts a list of tokens with a derivation exactly where that derives the list. So its
-- fuel is enough, and the grammar derives no list of tokens in two ways.
pub read_line_iff :
    (ts : List Token) (q : CommandSeq) → (read_line ts ≡ some q) ↔ (ts ≡ seq_tokens q)
unfolding read_line
read_line_iff ts q = (
  λ e. subst (IsSeq ts) e (read_seq_sound (suc (length ts)) ts),
  λ e. rw e (read_seq-seq_tokens q (suc (length (seq_tokens q))) (omega arith)),
)
