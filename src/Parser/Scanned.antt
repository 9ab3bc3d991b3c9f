-- ===== src/Parser/Scanned.antt =====
-- The lexer reads the text of a derivation as the tokens that are derived.
use mathlib.Core.List.{append_assoc, append-nil}
use operating_system_profoli.Base.{◌≡◌, refl, sym, ap, ◌∙◌, List, [], ◌∷◌, ◌++◌, Text, codes, All}
use operating_system_profoli.Command.Print.{pipe_sign}
use operating_system_profoli.Lexer.{
  out, error, append, append_error, Pipe, pipe, pipe_error, Token, word, command, filename,
  redirect_in, redirect_to, pipe_to, background, eoln, Lexeme, token, Start, initial, param, fname,
  scan_from,
}
use operating_system_profoli.Lexer.Words.{IsPlain, scan_from-plain}
use operating_system_profoli.Parser.{
  FileRedirect, from_file, to_file, FileRedirects, no_files, one_file, in_out, out_in, CommandTree,
  last, piped, Separator, in_background, and_then, CommandSeq, one, one_ended, more, words,
  redirect_tokens, file_tokens, command_tokens, separator_token, seq_tokens,
}
use operating_system_profoli.Parser.Actions.{pipe_type}
use operating_system_profoli.Parser.Render.{
  blank, render_words, render_redirect, render_files, render_command, separator_text, render_seq,
}

-- All names, parameters and files are plain words.
abbrev pub IsPlainRedirect : FileRedirect → Type 0
IsPlainRedirect (from_file f) = IsPlain f
IsPlainRedirect (to_file o f) = IsPlain f

abbrev pub IsPlainFiles : FileRedirects → Type 0
IsPlainFiles no_files = Unit
IsPlainFiles (one_file r) = IsPlainRedirect r
IsPlainFiles (in_out f o g) = IsPlain f × IsPlain g
IsPlainFiles (out_in o g f) = IsPlain g × IsPlain f

abbrev pub IsPlainTree : CommandTree → Type 0
IsPlainTree (last z ws fs) = IsPlain z × All IsPlain ws × IsPlainFiles fs
IsPlainTree (piped z ws fs p t) = IsPlain z × All IsPlain ws × IsPlainFiles fs × IsPlainTree t

abbrev pub IsPlainSeq : CommandSeq → Type 0
IsPlainSeq (one t) = IsPlainTree t
IsPlainSeq (one_ended t s) = IsPlainTree t
IsPlainSeq (more t s q) = IsPlainTree t × IsPlainSeq q

-- Tokens in front of what else the scanner gives.
abbrev pub given : List Token → List Lexeme → List Lexeme
given [] ls = ls
given (k ∷ ks) ls = token k ∷ given ks ls

given-append :
    (ks js : List Token) (ls : List Lexeme) → given (ks ++ js) ls ≡ given ks (given js ls)
given-append [] js ls = refl
given-append (k ∷ ks) js ls = ap (λ m. token k ∷ m) (given-append ks js ls)

-- A plain word with a blank behind it, in front of a text.
scan_word :
    (s : Start) (w rest : Text)
    → IsPlain w
    → scan_from 0 s ((w ++ blank) ++ rest)
      ≡ token (elim s [ initial ↦ command w | param ↦ word w | fname ↦ filename w ])
        ∷ scan_from 0 param rest
scan_word initial w rest h =
    ap (scan_from 0 initial) (append_assoc w blank rest) ∙ scan_from-plain initial w rest h
scan_word param w rest h =
    ap (scan_from 0 param) (append_assoc w blank rest) ∙ scan_from-plain param w rest h
scan_word fname w rest h =
    ap (scan_from 0 fname) (append_assoc w blank rest) ∙ scan_from-plain fname w rest h

scan_words :
    (ws : List Text) (rest : Text)
    → All IsPlain ws
    → scan_from 0 param (render_words ws ++ rest) ≡ given (words ws) (scan_from 0 param rest)
scan_words [] rest h = refl
scan_words (w ∷ ws) rest h =
    ap (scan_from 0 param) (append_assoc w (blank ++ render_words ws) rest)
    ∙ scan_from-plain param w (render_words ws ++ rest) h.0
    ∙ ap (λ ls. token (word w) ∷ ls) (scan_words ws rest h.1)

scan_redirect :
    (r : FileRedirect) (rest : Text)
    → IsPlainRedirect r
    → scan_from 0 param (render_redirect r ++ rest)
      ≡ given (redirect_tokens r) (scan_from 0 param rest)
unfolding scan_from
scan_redirect (from_file f) rest h = ap (λ ls. token redirect_in ∷ ls) (scan_word fname f rest h)
scan_redirect (to_file o []) rest h = absurd (h.0 refl)
scan_redirect (to_file out (c ∷ f)) rest h =
    ap (λ ls. token (redirect_to out) ∷ ls) (scan_word fname (c ∷ f) rest h)
scan_redirect (to_file error (c ∷ f)) rest h =
    ap (λ ls. token (redirect_to error) ∷ ls) (scan_word fname (c ∷ f) rest h)
scan_redirect (to_file append (c ∷ f)) rest h =
    ap (λ ls. token (redirect_to append) ∷ ls) (scan_word fname (c ∷ f) rest h)
scan_redirect (to_file append_error (c ∷ f)) rest h =
    ap (λ ls. token (redirect_to append_error) ∷ ls) (scan_word fname (c ∷ f) rest h)

-- Two redirections, one behind the other.
scan_two :
    (r r' : FileRedirect) (rest : Text)
    → IsPlainRedirect r
    → IsPlainRedirect r'
    → scan_from 0 param ((render_redirect r ++ render_redirect r') ++ rest)
      ≡ given (redirect_tokens r) (given (redirect_tokens r') (scan_from 0 param rest))
scan_two r r' rest h h' =
    ap (scan_from 0 param) (append_assoc (render_redirect r) (render_redirect r') rest)
    ∙ scan_redirect r (render_redirect r' ++ rest) h
    ∙ ap (given (redirect_tokens r)) (scan_redirect r' rest h')

scan_files :
    (fs : FileRedirects) (rest : Text)
    → IsPlainFiles fs
    → scan_from 0 param (render_files fs ++ rest) ≡ given (file_tokens fs) (scan_from 0 param rest)
scan_files no_files rest h = refl
scan_files (one_file r) rest h = scan_redirect r rest h
scan_files (in_out f o g) rest h = scan_two (from_file f) (to_file o g) rest h.0 h.1
scan_files (out_in o g f) rest h = scan_two (to_file o g) (from_file f) rest h.0 h.1

scan_pipe :
    (p : Pipe) (rest : Text)
    → scan_from 0 param ((pipe_sign (pipe_type p) ++ blank) ++ rest)
      ≡ token (pipe_to p) ∷ scan_from 0 initial rest
unfolding scan_from
scan_pipe pipe rest = refl
scan_pipe pipe_error rest = refl

-- The parameters and the files.
scan_head :
    (z : Text) (ws : List Text) (fs : FileRedirects) (behind rest : Text)
    → IsPlain z
    → All IsPlain ws
    → IsPlainFiles fs
    → scan_from 0 initial
        (((z ++ blank) ++ (render_words ws ++ (render_files fs ++ behind))) ++ rest)
      ≡ token (command z)
        ∷ given (words ws) (given (file_tokens fs) (scan_from 0 param (behind ++ rest)))
scan_head z ws fs behind rest h h' h'' =
    ap (scan_from 0 initial)
      (append_assoc (z ++ blank) (render_words ws ++ (render_files fs ++ behind)) rest)
    ∙ scan_word initial z ((render_words ws ++ (render_files fs ++ behind)) ++ rest) h
    ∙ ap (λ ls. token (command z) ∷ ls)
        (ap (scan_from 0 param) (
            append_assoc (render_words ws) (render_files fs ++ behind) rest
            ∙ ap (λ t. render_words ws ++ t) (append_assoc (render_files fs) behind rest))
          ∙ scan_words ws (render_files fs ++ (behind ++ rest)) h'
          ∙ ap (given (words ws)) (scan_files fs (behind ++ rest) h''))

scan_command :
    (t : CommandTree) (rest : Text)
    → IsPlainTree t
    → scan_from 0 initial (render_command t ++ rest)
      ≡ given (command_tokens t) (scan_from 0 param rest)
unfolding render_command command_tokens
scan_command (last z ws fs) rest h =
    ap (λ u. scan_from 0 initial (((z ++ blank) ++ (render_words ws ++ u)) ++ rest))
      (sym (append-nil (render_files fs)))
    ∙ scan_head z ws fs [] rest h.0 h.1 h.2
    ∙ ap (λ ls. token (command z) ∷ ls)
        (sym (given-append (words ws) (file_tokens fs) (scan_from 0 param rest)))
scan_command (piped z ws fs p t) rest h =
    scan_head z ws fs ((pipe_sign (pipe_type p) ++ blank) ++ render_command t) rest h.0 h.1 h.2
    ∙ ap (λ ls. token (command z) ∷ given (words ws) (given (file_tokens fs) ls))
        (ap (scan_from 0 param)
            (append_assoc (pipe_sign (pipe_type p) ++ blank) (render_command t) rest)
          ∙ scan_pipe p (render_command t ++ rest)
          ∙ ap (λ ls. token (pipe_to p) ∷ ls) (scan_command t rest h.3))
    ∙ ap (λ ls. token (command z) ∷ ls)
        (ap (given (words ws)) (
            sym (
              given-append (file_tokens fs) (pipe_to p ∷ command_tokens t)
                (scan_from 0 param rest)))
          ∙ sym (
              given-append (words ws) (file_tokens fs ++ (pipe_to p ∷ command_tokens t))
                (scan_from 0 param rest)))

-- The same line without a `;` at its end, which printCommand leaves out.
unfoldable pub trimmed : CommandSeq → CommandSeq
trimmed (one t) = one t
trimmed (one_ended t in_background) = one_ended t in_background
trimmed (one_ended t and_then) = one t
trimmed (more t s q) = more t s (trimmed q)

scan_separator :
    (s : Separator) (rest : Text)
    → scan_from 0 param (separator_text s ++ rest)
      ≡ token (separator_token s) ∷ scan_from 0 initial rest
unfolding scan_from
scan_separator in_background rest = refl
scan_separator and_then rest = refl

-- The text of a line, with the end of the line behind it.
pub scan_seq :
    (q : CommandSeq) (rest : Text)
    → IsPlainSeq q
    → scan_from 0 initial (render_seq q ++ (b'\n' ∷ rest))
      ≡ given (seq_tokens (trimmed q)) (token eoln ∷ scan_from 0 initial rest)
unfolding scan_from render_seq seq_tokens trimmed
scan_seq (one t) rest h = scan_command t (b'\n' ∷ rest) h
scan_seq (one_ended t in_background) rest h =
    ap (scan_from 0 initial) (append_assoc (render_command t) (codes "& ") (b'\n' ∷ rest))
    ∙ scan_command t (codes "& " ++ (b'\n' ∷ rest)) h
    ∙ sym
        (given-append (command_tokens t) (background ∷ []) (token eoln ∷ scan_from 0 initial rest))
scan_seq (one_ended t and_then) rest h =
    ap (λ u. scan_from 0 initial (u ++ (b'\n' ∷ rest))) (append-nil (render_command t))
    ∙ scan_command t (b'\n' ∷ rest) h
scan_seq (more t s q) rest h =
    ap (scan_from 0 initial) (
      append_assoc (render_command t) (separator_text s ++ render_seq q) (b'\n' ∷ rest)
      ∙ ap (λ u. render_command t ++ u)
          (append_assoc (separator_text s) (render_seq q) (b'\n' ∷ rest)))
    ∙ scan_command t (separator_text s ++ (render_seq q ++ (b'\n' ∷ rest))) h.0
    ∙ ap (given (command_tokens t)) (
        scan_separator s (render_seq q ++ (b'\n' ∷ rest))
        ∙ ap (λ ls. token (separator_token s) ∷ ls) (scan_seq q rest h.1))
    ∙ sym (
        given-append (command_tokens t) (separator_token s ∷ seq_tokens (trimmed q))
          (token eoln ∷ scan_from 0 initial rest))
