-- ===== src/Parser/Render.antt =====
-- The text of a derivation as printCommand prints it, and that printCommand does so for the command
-- that the actions build.
use mathlib.Core.List.{append_assoc, append-nil}
use operating_system_profoli.Base.{
  ℕ, zero, suc, ◌+◌, ◌-◌, ◌≤◌, ◌≡◌, refl, sym, ap, ◌∙◌, inl, inr, Option, none, some, List, [], ◌∷◌,
  ◌++◌, map, Text, codes, length, arith, slice, write, write_ne,
}
use operating_system_profoli.Command.{Args, Command, Redirects, no_redirect, pipe_redirect}
use operating_system_profoli.Command.Arguments.{
  create_arguments, set_argument, print_from, print_arguments,
}
use operating_system_profoli.Command.Arguments.Growth.{IsArgs, append_all-IsArgs}
use operating_system_profoli.Command.Print.{file_sign, pipe_sign, print_command, print_redirect}
use operating_system_profoli.Lexer.{Pipe}
use operating_system_profoli.Parser.{
  FileRedirect, from_file, to_file, FileRedirects, no_files, one_file, in_out, out_in, CommandTree,
  last, piped, Separator, in_background, and_then, CommandSeq, one, one_ended, more,
}
use operating_system_profoli.Parser.Actions.{
  file_type, pipe_type, short_name, build_files, build_piped, build_arguments,
}

abbrev pub blank : Text
blank = b' ' ∷ []

abbrev pub render_words : List Text → Text
render_words [] = []
render_words (w ∷ ws) = w ++ (blank ++ render_words ws)

abbrev pub render_redirect : FileRedirect → Text
render_redirect (from_file f) = (codes "<" ++ blank) ++ (f ++ blank)
render_redirect (to_file o f) = (file_sign (file_type o) ++ blank) ++ (f ++ blank)

abbrev pub render_files : FileRedirects → Text
render_files no_files = []
render_files (one_file r) = render_redirect r
render_files (in_out f o g) = render_redirect (from_file f) ++ render_redirect (to_file o g)
render_files (out_in o g f) = render_redirect (to_file o g) ++ render_redirect (from_file f)

unfoldable pub render_command : CommandTree → Text
render_command (last z ws fs) = (z ++ blank) ++ (render_words ws ++ render_files fs)
render_command (piped z ws fs p t) =
    (z ++ blank)
    ++ (render_words ws
        ++ (render_files fs ++ ((pipe_sign (pipe_type p) ++ blank) ++ render_command t)))

-- The separator between two commands, and the one at the end, which is printed for `&` only.
abbrev pub separator_text : Separator → Text
separator_text in_background = codes "& "
separator_text and_then = codes "; "

abbrev pub ended_text : Separator → Text
ended_text in_background = codes "& "
ended_text and_then = []

unfoldable pub render_seq : CommandSeq → Text
unfolding render_command
render_seq (one t) = render_command t
render_seq (one_ended t s) = render_command t ++ ended_text s
render_seq (more t s q) = render_command t ++ (separator_text s ++ render_seq q)

-- No command has more parameters than appendArgument has room for.
abbrev pub IsSmall : CommandTree → Type 0
IsSmall (last z ws fs) = length ws ≤ 14
IsSmall (piped z ws fs p t) = (length ws ≤ 14) × IsSmall t

abbrev pub IsSmallSeq : CommandSeq → Type 0
IsSmallSeq (one t) = IsSmall t
IsSmallSeq (one_ended t s) = IsSmall t
IsSmallSeq (more t s q) = IsSmall t × IsSmallSeq q

print_from-slice :
    (a : ℕ → Option Text) (i : ℕ) (ts : List Text)
    → slice a i (length ts) ≡ map some ts
    → print_from a i (length ts) ≡ some (render_words ts)
unfolding slice print_from
print_from-slice a i [] h = refl
print_from-slice a i (t ∷ ts) h =
    let here : a i ≡ some t = cc in
    let later : slice a (suc i) (length ts) ≡ map some ts = cc in
    rw (here, print_from-slice a (suc i) ts later)

slice-write :
    (a : ℕ → Option Text) (v : Option Text) (i n : ℕ)
    → slice (write a 0 v) (suc i) n ≡ slice a (suc i) n
unfolding slice
slice-write a v i zero = refl
slice-write a v i (suc n) =
    rw (write_ne a 0 v (suc i) (λ e. omega arith), slice-write a v (suc i) n)

room :
    (pa : Args)
    → IsArgs pa
    → (v : Option Text) → set_argument pa 0 v ≡ some (record pa { az_args = write pa.az_args 0 v })
unfolding set_argument
room pa is v = elim is.sized [ inl small ↦ ground arith | inr large ↦ ground arith ]

-- The arguments are built, and printed as the parameters with a blank behind each.
pub build_arguments_lem :
    (z : Text) (ws : List Text)
    → length ws ≤ 14
    → (pa : Args) × (build_arguments z ws ≡ some pa) × (print_arguments pa ≡ some (render_words ws))
unfolding build_arguments print_arguments
build_arguments_lem z ws small =
    let (pa, run, holds, is) = append_all-IsArgs ws small in
    let count : pa.n_args ≡ 1 + length ws = unfold create_arguments in holds.count in
    let rounds : pa.n_args - 1 ≡ length ws = omega (arith, count) in
    let entries : slice pa.az_args 1 (length ws) ≡ map some ws =
      unfold create_arguments in holds.entries in
    let name = some (short_name z) in
    let ended : write pa.az_args 0 name pa.n_args ≡ none =
      write_ne pa.az_args 0 name pa.n_args (λ e. omega (arith, count, e)) ∙ holds.ended in
    (
      record pa { az_args = write pa.az_args 0 name },
      rw run (room pa is name),
      rw (
        rounds,
        print_from-slice (write pa.az_args 0 name) 1 ws
            (slice-write pa.az_args name 0 (length ws) ∙ entries),
        ended,
      ),
    )

-- The files.
pub build_files_lem :
    (fs : FileRedirects)
    → (r : Redirects) × (build_files fs ≡ some r) × (print_redirect r ≡ some (render_files fs))
unfolding build_files print_redirect
build_files_lem no_files = (_, refl, refl)
build_files_lem (one_file (from_file f)) = (_, refl, ap some (append-nil _))
build_files_lem (one_file (to_file o f)) = (_, refl, ap some (append-nil _))
build_files_lem (in_out f o g) =
    (_, refl, ap some (ap (λ t. render_redirect (from_file f) ++ t) (append-nil _)))
build_files_lem (out_in o g f) =
    (_, refl, ap some (ap (λ t. render_redirect (to_file o g) ++ t) (append-nil _)))

-- The files and a pipe.
pub build_piped_lem :
    (fs : FileRedirects) (p : Pipe) (pc : Command) (text : Text)
    → print_command pc ≡ some text
    → (r : Redirects) × (build_piped fs (pipe_redirect (pipe_type p) pc no_redirect) ≡ some r)
      × (print_redirect r ≡ some (render_files fs ++ ((pipe_sign (pipe_type p) ++ blank) ++ text)))
unfolding build_piped print_redirect
build_piped_lem no_files p pc text h =
    (_, refl, rw h (ap some (ap (λ t. (pipe_sign (pipe_type p) ++ blank) ++ t) (append-nil text))))
build_piped_lem (one_file (from_file f)) p pc text h = (_, refl, rw (h, append-nil text))
build_piped_lem (one_file (to_file o f)) p pc text h = (_, refl, rw (h, append-nil text))
build_piped_lem (in_out f o g) p pc text h = (
  _,
  refl,
  rw (h, append-nil text)
      (ap some
        (sym (append_assoc (render_redirect (from_file f)) (render_redirect (to_file o g)) _))),
)
build_piped_lem (out_in o g f) p pc text h = (
  _,
  refl,
  rw (h, append-nil text)
      (ap some
        (sym (append_assoc (render_redirect (to_file o g)) (render_redirect (from_file f)) _))),
)
