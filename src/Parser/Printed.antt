-- ===== src/Parser/Printed.antt =====
-- What the actions build is printed as the text of its derivation.
use mathlib.Core.List.{append_assoc, append-nil}
use operating_system_profoli.Base.{◌≡◌, refl, sym, ap, ◌∙◌, false, some, ◌++◌, Text, codes}
use operating_system_profoli.Command.{Args, Command, command, no_command, Redirects}
use operating_system_profoli.Command.Arguments.{print_arguments}
use operating_system_profoli.Command.Build.{append_command}
use operating_system_profoli.Command.Print.{pipe_sign, print_command, print_redirect}
use operating_system_profoli.Parser.{
  CommandTree, last, piped, in_background, and_then, CommandSeq, one, one_ended, more,
}
use operating_system_profoli.Parser.Actions.{pipe_type, build_command, set_background, build_seq}
use operating_system_profoli.Parser.Render.{
  blank, render_words, render_files, render_command, render_seq, IsSmall, IsSmallSeq,
  build_arguments_lem, build_files_lem, build_piped_lem,
}

abbrev name_of : CommandTree → Text
name_of (last z ws fs) = z
name_of (piped z ws fs p t) = z

-- A command in the foreground with nothing behind it, and the two parts of its text.
record Built (t : CommandTree) : Type 0 where
  pub args : Args
  pub redirects : Redirects
  pub head : Text
  pub tail : Text
  pub run : build_command t ≡ some (command (name_of t) false args redirects no_command)
  pub printed_args : print_arguments args ≡ some head
  pub printed_redirects : print_redirect redirects ≡ some tail
  pub whole : (name_of t ++ blank) ++ (head ++ tail) ≡ render_command t

abbrev alone : {t : CommandTree} → Built t → Command
alone {t} b = command (name_of t) false b.args b.redirects no_command

-- What printCommand prints for it.
Built-print : {t : CommandTree} (b : Built t) → print_command (alone b) ≡ some (render_command t)
unfolding print_command
Built-print {t} b = rw (b.printed_args, b.printed_redirects, append-nil b.tail) (ap some b.whole)

build_command-Built : (t : CommandTree) → IsSmall t → Built t
unfolding build_command render_command
build_command-Built (last z ws fs) small =
    let (pa, run, printed) = build_arguments_lem z ws small in
    let (r, run', printed') = build_files_lem fs in
    record {
      args = pa;
      redirects = r;
      head = render_words ws;
      tail = render_files fs;
      run = rw (run, run');
      printed_args = printed;
      printed_redirects = printed';
      whole = refl;
    }
build_command-Built (piped z ws fs p t) small =
    let (pa, run, printed) = build_arguments_lem z ws small.0 in
    let b = build_command-Built t small.1 in
    let pc = alone b in
    let (r, run', printed') = build_piped_lem fs p pc (render_command t) (Built-print b) in
    record {
      args = pa;
      redirects = r;
      head = render_words ws;
      tail = render_files fs ++ ((pipe_sign (pipe_type p) ++ blank) ++ render_command t);
      run = rw (run, b.run, run');
      printed_args = printed;
      printed_redirects = printed';
      whole = refl;
    }

-- The parts of a command's text, with what is printed behind them.
parts : (z a r e w : Text) → z ++ (a ++ r) ≡ w → z ++ (a ++ (r ++ e)) ≡ w ++ e
parts z a r e w h =
    ap (λ u. z ++ u) (sym (append_assoc a r e))
    ∙ sym (append_assoc z (a ++ r) e)
    ∙ ap (λ u. u ++ e) h

-- From a line whose commands have at most 14 parameters each, the actions build a list of commands,
-- and printCommand prints it as the text of the line.
pub build_seq-print :
    (q : CommandSeq)
    → IsSmallSeq q
    → (pc : Command) × (build_seq q ≡ some pc) × (print_command pc ≡ some (render_seq q))
unfolding build_seq render_seq print_command append_command
build_seq-print (one t) small =
    let b = build_command-Built t small in (alone b, b.run, Built-print b)
build_seq-print (one_ended t in_background) small =
    let b = build_command-Built t small in
    (
      set_background in_background (alone b),
      rw b.run,
      rw (b.printed_args, b.printed_redirects)
          (ap some
            (parts (name_of t ++ blank) b.head b.tail (codes "& ") (render_command t) b.whole)),
    )
build_seq-print (one_ended t and_then) small =
    let b = build_command-Built t small in
    (alone b, rw b.run, Built-print b ∙ ap some (sym (append-nil (render_command t))))
build_seq-print (more t in_background q) small =
    let b = build_command-Built t small.0 in
    let (pc, run, printed) = build_seq-print q small.1 in
    (
      set_background in_background (append_command (alone b) pc),
      rw (b.run, run),
      rw (b.printed_args, b.printed_redirects, printed)
          (ap some (
            parts (name_of t ++ blank) b.head b.tail (codes "& " ++ render_seq q) (render_command t)
              b.whole)),
    )
build_seq-print (more t and_then q) small =
    let b = build_command-Built t small.0 in
    let (pc, run, printed) = build_seq-print q small.1 in
    (
      append_command (alone b) pc,
      rw (b.run, run),
      rw (b.printed_args, b.printed_redirects, printed)
          (ap some (
            parts (name_of t ++ blank) b.head b.tail (codes "; " ++ render_seq q) (render_command t)
              b.whole)),
    )
