-- ===== src/Command/Print/Append.antt =====
-- Building a line with appendRedirect and appendCommand, as it is printed.
use mathlib.Core.List.{append_assoc}
use operating_system_profoli.Base.{
  ◌≡◌, ◌≢◌, refl, sym, ap, ◌∙◌, Bool, true, false, Option, none, some, [], ◌++◌, Text, codes,
}
use operating_system_profoli.Command.{
  Command, command, no_command, next_command, Redirects, no_redirect, file_redirect, pipe_redirect,
}
use operating_system_profoli.Command.Arguments.{print_arguments}
use operating_system_profoli.Command.Build.{append_command, append_redirect, linked}
use operating_system_profoli.Command.Print.{
  both, ending, file_text, pipe_text, print_command, print_redirect,
}

both_assoc : (a b c : Option Text) → both (both a b) c ≡ both a (both b c)
both_assoc none b c = refl
both_assoc (some a) none c = refl
both_assoc (some a) (some b) none = refl
both_assoc (some a) (some b) (some c) = ap some (append_assoc a b c)

both_nil : (a : Option Text) → both (some []) a ≡ a
both_nil none = refl
both_nil (some a) = refl

print-linked :
    (r1 r2 : Redirects)
    → print_redirect (linked r1 r2) ≡ both (print_redirect r1) (print_redirect r2)
unfolding print_redirect linked
print-linked no_redirect r2 = sym (both_nil (print_redirect r2))
print-linked (file_redirect t f r) r2 =
    ap (both (file_text t f)) (print-linked r r2)
    ∙ sym (both_assoc (file_text t f) (print_redirect r) (print_redirect r2))
print-linked (pipe_redirect t pc r) r2 =
    ap (λ x. both (pipe_text t) (both (print_command pc) x)) (print-linked r r2)
    ∙ ap (both (pipe_text t))
        (sym (both_assoc (print_command pc) (print_redirect r) (print_redirect r2)))
    ∙ sym
        (both_assoc (pipe_text t) (both (print_command pc) (print_redirect r)) (print_redirect r2))

-- To a list of redirections that is not empty, appendRedirect adds the second list: what is printed
-- is the first and then the second. On an empty list it reads a null pointer.
pub append_redirect-print :
    (r1 r2 : Redirects)
    → (r1 ≡ no_redirect → append_redirect r1 r2 ≡ none)
      × (r1 ≢ no_redirect
          → (r : Redirects) × (append_redirect r1 r2 ≡ some r)
            × (print_redirect r ≡ both (print_redirect r1) (print_redirect r2)))
unfolding append_redirect
append_redirect-print no_redirect r2 = (λ e. refl, λ ne. absurd (ne refl))
append_redirect-print (file_redirect t f r) r2 =
    (λ e. cc, λ ne. (linked (file_redirect t f r) r2, refl, print-linked (file_redirect t f r) r2))
append_redirect-print (pipe_redirect t pc r) r2 = (
  λ e. cc,
  λ ne. (linked (pipe_redirect t pc r) r2, refl, print-linked (pipe_redirect t pc r) r2),
)

-- The head of a printed command in front of two texts.
outer :
    (z a r x y : Option Text)
    → both z (both a (both r (both x y))) ≡ both (both z (both a (both r x))) y
outer z a r x y =
    ap (λ t. both z (both a t)) (sym (both_assoc r x y))
    ∙ ap (both z) (sym (both_assoc a (both r x) y))
    ∙ sym (both_assoc z (both a (both r x)) y)

-- Whether the last command of the list runs in the background.
unfoldable pub last_background : Command → Bool
last_background (command z b a r no_command) = b
last_background (command z b a r (next_command pc)) = last_background pc

-- What stands between the two lists.
abbrev pub between : Command → Text
between pc = elim (last_background pc) [ true ↦ [] | false ↦ codes "; " ]

-- appendCommand puts the second list behind the first: what is printed is the first, `; ` unless its
-- last command is in the background, and the second.
pub append_command-print :
    (pc1 pc2 : Command)
    → print_command (append_command pc1 pc2)
      ≡ both (print_command pc1) (both (some (between pc1)) (print_command pc2))
unfolding append_command print_command last_background
append_command-print (command z true a r no_command) pc2 =
    outer (some (z ++ codes " ")) (print_arguments a) (print_redirect r) (some (codes "& "))
      (print_command pc2)
    ∙ ap (both (print_command (command z true a r no_command))) (sym (both_nil (print_command pc2)))
append_command-print (command z false a r no_command) pc2 =
    ap (λ t. both (some (z ++ codes " ")) (both (print_arguments a) (both (print_redirect r) t)))
      (sym (both_nil (both (some (codes "; ")) (print_command pc2))))
    ∙ outer (some (z ++ codes " ")) (print_arguments a) (print_redirect r) (some [])
        (both (some (codes "; ")) (print_command pc2))
append_command-print (command z b a r (next_command pc)) pc2 =
    ap
      (λ t. both (some (z ++ codes " ")) (
        both (print_arguments a)
          (both (print_redirect r) (both (some (ending b (next_command pc))) t))))
      (append_command-print pc pc2)
    ∙ ap (λ t. both (some (z ++ codes " ")) (both (print_arguments a) (both (print_redirect r) t)))
        (sym (
          both_assoc (some (ending b (next_command pc))) (print_command pc)
            (both (some (between pc)) (print_command pc2))))
    ∙ outer (some (z ++ codes " ")) (print_arguments a) (print_redirect r)
        (both (some (ending b (next_command pc))) (print_command pc))
        (both (some (between pc)) (print_command pc2))
