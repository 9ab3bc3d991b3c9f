-- ===== src/Memory/Build/Sequences.antt =====
-- The blocks of the commands of a line as the actions of impl/parser.y build them.
use mathlib.Core.Option
use operating_system_profoli.Base.{ℕ, ◌≡◌, refl, ◌∙◌, ap, true, some, List, [], ◌∷◌, ◌++◌, arith}
use operating_system_profoli.Command.{Command}
use operating_system_profoli.Command.Build as TextBuild
use operating_system_profoli.Memory.{occurrences}
use operating_system_profoli.Memory.Owned.{
  Same, Makes, Makes-then, Makes-mono, occurrences-append, occurrences-append_append, Same-swap,
}
use operating_system_profoli.Memory.Blocks.{
  HeapCommand, heap_command, null_command, heap_next, erase_command, args_blocks, command_blocks,
  redirects_blocks, commands_blocks,
}
use operating_system_profoli.Memory.Build.{build_command, append_command, set_background, build_seq}
use operating_system_profoli.Memory.Build.Arguments.{owned-live, >>=-some}
use operating_system_profoli.Memory.Build.Commands.{IsCommand, build_command-Makes}
use operating_system_profoli.Parser.{Separator, in_background, CommandSeq, one, one_ended, more}
use operating_system_profoli.Parser.Actions as Actions

-- Blocks behind others of a command are taken to the front.
pub behind :
    (c b z : ℕ) (xs ys ns rest : List ℕ)
    → occurrences c (ns ++ (b ∷ z ∷ (xs ++ (ys ++ rest))))
      ≡ occurrences c (b ∷ z ∷ ((xs ++ (ys ++ ns)) ++ rest))
unfolding occurrences
behind c b z xs ys ns rest = omega (
  arith,
  occurrences-append c ns (b ∷ z ∷ (xs ++ (ys ++ rest))),
  occurrences-append_append c xs ys rest,
  occurrences-append c (xs ++ (ys ++ ns)) rest,
  occurrences-append_append c xs ys ns,
)

append_command-Makes :
    (pc1 pc2 : HeapCommand) (live rest : List ℕ)
    → Same live (command_blocks pc1 ++ (command_blocks pc2 ++ rest))
    → Makes
        (IsCommand (TextBuild.append_command (erase_command pc1) (erase_command pc2)))
        command_blocks
        rest
        (append_command pc1 pc2 live)
unfolding append_command TextBuild.append_command erase_command command_blocks occurrences
append_command-Makes (heap_command b z t bg a r null_command) pc2 live rest h = (
  heap_command b z t bg a r (heap_next pc2),
  live,
  rw
      (owned-live b live
        (z ∷ ((args_blocks a ++ (redirects_blocks r ++ [])) ++ (command_blocks pc2 ++ rest))) h)
      refl,
  refl,
  λ c. omega (
    arith,
    h c,
    occurrences-append c (args_blocks a ++ (redirects_blocks r ++ [])) (command_blocks pc2 ++ rest),
    occurrences-append_append c (args_blocks a) (redirects_blocks r) [],
    occurrences-append c (command_blocks pc2) rest,
    occurrences-append c (args_blocks a ++ (redirects_blocks r ++ command_blocks pc2)) rest,
    occurrences-append_append c (args_blocks a) (redirects_blocks r) (command_blocks pc2),
  ),
)
append_command-Makes (heap_command b z t bg a r (heap_next pc)) pc2 live rest h =
    let (pc', live', run, e, left) =
      append_command-Makes pc pc2 live (b ∷ z ∷ (args_blocks a ++ (redirects_blocks r ++ rest)))
        (λ c. omega (
          arith,
          h c,
          behind c b z (args_blocks a) (redirects_blocks r) (command_blocks pc)
              (command_blocks pc2 ++ rest),
          occurrences-append c (command_blocks pc)
              (b ∷ z ∷ (args_blocks a ++ (redirects_blocks r ++ (command_blocks pc2 ++ rest)))),
          occurrences-append_append c (args_blocks a) (redirects_blocks r)
              (command_blocks pc2 ++ rest),
          occurrences-append c (command_blocks pc2) rest,
          occurrences-append_append c (command_blocks pc) (command_blocks pc2)
              (b ∷ z ∷ (args_blocks a ++ (redirects_blocks r ++ rest))),
          occurrences-append_append c (args_blocks a) (redirects_blocks r) rest,
        )) in
    (
      heap_command b z t bg a r (heap_next pc'),
      live',
      rw
          (
            owned-live b live
                (z
                  ∷ ((args_blocks a ++ (redirects_blocks r ++ command_blocks pc))
                      ++ (command_blocks pc2 ++ rest)))
                h,
            run,
          )
          refl,
      rw e refl,
      λ c. left c ∙ behind c b z (args_blocks a) (redirects_blocks r) (command_blocks pc') rest,
    )

set_background-Makes :
    (s : Separator) (pc : HeapCommand) (live rest : List ℕ)
    → Same live (command_blocks pc ++ rest)
    → Makes
        (IsCommand (Actions.set_background s (erase_command pc)))
        command_blocks
        rest
        (set_background s pc live)
unfolding erase_command command_blocks
set_background-Makes in_background (heap_command b z t bg a r n) live rest h = (
  heap_command b z t true a r n,
  live,
  rw
      (owned-live b live
        (z ∷ ((args_blocks a ++ (redirects_blocks r ++ commands_blocks n)) ++ rest)) h)
      refl,
  refl,
  h,
)
set_background-Makes Separator.and_then pc live rest h = (pc, live, refl, refl, h)

module _ (alloc : List ℕ → ℕ) where
  -- Where the commands of a line are built, they are also built with their blocks, whatever blocks are
  -- live and whatever the allocator gives; without the blocks the result is the same, and the blocks that
  -- are live afterwards are those of the result and the earlier ones, so that none is lost or shared.
  pub build_seq-Makes :
      (q : CommandSeq) (c : Command) (live rest : List ℕ)
      → Actions.build_seq q ≡ some c
      → Same live rest
      → Makes (IsCommand c) command_blocks rest (build_seq alloc q live)
  unfolding build_seq Actions.build_seq
  build_seq-Makes (one t) c live rest run h = build_command-Makes alloc t c live rest run h
  build_seq-Makes (one_ended t s) c live rest run h =
      let (first, first_run, made) = >>=-some (Actions.build_command t) _ c run in
      Makes-then (IsCommand first) (IsCommand c) command_blocks command_blocks rest rest
        (build_command alloc t live) _ (build_command-Makes alloc t first live rest first_run h)
        λ pc live1 e left.
          Makes-mono (IsCommand (Actions.set_background s (erase_command pc))) (IsCommand c)
            command_blocks rest (set_background s pc live1)
            (λ pc' e'. e' ∙ ap (Actions.set_background s) e ∙ Option.some-injective _ c made)
            (set_background-Makes s pc live1 rest left)
  build_seq-Makes (more t s q) c live rest run h =
      let (first, first_run, after) = >>=-some (Actions.build_command t) _ c run in
      let (others, others_run, made) = >>=-some (Actions.build_seq q) _ c after in
      Makes-then (IsCommand first) (IsCommand c) command_blocks command_blocks rest rest
        (build_command alloc t live) _ (build_command-Makes alloc t first live rest first_run h)
        λ pc1 live1 e1 left1.
          Makes-then (IsCommand others) (IsCommand c) command_blocks command_blocks
            (command_blocks pc1 ++ rest) rest (build_seq alloc q live1) _
            (build_seq-Makes q others live1 (command_blocks pc1 ++ rest) others_run left1)
            λ pc2 live2 e2 left2.
              Makes-then
                (IsCommand (TextBuild.append_command (erase_command pc1) (erase_command pc2)))
                (IsCommand c) command_blocks command_blocks rest rest (append_command pc1 pc2 live2)
                _
                (append_command-Makes pc1 pc2 live2 rest
                  (Same-swap live2 (command_blocks pc2) (command_blocks pc1) rest left2))
                λ pc live3 e3 left3.
                  Makes-mono (IsCommand (Actions.set_background s (erase_command pc))) (IsCommand c)
                    command_blocks rest (set_background s pc live3)
                    (λ pc' e'.
                      e'
                      ∙ ap (Actions.set_background s) (
                          e3
                          ∙ ap (λ x. TextBuild.append_command x (erase_command pc2)) e1
                          ∙ ap (TextBuild.append_command first) e2)
                      ∙ Option.some-injective _ c made)
                    (set_background-Makes s pc live3 rest left3)
