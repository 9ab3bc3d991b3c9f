-- ===== src/Launch/Plumbed.antt =====
-- The commands of a pipeline, and their pipes.
use operating_system_profoli.Base.{◌≡◌, refl, none, some, List, [], ◌∷◌}
use operating_system_profoli.Command.{
  Command, command, Redirects, no_redirect, file_redirect, pipe_redirect, PipeType, pr_redirects,
}
use operating_system_profoli.Launch.{pipeline, pipe_in, stages_in}

-- Every command but the last has a pipe, and the last has none.
abbrev pub Plumbed : List Command → Type 0
Plumbed [] = ⊥
Plumbed (pc ∷ []) = pipe_in (pr_redirects pc) ≡ none
Plumbed (pc ∷ next ∷ rest) =
    ((p : PipeType) × (pipe_in (pr_redirects pc) ≡ some p)) × Plumbed (next ∷ rest)

stages-Plumbed :
    (pc : Command) (r : Redirects)
    → pipe_in (pr_redirects pc) ≡ pipe_in r
    → Plumbed (pc ∷ stages_in r)
unfolding stages_in pipe_in
stages-Plumbed pc no_redirect e = e
stages-Plumbed pc (file_redirect t f r) e = stages-Plumbed pc r e
stages-Plumbed pc (pipe_redirect t (command z b a r n) rest) e =
    ((t, e), stages-Plumbed (command z b a r n) r refl)

pub pipeline-Plumbed : (pc : Command) → Plumbed (pipeline pc)
pipeline-Plumbed pc = stages-Plumbed pc (pr_redirects pc) refl
