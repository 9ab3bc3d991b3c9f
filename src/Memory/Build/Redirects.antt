-- ===== src/Memory/Build/Redirects.antt =====
-- The blocks of a list of redirections as it is built.
use mathlib.Core.Option
use operating_system_profoli.Base.{ℕ, ◌≡◌, refl, sym, ◌∙◌, some, List, [], ◌∷◌, ◌++◌, Text, arith}
use operating_system_profoli.Command.{Redirects, no_redirect, file_redirect, FileType}
use operating_system_profoli.Command.Build as TextBuild
use operating_system_profoli.Memory.{occurrences, malloc}
use operating_system_profoli.Memory.Owned.{
  Same, Makes, occurrences-append, occurrences-append_append, Frees-free,
}
use operating_system_profoli.Memory.Blocks.{
  HeapRedirects, null_redirect, heap_file, heap_pipe, erase_redirects, command_blocks,
  redirects_blocks,
}
use operating_system_profoli.Memory.Build.{
  link, append_redirect, create_file_redirect, build_redirect, build_files, join_pipe,
}
use operating_system_profoli.Memory.Build.Arguments.{owned-live, >>=-some}
use operating_system_profoli.Parser.{
  from_file, to_file, FileRedirects, no_files, one_file, in_out, out_in,
}
use operating_system_profoli.Parser.Actions as Actions
use operating_system_profoli.Parser.Actions.{file_type}

-- A list of redirections that is this one without its blocks.
abbrev pub IsErased : Redirects → HeapRedirects → Type 0
IsErased r pr = erase_redirects pr ≡ r

link-Makes :
    (pr1 pr2 : HeapRedirects) (live rest : List ℕ)
    → Same live (redirects_blocks pr1 ++ (redirects_blocks pr2 ++ rest))
    → Makes
        (IsErased (TextBuild.linked (erase_redirects pr1) (erase_redirects pr2)))
        redirects_blocks
        rest
        (link pr1 pr2 live)
unfolding link redirects_blocks erase_redirects TextBuild.linked occurrences
link-Makes null_redirect pr2 live rest h = (pr2, live, refl, refl, h)
link-Makes (heap_file b f t name r) pr2 live rest h =
    let (r', live', run, e, left) = link-Makes r pr2 live (b ∷ f ∷ rest) (λ c. omega (
      arith,
      h c,
      occurrences-append_append c (redirects_blocks r) (redirects_blocks pr2) rest,
      occurrences-append_append c (redirects_blocks r) (redirects_blocks pr2) (b ∷ f ∷ rest),
    )) in
    (
      heap_file b f t name r',
      live',
      rw (owned-live b live (f ∷ (redirects_blocks r ++ (redirects_blocks pr2 ++ rest))) h, run)
          refl,
      rw e refl,
      λ c. omega (
        arith,
        left c,
        occurrences-append c (redirects_blocks r') rest,
        occurrences-append c (redirects_blocks r') (b ∷ f ∷ rest),
      ),
    )
link-Makes (heap_pipe b t pc r) pr2 live rest h =
    let (r', live', run, e, left) = link-Makes r pr2 live (b ∷ (command_blocks pc ++ rest)) (λ c.
      omega (
        arith,
        h c,
        occurrences-append c (command_blocks pc ++ redirects_blocks r)
            (redirects_blocks pr2 ++ rest),
        occurrences-append c (command_blocks pc) (redirects_blocks r),
        occurrences-append c (redirects_blocks pr2) rest,
        occurrences-append c (command_blocks pc) rest,
        occurrences-append_append c (redirects_blocks r) (redirects_blocks pr2)
            (b ∷ (command_blocks pc ++ rest)),
      )) in
    (
      heap_pipe b t pc r',
      live',
      rw
          (
            owned-live b live
                ((command_blocks pc ++ redirects_blocks r) ++ (redirects_blocks pr2 ++ rest)) h,
            run,
          )
          refl,
      rw e refl,
      λ c. omega (
        arith,
        left c,
        occurrences-append c (redirects_blocks r') (b ∷ (command_blocks pc ++ rest)),
        occurrences-append c (command_blocks pc) rest,
        occurrences-append c (command_blocks pc) (redirects_blocks r'),
        occurrences-append c (command_blocks pc ++ redirects_blocks r') rest,
      ),
    )

append_redirect-Makes :
    (pr1 pr2 : HeapRedirects) (r : Redirects) (live rest : List ℕ)
    → TextBuild.append_redirect (erase_redirects pr1) (erase_redirects pr2) ≡ some r
    → Same live (redirects_blocks pr1 ++ (redirects_blocks pr2 ++ rest))
    → Makes (IsErased r) redirects_blocks rest (append_redirect pr1 pr2 live)
unfolding append_redirect erase_redirects TextBuild.append_redirect
append_redirect-Makes null_redirect pr2 r live rest run h = absurd (Option.none-ne-some r run)
append_redirect-Makes (heap_file b f t name pr) pr2 r live rest run h =
    let (r', live', made, e, left) = link-Makes (heap_file b f t name pr) pr2 live rest h in
    (r', live', made, e ∙ Option.some-injective _ r run, left)
append_redirect-Makes (heap_pipe b t pc pr) pr2 r live rest run h =
    let (r', live', made, e, left) = link-Makes (heap_pipe b t pc pr) pr2 live rest h in
    (r', live', made, e ∙ Option.some-injective _ r run, left)

erased-null :
    (files : HeapRedirects) → erase_redirects files ≡ no_redirect → redirects_blocks files ≡ []
unfolding erase_redirects redirects_blocks
erased-null null_redirect e = refl
erased-null (heap_file b f t name r) e = cc
erased-null (heap_pipe b t pc r) e = cc

-- The files behind which a pipe can stand.
pub files-built :
    (fs : FileRedirects) (p r : Redirects)
    → Actions.build_piped fs p ≡ some r
    → (files : Redirects) × (Actions.build_files fs ≡ some files)
unfolding Actions.build_piped Actions.build_files
files-built no_files p r run = (no_redirect, refl)
files-built (one_file x) p r run = (Actions.build_redirect x, refl)
files-built (in_out f o g) p r run =
    let (first, e, _) =
      >>=-some (Actions.build_files (in_out f o g)) (λ a. TextBuild.append_redirect a p) r run in
    (first, e)
files-built (out_in o g f) p r run =
    let (first, e, _) =
      >>=-some (Actions.build_files (out_in o g f)) (λ a. TextBuild.append_redirect a p) r run in
    (first, e)

pub join_pipe-Makes :
    (fs : FileRedirects) (files pr : HeapRedirects) (r : Redirects) (live rest : List ℕ)
    → Actions.build_files fs ≡ some (erase_redirects files)
    → Actions.build_piped fs (erase_redirects pr) ≡ some r
    → Same live (redirects_blocks files ++ (redirects_blocks pr ++ rest))
    → Makes (IsErased r) redirects_blocks rest (join_pipe fs files pr live)
unfolding join_pipe Actions.build_piped
join_pipe-Makes no_files files pr r live rest built run h = (
  pr,
  live,
  refl,
  Option.some-injective _ r run,
  rw (erased-null files (sym (Option.some-injective _ _ built))) at h,
)
join_pipe-Makes (one_file x) files pr r live rest built run h =
    append_redirect-Makes files pr r live rest (rw (Option.some-injective _ _ built) at run) h
join_pipe-Makes (in_out f o g) files pr r live rest built run h =
    let (first, e, later) =
      >>=-some (Actions.build_files (in_out f o g))
        (λ a. TextBuild.append_redirect a (erase_redirects pr)) r run in
    append_redirect-Makes files pr r live rest
      (rw (Option.some-injective _ _ (sym e ∙ built)) at later) h
join_pipe-Makes (out_in o g f) files pr r live rest built run h =
    let (first, e, later) =
      >>=-some (Actions.build_files (out_in o g f))
        (λ a. TextBuild.append_redirect a (erase_redirects pr)) r run in
    append_redirect-Makes files pr r live rest
      (rw (Option.some-injective _ _ (sym e ∙ built)) at later) h

module _ (alloc : List ℕ → ℕ) where
  build_redirect-Makes :
      (t : FileType) (f : Text) (live rest : List ℕ)
      → Same live rest
      → Makes
          (IsErased (file_redirect t f no_redirect))
          redirects_blocks
          rest
          (build_redirect alloc t f live)
  unfolding build_redirect create_file_redirect redirects_blocks erase_redirects malloc occurrences
  build_redirect-Makes t f live rest h =
      let word = alloc live in
      let block = alloc (word ∷ live) in
      let name = alloc (block ∷ word ∷ live) in
      let (less, freed, left) =
        Frees-free word (name ∷ block ∷ word ∷ live) (block ∷ name ∷ rest)
          (λ c. omega (arith, h c)) in
      (heap_file block name t f null_redirect, less, rw freed refl, refl, left)

  pub build_files-Makes :
      (fs : FileRedirects) (r : Redirects) (live rest : List ℕ)
      → Actions.build_files fs ≡ some r
      → Same live rest
      → Makes (IsErased r) redirects_blocks rest (build_files alloc fs live)
  unfolding build_files Actions.build_files redirects_blocks erase_redirects
  build_files-Makes no_files r live rest run h =
      (null_redirect, live, refl, Option.some-injective no_redirect r run, h)
  build_files-Makes (one_file (from_file f)) r live rest run h =
      let (pr, live', made, e, left) = build_redirect-Makes FileType.redirect_in f live rest h in
      (pr, live', made, e ∙ Option.some-injective _ r run, left)
  build_files-Makes (one_file (to_file o f)) r live rest run h =
      let (pr, live', made, e, left) = build_redirect-Makes (file_type o) f live rest h in
      (pr, live', made, e ∙ Option.some-injective _ r run, left)
  build_files-Makes (in_out f o g) r live rest run h =
      let (pr1, live1, made1, e1, left1) =
        build_redirect-Makes FileType.redirect_in f live rest h in
      let (pr2, live2, made2, e2, left2) =
        build_redirect-Makes (file_type o) g live1 (redirects_blocks pr1 ++ rest) left1 in
      let (pr, live', made, e, left) =
        append_redirect-Makes pr1 pr2 r live2 rest (rw (e1, e2) run)
          (λ c. omega (arith, left2 c, occurrences-append_append)) in
      (pr, live', rw (made1, made2, made) refl, e, left)
  build_files-Makes (out_in o g f) r live rest run h =
      let (pr1, live1, made1, e1, left1) = build_redirect-Makes (file_type o) g live rest h in
      let (pr2, live2, made2, e2, left2) =
        build_redirect-Makes FileType.redirect_in f live1 (redirects_blocks pr1 ++ rest) left1 in
      let (pr, live', made, e, left) =
        append_redirect-Makes pr1 pr2 r live2 rest (rw (e1, e2) run)
          (λ c. omega (arith, left2 c, occurrences-append_append)) in
      (pr, live', rw (made1, made2, made) refl, e, left)
