-- ===== src/Memory/Jobs/Freed.antt =====
-- AllocJobMem, and the loop at the end of main.
use mathlib.Core.List.{append_assoc}
use operating_system_profoli.Base.{ℕ, refl, ◌∙◌, ap, List, [], ◌∷◌, ◌++◌, arith}
use operating_system_profoli.Memory.{occurrences}
use operating_system_profoli.Memory.Owned.{Same, Frees, Frees-free, occurrences-append}
use operating_system_profoli.Memory.Build.Arguments.{owned-live}
use operating_system_profoli.Memory.Jobs.{
  HeapJob, job_blocks, jobs_blocks, free_each, alloc_job_mem, free_jobs,
}

pub free_each-Frees : (bs : List ℕ) → Frees (free_each bs) bs
unfolding free_each
free_each-Frees [] live rest h = (live, refl, h)
free_each-Frees (b ∷ bs) live rest h =
    let (less, freed, kept) = Frees-free b live (bs ++ rest) h in
    let (live', run, left) = free_each-Frees bs less rest kept in
    (live', rw (owned-live b live (bs ++ rest) h, freed, run) refl, left)

pub alloc_job_mem-Frees : (hj : HeapJob) → Frees (alloc_job_mem hj) (job_blocks hj)
unfolding alloc_job_mem occurrences
alloc_job_mem-Frees hj live rest h =
    let (live1, run1, left1) = free_each-Frees hj.processes live (hj.name ∷ hj.block ∷ rest) (λ c.
      omega (
        arith,
        h c,
        occurrences-append c hj.processes rest,
        occurrences-append c hj.processes (hj.name ∷ hj.block ∷ rest),
      )) in
    let (live2, run2, left2) = Frees-free hj.name live1 (hj.block ∷ rest) left1 in
    let (live3, run3, left3) = Frees-free hj.block live2 rest left2 in
    (
      live3,
      rw
          (
            owned-live hj.block live (hj.name ∷ (hj.processes ++ rest)) h,
            run1,
            owned-live hj.block live1 (hj.name ∷ rest) (λ c. omega (arith, left1 c)),
            run2,
            run3,
          )
          refl,
      left3,
    )

pub free_jobs-Frees : (hjs : List HeapJob) → Frees (free_jobs hjs) (jobs_blocks hjs)
unfolding free_jobs
free_jobs-Frees [] live rest h = (live, refl, h)
free_jobs-Frees (hj ∷ hjs) live rest h =
    let split : Same live (job_blocks hj ++ (jobs_blocks hjs ++ rest)) =
      λ c. h c ∙ ap (occurrences c) (append_assoc (job_blocks hj) (jobs_blocks hjs) rest) in
    let (less, freed, kept) = alloc_job_mem-Frees hj live (jobs_blocks hjs ++ rest) split in
    let (live', run, left) = free_jobs-Frees hjs less rest kept in
    (
      live',
      rw
          (
            owned-live hj.block live (hj.name ∷ (hj.processes ++ (jobs_blocks hjs ++ rest))) split,
            freed,
            run,
          )
          refl,
      left,
    )
