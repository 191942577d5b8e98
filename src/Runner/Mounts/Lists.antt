-- ===== src/Runner/Mounts/Lists.antt =====
-- Sets of paths and sorted mounts, element by element.
use Prim.Native.Nat.{Ordering}
use task_fence.Prelude.{
  String, ◌≡◌, refl, subst, Bool, true, false, List, [], ◌∷◌, All, any, ◌==◌, arith, eq_refl,
  Bool-cases, inl, inr,
}
use task_fence.Std.Path.{compare_paths, same_path}
use task_fence.Core.Error.{ok, bind-eq-ok, ok_injective}
use task_fence.Core.Task.{Utf8PathBuf, ResolvedTask}
use task_fence.Core.Event.{MountMode, MountPlan}
use task_fence.Runner.Mounts.{
  insert_path, difference, overlap, reject_overlaps_of, reject_mixed_mode_overlaps,
  container_path_for, precedes, insert_mount, sort_mounts, mounts_of, DockerRunner,
}

abbrev pub lists : List String → String → Bool
lists paths path = any (λ q. q == path) paths

module _ (P : Utf8PathBuf → Type 0) where
  placed-All :
      (p q : Utf8PathBuf) (qs : List Utf8PathBuf)
      → P p
      → P q
      → All P qs
      → All P (insert_path p qs)
      → (o : Ordering)
      → All P (elim o [
        | Ordering.lt ↦ p ∷ q ∷ qs
        | Ordering.eq ↦ q ∷ qs
        | Ordering.gt ↦ q ∷ insert_path p qs
      ])
  placed-All p q qs h kq k rest Ordering.lt = (h, (kq, k))
  placed-All p q qs h kq k rest Ordering.eq = (kq, k)
  placed-All p q qs h kq k rest Ordering.gt = (kq, rest)

  pub insert_path-All :
      (p : Utf8PathBuf) (ps : List Utf8PathBuf) → P p → All P ps → All P (insert_path p ps)
  unfolding insert_path
  insert_path-All p [] h k = (h, tt)
  insert_path-All p (q ∷ qs) h (kq, k) =
      placed-All p q qs h kq k (insert_path-All p qs h k) (compare_paths p q)

  -- What is left of a set is in none of the other.
  pub difference-All :
      (ps other : List Utf8PathBuf)
      → All P ps
      → All (λ p. P p × (any (same_path p) other ≡ false)) (difference ps other)
  unfolding difference
  difference-All [] other k = tt
  difference-All (p ∷ ps) other (h, k) = elim (Bool-cases (any (same_path p) other)) [
    | inl there ↦ rw there (difference-All ps other k)
    | inr gone ↦ rw gone ((h, gone), difference-All ps other k)
  ]

  -- Every path of a list satisfies what the paths that it lists do.
  pub All-of_listed :
      (ps : List Utf8PathBuf) → ((p : Utf8PathBuf) → lists ps p ≡ true → P p) → All P ps
  All-of_listed [] h = tt
  All-of_listed (p ∷ ps) h =
      (h p (ground (arith, eq_refl p)), All-of_listed ps (λ q l. h q (ground (arith, l))))

module _ (P : MountPlan → Type 0) where
  insert_mount-All :
      (m : MountPlan) (ms : List MountPlan) → P m → All P ms → All P (insert_mount m ms)
  unfolding insert_mount
  insert_mount-All m [] h k = (h, tt)
  insert_mount-All m (n ∷ ns) h (kn, k) = elim (Bool-cases (precedes m n)) [
    | inl first ↦ rw first (h, (kn, k))
    | inr later ↦ rw later (kn, insert_mount-All m ns h k)
  ]

  pub sort_mounts-All : (ms : List MountPlan) → All P ms → All P (sort_mounts ms)
  unfolding sort_mounts
  sort_mounts-All [] k = tt
  sort_mounts-All (m ∷ ms) (h, k) = insert_mount-All m (sort_mounts ms) h (sort_mounts-All ms k)

-- The mounts of a list of paths have its paths and the mode.
pub mounts_of-All :
    (docker : DockerRunner) (P : Utf8PathBuf → Type 0) (t : ResolvedTask) (mode : MountMode)
    (ps : List Utf8PathBuf) (ms : List MountPlan)
    → All P ps
    → mounts_of docker t mode ps ≡ ok ms
    → All (λ m. (m.mode ≡ mode) × P m.host_path) ms
unfolding mounts_of
mounts_of-All docker P t mode [] ms k e =
    subst (All (λ m. (m.mode ≡ mode) × P m.host_path)) (ok_injective e) tt
mounts_of-All docker P t mode (p ∷ ps) ms (h, k) e =
    let (target, e0, e1) = bind-eq-ok (container_path_for t p) _ e in
    let (rest, e2, e3) = bind-eq-ok (mounts_of docker t mode ps) _ e1 in
    subst (All (λ m. (m.mode ≡ mode) × P m.host_path)) (ok_injective e3)
      ((refl, h), mounts_of-All docker P t mode ps rest k e2)

-- A pair that is refused neither for being the same path nor for overlapping.
pub reject_overlaps-All :
    (read : Utf8PathBuf) (writes : List Utf8PathBuf)
    → reject_overlaps_of read writes ≡ ok tt
    → any (same_path read) writes ≡ false
    → All (λ write. overlap read write ≡ false) writes
unfolding reject_overlaps_of
reject_overlaps-All read [] e n = tt
reject_overlaps-All read (write ∷ writes) e n = (
  ground (arith, e, n),
  reject_overlaps-All read writes (ground (arith, e, n)) (ground (arith, n)),
)

pub reject_mixed-All :
    (reads writes : List Utf8PathBuf)
    → reject_mixed_mode_overlaps reads writes ≡ ok tt
    → All (λ read. reject_overlaps_of read writes ≡ ok tt) reads
unfolding reject_mixed_mode_overlaps
reject_mixed-All [] writes e = tt
reject_mixed-All (read ∷ reads) writes e =
    (ground (arith, e), reject_mixed-All reads writes (ground (arith, e)))
