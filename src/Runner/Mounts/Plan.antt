-- ===== src/Runner/Mounts/Plan.antt =====
-- The whole mount plan.
use task_fence.Prelude.{
  String, ◌≡◌, refl, sym, subst, false, inl, inr, Option, none, some, AllSome, List, [], ◌∷◌, ◌++◌,
  All, All-append, All-weaken,
}
use task_fence.Core.Error.{ok, bind-eq-ok, ok_injective}
use task_fence.Core.Task.{Utf8PathBuf, ResolvedTask}
use task_fence.Core.Event.{read_only, read_write, MountPlan}
use task_fence.Runner.Mounts.{
  DockerRunner, overlap, difference, reject_mixed_mode_overlaps, validate_workspace_path,
  collect_paths, spool_path, mounts_of, spool_mount, build_mount_plan,
}
use task_fence.Runner.Mounts.Lists.{sort_mounts-All, mounts_of-All}
use task_fence.Runner.Mounts.Safe.{
  IsPermitted, IsPermittedMount, AreApart, IsSpool, Readable, Writable, IsApart, collect-All,
  listed-All, spool_path-IsSpool, reads-All,
}

abbrev pub ArePlansApart : MountPlan → MountPlan → Type 0
ArePlansApart a b = AreApart a.mode b.mode a.host_path b.host_path

module _ (docker : DockerRunner) (debug : String → String) (t : ResolvedTask)
    (reads writes : List Utf8PathBuf) (spool : Option Utf8PathBuf) (ro wr : List MountPlan)
    (readable : All
      (λ p. Readable docker debug t p × IsApart docker debug t writes spool p)
      (difference reads writes))
    (writable : All (Writable docker debug t) writes)
    (is_spool : AllSome (IsSpool docker debug t reads writes) spool)
    (ro_mounts : mounts_of docker t read_only (difference reads writes) ≡ ok ro)
    (wr_mounts : mounts_of docker t read_write writes ≡ ok wr) where
  abbrev mounts : List MountPlan
  mounts = ro ++ wr ++ spool_mount docker spool

  ro-All :
      All
        (λ m.
          (m.mode ≡ read_only)
          × (Readable docker debug t m.host_path × IsApart docker debug t writes spool m.host_path))
        ro
  ro-All = mounts_of-All docker _ t read_only (difference reads writes) ro readable ro_mounts

  spool_mount-All :
      (P : MountPlan → Type 0) (o : Option Utf8PathBuf)
      → ((m : MountPlan) → m.mode ≡ read_write → AllSome (λ s. s ≡ m.host_path) o → P m)
      → All P (spool_mount docker o)
  spool_mount-All P none f = tt
  spool_mount-All P (some s) f = (f _ refl refl, tt)

  spool-IsPermitted :
      (o : Option Utf8PathBuf)
      → AllSome (IsSpool docker debug t reads writes) o
      → All (IsPermittedMount docker debug t) (spool_mount docker o)
  spool-IsPermitted none s = tt
  spool-IsPermitted (some p) s = ((s.0, inr (s.1, s.2)), tt)

  mounts-AllPermitted : All (IsPermittedMount docker debug t) mounts
  mounts-AllPermitted =
      All-append _ (ro ++ wr) _
        (All-append _ ro wr
          (All-weaken _ _ ro
            (λ m (mode, ((mountable, listed), apart)).
              (mountable, subst (λ k. IsPermitted debug t k m.host_path) (sym mode) listed))
            ro-All)
          (All-weaken _ _ wr
            (λ m (mode, (mountable, listed)).
              (mountable, subst (λ k. IsPermitted debug t k m.host_path) (sym mode) (inl listed)))
            (mounts_of-All docker _ t read_write writes wr writable wr_mounts)))
        (spool-IsPermitted spool is_spool)

  spool_apart :
      (a : Utf8PathBuf) (o : Option Utf8PathBuf)
      → AllSome (λ s. overlap a s ≡ false) o
      → All (λ b. AreApart read_only b.mode a b.host_path) (spool_mount docker o)
  spool_apart a none h = tt
  spool_apart a (some s) h = (h, tt)

  -- A read-only mount is apart from all mounts.
  read_only-AllApart :
      (a : Utf8PathBuf)
      → IsApart docker debug t writes spool a
      → All (λ b. AreApart read_only b.mode a b.host_path) mounts
  read_only-AllApart a (apart, free) =
      All-append _ (ro ++ wr) _
        (All-append _ ro wr
          (All-weaken _ _ ro
            (λ m (mode, h). subst (λ k. AreApart read_only k a m.host_path) (sym mode) tt) ro-All)
          (All-weaken _ _ wr
            (λ m (mode, h). subst (λ k. AreApart read_only k a m.host_path) (sym mode) h)
            (mounts_of-All docker _ t read_write writes wr apart wr_mounts)))
        (spool_apart a spool free)

  read_write-AllApart :
      (ms : List MountPlan) (a : MountPlan) → a.mode ≡ read_write → All (ArePlansApart a) ms
  read_write-AllApart [] a e = tt
  read_write-AllApart (m ∷ ms) a e = (
    subst (λ k. AreApart k m.mode a.host_path m.host_path) (sym e) tt,
    read_write-AllApart ms a e,
  )

  mounts-AllApart : All (λ a. All (ArePlansApart a) mounts) mounts
  mounts-AllApart =
      All-append _ (ro ++ wr) _
        (All-append _ ro wr
          (All-weaken _ _ ro
            (λ m (mode, (readable, apart)).
              subst (λ k. All (λ b. AreApart k b.mode m.host_path b.host_path) mounts) (sym mode)
                (read_only-AllApart m.host_path apart))
            ro-All)
          (All-weaken _ _ wr (λ m (mode, h). read_write-AllApart mounts m mode)
            (mounts_of-All docker _ t read_write writes wr writable wr_mounts)))
        (spool_mount-All _ spool (λ m mode s. read_write-AllApart mounts m mode))

-- Every mount of a plan is of a path inside the workspace that is absolute, has no `..`, is not itself
-- named as Docker's socket (/var/run/docker.sock, /run/docker.sock or an end of /docker.sock, in any
-- case of letters), and is neither at, around or inside the socket of the SSH agent nor at or around the
-- home directory; a directory around Docker's socket is not excluded. A read-only mount is of a path that the task may read, a writable one of a path that it may
-- write or of the gateway's spool, which only a task that needs it has. No read-only mount lies inside
-- or around a writable one.
pub build_mount_plan-AllPermitted :
    (docker : DockerRunner) (debug : String → String) (t : ResolvedTask) (ms : List MountPlan)
    → build_mount_plan docker debug t ≡ ok ms
    → All (IsPermittedMount docker debug t) ms × All (λ a. All (ArePlansApart a) ms) ms
unfolding build_mount_plan
build_mount_plan-AllPermitted docker debug t ms e =
    let (u, workspace, e0) = bind-eq-ok (validate_workspace_path t.workspace_host_path) _ e in
    let (reads, read, e1) = bind-eq-ok (collect_paths docker t [] t.permissions.paths.read) _ e0 in
    let (writes, written, e2) =
      bind-eq-ok (collect_paths docker t [] t.permissions.paths.write) _ e1 in
    let (v, mixed, e3) = bind-eq-ok (reject_mixed_mode_overlaps reads writes) _ e2 in
    let (spool, spooled, e4) = bind-eq-ok (spool_path docker debug t reads writes) _ e3 in
    let (ro, ro_mounts, e5) =
      bind-eq-ok (mounts_of docker t read_only (difference reads writes)) _ e4 in
    let (wr, wr_mounts, e6) = bind-eq-ok (mounts_of docker t read_write writes) _ e5 in
    let is_spool = spool_path-IsSpool docker debug t reads writes spool spooled in
    let readable =
      reads-All docker debug t reads writes spool
        (collect-All docker debug t _ [] t.permissions.paths.read reads tt
          (listed-All docker debug t t.permissions.paths.read) read)
        mixed is_spool in
    let writable =
      collect-All docker debug t _ [] t.permissions.paths.write writes tt
        (listed-All docker debug t t.permissions.paths.write) written in
    let base =
      mounts docker debug t reads writes spool ro wr readable writable is_spool ro_mounts
        wr_mounts in
    let permitted =
      mounts-AllPermitted docker debug t reads writes spool ro wr readable writable is_spool
        ro_mounts wr_mounts in
    let apart =
      mounts-AllApart docker debug t reads writes spool ro wr readable writable is_spool ro_mounts
        wr_mounts in
    subst (λ l. All (IsPermittedMount docker debug t) l × All (λ a. All (ArePlansApart a) l) l)
      (ok_injective e6)
      (
        sort_mounts-All _ base permitted,
        sort_mounts-All _ base
            (All-weaken _ _ base (λ a h. sort_mounts-All (ArePlansApart a) base h) apart),
      )
