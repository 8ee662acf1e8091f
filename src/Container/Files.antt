-- ===== src/Container/Files.antt =====
-- container.py: the calls that no other part uses: attach, a shell command, and copies in and out.
use termiclaw.Prelude.{Text, codes, [], ◌∷◌, ◌++◌}
use termiclaw.Action.{Action, pure, ◌>>◌}
use termiclaw.Container.Process.{Host, dx, run_free, run_as, bare}

module _ {W : Type 0} (h : Host W) where
  unfoldable attach : Text → Text → Action W (Unit {0})
  attach container_id session_name =
      run_free h (
        codes "docker"
        ∷ codes "exec"
        ∷ codes "-it"
        ∷ container_id
        ∷ codes "tmux"
        ∷ codes "attach-session"
        ∷ codes "-t"
        ∷ session_name
        ∷ [])
      >> pure tt

  unfoldable exec_in_container : Text → Text → Action W Text
  exec_in_container container_id cmd =
      run_as h (bare h) (dx container_id ++ (codes "bash" ∷ codes "-c" ∷ cmd ∷ []))

  unfoldable copy_in : Text → Text → Text → Action W (Unit {0})
  copy_in container_id src dst =
      run_as h (bare h)
        (codes "docker" ∷ codes "cp" ∷ src ∷ (container_id ++ (codes ":" ++ dst)) ∷ [])
      >> pure tt

  unfoldable copy_out : Text → Text → Text → Action W (Unit {0})
  copy_out container_id src dst =
      run_as h (bare h)
        (codes "docker" ∷ codes "cp" ∷ (container_id ++ (codes ":" ++ src)) ∷ dst ∷ [])
      >> pure tt
