-- ===== src/Provisioner/Paramiko/Removed.antt =====
-- The temporary files of `_run_configure_script` of `SSHProvisioner` in n2vc/provisioner.py.
use n2vc.Prelude.{◌≡◌, refl, ℕ, ◌+◌, Bool, true, Option, none, some, ◌++◌, if◌then◌else◌, arith}
use n2vc.Prelude.Exec.{◌>>◌, continue, pure}
use n2vc.Text.{Text, codes, text_eq, text_eq_iff, Unicode}
use n2vc.Provisioner.Paramiko.{
  Failure, Step, Host, State, Op, ends, call, close_bound, using, run_command, recorded,
}
use n2vc.Provisioner.Paramiko.Counts.{total, total-snoc, Adds, pure-Adds, raise-Adds, bind-Adds}
use n2vc.Provisioner.Paramiko.Counted.{uncounted, close_client-Adds, run_command-Adds, using-Adds}
use n2vc.Provisioner.Paramiko.Provisioning.{remove_and_close, run_configure_script}

-- The steps that remove one file, and those that write it.
unfoldable pub removes : Text → Step → ℕ
removes path (Step.remove_file p) = if text_eq p path then 1 else 0
removes path e = 0

unfoldable pub writes : Text → Step → ℕ
writes path (Step.write_file p) = if text_eq p path then 1 else 0
writes path e = 0

-- How often the script is written and removed when it ends: as often, however it ends.
abbrev pub OnceMore : (w : Step → ℕ) (s t : State) → Type 0
OnceMore w s t = total w t.history ≡ total w s.history + 1

record CountsFile (w : Step → ℕ) : Type 0 where
  sleeps : (n : ℕ) → w (Step.sleep n) ≡ 0
  connections : (n : ℕ) (user : Text) → w (Step.connect n user) ≡ 0
  commands : (n : ℕ) (c : Text) (b : Bool) → w (Step.exec_command n c b) ≡ 0
  copies : (n : ℕ) (p : Text) → w (Step.put n p) ≡ 0
  closings : (n : ℕ) → w (Step.close n) ≡ 0
  clients : w Step.new_client ≡ 0

module _ ⦃u : Unicode⦄ (host : Host) {w : Step → ℕ} (c : CountsFile w) where
  close_bound-Adds : (o : Option ℕ) → Adds w 0 (close_bound host o)
  unfolding close_bound
  close_bound-Adds none = raise-Adds _
  close_bound-Adds (some n) = rw⁻¹ (c.closings n) (close_client-Adds host w n)

  -- The call is made, whether it fails or not.
  remove_and_close-Adds :
      (path : Text) (o : Option ℕ)
      → Adds w (w (Step.remove_file path)) (remove_and_close host path o)
  unfolding remove_and_close call
  remove_and_close-Adds path o = record {
    at = λ s. go s (host.fails s.history (Step.remove_file path));
  }
    where
      go :
          (s : State) (f : Option Failure)
          → total w
              (continue
                (ends f tt, recorded (Step.remove_file path) s)
                (λ _. close_bound host o)).1.history
            ≡ total w s.history + w (Step.remove_file path)
      go s none = omega (
        arith,
        total-snoc w s.history (Step.remove_file path),
        (close_bound-Adds o).at (recorded (Step.remove_file path) s),
      )
      go s (some x) = total-snoc w s.history (Step.remove_file path)

  run_configure_script-Adds :
      (script : Text) (s : State)
      → host.fails s.history (Step.write_file (host.temporary s.history)) ≡ none
      → total w (run_configure_script host script s).1.history
        ≡ total w s.history
          + (w (Step.write_file (host.temporary s.history))
              + w (Step.remove_file (host.temporary s.history)))
  unfolding run_configure_script call
  run_configure_script-Adds script s h =
      rw h (omega (arith, total-snoc w s.history (Step.write_file path), copied-Adds.at written))
    where
      path : Text
      path = host.temporary s.history

      written : State
      written = recorded (Step.write_file path) s

      copied : ℕ → Op (Unit {0})
      copied ssh =
          call host (Step.put ssh path)
          >> (run_command host ssh (codes "sudo /bin/bash " ++ path) true >> pure tt)

      copied-Adds :
          Adds w
            (w (Step.remove_file path))
            (using host (codes "ubuntu") copied (remove_and_close host path))
      copied-Adds =
          using-Adds host w c.sleeps c.connections (codes "ubuntu") copied
            (remove_and_close host path) (w (Step.remove_file path)) c.clients
            (λ ssh. bind-Adds (uncounted host w (Step.put ssh path) (c.copies ssh path)) λ _.
              bind-Adds
                (run_command-Adds host w c.commands ssh (codes "sudo /bin/bash " ++ path) true)
                λ _. pure-Adds tt)
            (remove_and_close-Adds path)

writes-CountsFile : (path : Text) → CountsFile (writes path)
unfolding writes
writes-CountsFile path = record {
  sleeps = λ n. refl;
  connections = λ n c. refl;
  commands = λ n c b. refl;
  copies = λ n p. refl;
  closings = λ n. refl;
  clients = refl;
}

removes-CountsFile : (path : Text) → CountsFile (removes path)
unfolding removes
removes-CountsFile path = record {
  sleeps = λ n. refl;
  connections = λ n c. refl;
  commands = λ n c b. refl;
  copies = λ n p. refl;
  closings = λ n. refl;
  clients = refl;
}

writes_own : (path : Text) → writes path (Step.write_file path) ≡ 1
unfolding writes
writes_own path = rw ((text_eq_iff path path).1 refl) refl

removes_own : (path : Text) → removes path (Step.remove_file path) ≡ 1
unfolding removes
removes_own path = rw ((text_eq_iff path path).1 refl) refl

writes-remove_file : (path p : Text) → writes path (Step.remove_file p) ≡ 0
unfolding writes
writes-remove_file path p = refl

removes-write_file : (path p : Text) → removes path (Step.write_file p) ≡ 0
unfolding removes
removes-write_file path p = refl

-- Where the temporary file of the script can be written, it is written once and removed once,
-- however the copy and the run of the script end.
pub run_configure_script-Removed :
    ⦃u : Unicode⦄ (host : Host) (script : Text) (s : State)
    → host.fails s.history (Step.write_file (host.temporary s.history)) ≡ none
    → OnceMore (writes (host.temporary s.history)) s (run_configure_script host script s).1
      × OnceMore (removes (host.temporary s.history)) s (run_configure_script host script s).1
run_configure_script-Removed host script s h = (
  omega (
    arith,
    run_configure_script-Adds host (writes-CountsFile path) script s h,
    writes_own path,
    writes-remove_file path path,
  ),
  omega (
    arith,
    run_configure_script-Adds host (removes-CountsFile path) script s h,
    removes_own path,
    removes-write_file path path,
  ),
)
  where
    path : Text
    path = host.temporary s.history
