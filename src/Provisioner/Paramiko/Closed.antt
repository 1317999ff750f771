-- ===== src/Provisioner/Paramiko/Closed.antt =====
-- The clients that `SSHProvisioner` of n2vc/provisioner.py makes and closes.
use n2vc.Prelude.{◌≡◌, refl, ℕ, Bool, false, ◌+◌}
use n2vc.Prelude.Exec.{Result, ok, err}
use n2vc.Text.{Text, Unicode}
use n2vc.Provisioner.Hardware.{detect_resolved}
use n2vc.Provisioner.Ssh.{machine_of}
use n2vc.Provisioner.Paramiko.{Failure, Step, Host, State, renamed, close_client, close_bound}
use n2vc.Provisioner.Paramiko.Counts.{
  total, Gives, Returning, pure-Adds, or_raise-Adds, lift-Adds, bind-Adds, bind-Gives, Adds-Gives,
  then-Gives, renamed-Gives,
}
use n2vc.Provisioner.Paramiko.Counted.{
  close_client-Adds, run_command-Adds, run_script-Adds, using-Gives,
}
use n2vc.Provisioner.Paramiko.Provisioning.{
  close_if, check_sudo, close_or, init_ubuntu_user, provision_machine,
}

-- The steps that make a client, and those that close one.
unfoldable pub makes : Step → ℕ
makes Step.new_client = 1
makes e = 0

unfoldable pub closes : Step → ℕ
closes (Step.close n) = 1
closes e = 0

-- Weights that count clients and closes only.
record CountsClients (w : Step → ℕ) : Type 0 where
  sleeps : (n : ℕ) → w (Step.sleep n) ≡ 0
  connections : (n : ℕ) (user : Text) → w (Step.connect n user) ≡ 0
  commands : (n : ℕ) (c : Text) (b : Bool) → w (Step.exec_command n c b) ≡ 0
  closings : (n : ℕ) → w (Step.close n) ≡ w (Step.close 0)

makes-CountsClients : CountsClients makes
unfolding makes
makes-CountsClients = record {
  sleeps = λ n. refl;
  connections = λ n c. refl;
  commands = λ n c b. refl;
  closings = λ n. refl;
}

closes-CountsClients : CountsClients closes
unfolding closes
closes-CountsClients = record {
  sleeps = λ n. refl;
  connections = λ n c. refl;
  commands = λ n c b. refl;
  closings = λ n. refl;
}

module _ ⦃u : Unicode⦄ (host : Host) {w : Step → ℕ} (c : CountsClients w) where
  abbrev one : ℕ
  one = w Step.new_client + w (Step.close 0)

  closing : (n : ℕ) → Gives w (w (Step.close 0)) (close_client host n)
  closing n = rw⁻¹ (c.closings n) (Adds-Gives (close_client-Adds host w n))

  check_sudo-Gives : Gives w one (check_sudo host)
  unfolding check_sudo close_if
  check_sudo-Gives = renamed-Gives renamed (
      using-Gives host w c.sleeps c.connections host.user _ _ (w (Step.close 0))
        (λ ssh.
          Adds-Gives
            (bind-Adds (run_command-Adds host w c.commands ssh _ false) λ _. pure-Adds ssh))
        closing)

  init_ubuntu_user-Gives : Gives w (one + one) (init_ubuntu_user host)
  unfolding init_ubuntu_user
  init_ubuntu_user-Gives = bind-Gives check_sudo-Gives λ first.
      then-Gives (or_raise-Adds _ host.public_key) λ key.
        using-Gives host w c.sleeps c.connections host.user _ (close_or host first)
          (w (Step.close 0))
          (λ ssh.
            Adds-Gives (bind-Adds (run_script-Adds host w c.commands ssh _) λ _. pure-Adds tt))
          closing

  provision_machine-Gives : Gives w (one + one + one) (provision_machine host)
  unfolding provision_machine close_bound
  provision_machine-Gives = bind-Gives init_ubuntu_user-Gives λ _.
      using-Gives host w c.sleeps c.connections host.user _ (close_bound host) (w (Step.close 0))
        (λ ssh. Adds-Gives (
          bind-Adds (run_script-Adds host w c.commands ssh host.detection) λ out.
            bind-Adds (lift-Adds (detect_resolved out))
              λ info. lift-Adds (machine_of host.host host.new_uuid info)))
        closing

-- Where an action returns, it has made and closed as many clients as it should.
abbrev pub Balanced : (k : ℕ) (s : State) {A : Type 0} → Result Failure A × State → Type 0
Balanced k s (ok a, t) =
    (total makes t.history ≡ total makes s.history + k)
    × (total closes t.history ≡ total closes s.history + k)
Balanced k s (err x, t) = Unit

both :
    (k : ℕ) (s : State) {A : Type 0} (r : Result Failure A × State)
    → Returning makes k s r
    → Returning closes k s r
    → Balanced k s r
both k s (ok a, t) d e = (d, e)
both k s (err x, t) d e = tt

-- Where a machine is provisioned, the three ssh clients that this took are closed as often as made.
pub provision_machine-Balanced :
    ⦃u : Unicode⦄ (host : Host) (s : State) → Balanced 3 s (provision_machine host s)
unfolding makes closes
provision_machine-Balanced host s =
    both 3 s (provision_machine host s) ((provision_machine-Gives host makes-CountsClients).at s)
      ((provision_machine-Gives host closes-CountsClients).at s)
