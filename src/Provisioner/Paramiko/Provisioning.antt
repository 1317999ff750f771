-- ===== src/Provisioner/Paramiko/Provisioning.antt =====
-- The operations of `SSHProvisioner` in n2vc/provisioner.py on a machine and its agent.
use n2vc.Prelude.{◌++◌, ℕ, zero, suc, ◌+◌, true, false, Option, none, some}
use n2vc.Prelude.Exec.{ok, pure, raise, ◌>>=◌, ◌>>◌, ◌catch◌}
use n2vc.Exception.{file_not_found, attribute_error}
use n2vc.Text.{Text, codes, Unicode}
use n2vc.Provisioner.Hardware.{detect_resolved}
use n2vc.Provisioner.Ssh.{Machine, machine_of, find_address}
use n2vc.Provisioner.Paramiko.{
  Step, Host, Op, or_raise, lift, again, renamed, call, close_client, run_command, run_script,
  close_bound, using,
}

module _ ⦃u : Unicode⦄ (host : Host) where
  -- `if ssh: ssh.close()`, with `ssh` first set to None
  unfoldable pub close_if : Option ℕ → Op (Unit {0})
  unfolding close_client
  close_if none = pure tt
  close_if (some n) = close_client host n

  -- The client of the first part of `_init_ubuntu_user`, which asks whether sudo needs a password.
  unfoldable pub check_sudo : Op ℕ
  unfolding using run_command close_if renamed
  check_sudo =
      using host host.user (λ ssh. run_command host ssh (codes "sudo -n true") false >> pure ssh)
        close_if
      catch λ x. raise (renamed x)

  -- Where no second client connects, `ssh` is still the first.
  abbrev pub close_or : ℕ → Option ℕ → Op (Unit {0})
  close_or first none = close_client host first
  close_or first (some n) = close_client host n

  unfoldable pub init_ubuntu_user : Op (Unit {0})
  unfolding check_sudo using run_script close_client
  init_ubuntu_user = do
    first ← check_sudo
    key ← or_raise file_not_found host.public_key
    using host host.user (λ ssh. run_script host ssh (host.initialize_ubuntu key) >> pure tt)
        (close_or first)

  unfoldable pub provision_machine : Op Machine
  unfolding init_ubuntu_user using run_script close_bound detect_resolved machine_of
  provision_machine = do
    init_ubuntu_user
    using host host.user
        (λ ssh. do
          stdout ← run_script host ssh host.detection
          info ← lift (detect_resolved stdout)
          lift (machine_of host.host host.new_uuid info))
        (close_bound host)

  abbrev pub mkstemp : Op Text
  mkstemp s = (ok (host.temporary s.history), s)

  -- The copy of the script is removed before the client is closed.
  unfoldable pub remove_and_close : Text → Option ℕ → Op (Unit {0})
  unfolding call close_bound
  remove_and_close path ssh = call host (Step.remove_file path) >> close_bound host ssh

  unfoldable pub run_configure_script : Text → Op (Unit {0})
  unfolding call using run_command remove_and_close
  run_configure_script script = do
    path ← mkstemp
    call host (Step.write_file path)
    using host (codes "ubuntu")
        (λ ssh. do
          call host (Step.put ssh path)
          run_command host ssh (codes "sudo /bin/bash " ++ path) true
          pure tt)
        (remove_and_close path)

  -- `while attempts <= retry`, whatever the exception
  unfoldable pub retry_loop : ℕ → ℕ → Op (Unit {0}) → Op (Unit {0})
  unfolding call
  retry_loop zero delay action = pure tt
  retry_loop (suc left) delay action =
      let rest = retry_loop left (delay + 15) action in
      action catch λ x. again left x (call host (Step.sleep delay) >> rest)

  unfoldable pub install_agent : Text → Op (Unit {0})
  unfolding call find_address retry_loop run_configure_script
  install_agent api = do
    call host Step.provisioning_script
    address ← or_raise attribute_error (find_address host.script)
    retry_loop 11 15 (run_configure_script (host.iptables address api))
    run_configure_script host.script
