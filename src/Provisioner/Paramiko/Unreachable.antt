-- ===== src/Provisioner/Paramiko/Unreachable.antt =====
-- A host that `SSHProvisioner` of n2vc/provisioner.py cannot reach.
use n2vc.Prelude.{false, List, ◌≡◌, refl, ℕ, zero, suc, ◌+◌, none, some, arith, [], ◌∷◌, ◌++◌}
use n2vc.Prelude.Exec.{Result, ok, err, pure, raise, continue, handled, ◌>>◌}
use n2vc.Exception.{unbound_local}
use n2vc.Text.{Text, codes, Unicode}
use n2vc.Provisioner.Ssh.Boot.{longest, longest_all}
use n2vc.Provisioner.Paramiko.{
  Failure, no_valid_connections, no_route_to_host, Step, Host, State, Op, call, recorded,
  connect_loop, get_ssh_client, raised, close_bound, using, opened, run_command, renamed,
}
use n2vc.Provisioner.Paramiko.Counts.{total, total-snoc}
use n2vc.Provisioner.Paramiko.Provisioning.{
  run_configure_script, remove_and_close, close_if, check_sudo, init_ubuntu_user, provision_machine,
}

-- The seconds that a step sleeps.
unfoldable pub seconds : Step → ℕ
seconds (Step.sleep n) = n
seconds e = 0

-- Every connection is refused; the private key is read, and no sleep is cancelled.
pub record IsUnreachable (host : Host) : Type 0 where
  pub refuses :
      (h : List Step) (n : ℕ) (user : Text)
      → host.fails h (Step.connect n user) ≡ some no_valid_connections
  pub sleeps : (h : List Step) (n : ℕ) → host.fails h (Step.sleep n) ≡ none
  pub key : host.private_key ≡ none

-- An action ends with an exception, and has slept that long.
abbrev pub Refused :
    (x : Failure) (k : ℕ) (s : State) {A : Type 0} → Result Failure A × State → Type 0
Refused x k s (ok a, t) = ⊥
Refused x k s (err y, t) = (y ≡ x) × (total seconds t.history ≡ total seconds s.history + k)

-- What stands behind an action that ends so is not run.
then-Refused :
    (x : Failure) (k : ℕ) {A B : Type 0} (s : State) (r : Result Failure A × State) (f : A → Op B)
    → Refused x k s r
    → Refused x k s (continue r f)
then-Refused x k s (ok a, t) f h = absurd h
then-Refused x k s (err y, t) f h = h

-- Seconds that were slept before.
earlier :
    (x : Failure) (j k : ℕ) {A : Type 0} (s t : State) (r : Result Failure A × State)
    → total seconds t.history ≡ total seconds s.history + j
    → Refused x k t r
    → Refused x (j + k) s r
earlier x j k s t (ok a, v) e h = h
earlier x j k s t (err y, v) e h = (h.0, omega (arith, e, h.1))

refused_slept :
    (s : State) (n : ℕ) (user : Text)
    → total seconds (recorded (Step.connect n user) s).history ≡ total seconds s.history + 0
unfolding seconds
refused_slept s n user = total-snoc seconds s.history (Step.connect n user)

slept_then :
    (s : State) (n : ℕ)
    → total seconds (recorded (Step.sleep n) s).history ≡ total seconds s.history + n
unfolding seconds
slept_then s n = total-snoc seconds s.history (Step.sleep n)

made_slept :
    (s : State) → total seconds (s.history ++ Step.new_client ∷ []) ≡ total seconds s.history + 0
unfolding seconds
made_slept s = total-snoc seconds s.history Step.new_client

module _ ⦃u : Unicode⦄ (host : Host) (h : IsUnreachable host) where
  connect_loop-Refused :
      (left delay n : ℕ) (user : Text) (s : State)
      → Refused no_valid_connections
          (longest (suc left) delay)
          s
          (connect_loop host (suc left) (call host (Step.connect n user)) delay s)
  unfolding connect_loop call longest
  connect_loop-Refused zero delay n user s =
      rw (h.refuses s.history n user) (refl, refused_slept s n user)
  connect_loop-Refused (suc left) delay n user s = rw (h.refuses s.history n user) (
      rw (h.sleeps (s.history ++ Step.connect n user ∷ []) delay) (
        earlier no_valid_connections delay (longest (suc left) (delay + 15)) s t
          (connect_loop host (suc left) (call host (Step.connect n user)) (delay + 15) t)
          (omega
            (arith, slept_then (recorded (Step.connect n user) s) delay, refused_slept s n user))
          (connect_loop-Refused left (delay + 15) n user t)))
    where
      t : State
      t = recorded (Step.sleep delay) (recorded (Step.connect n user) s)

  get_ssh_client-Refused :
      (user : Text) (s : State) → Refused no_valid_connections 825 s (get_ssh_client host user s)
  unfolding get_ssh_client
  get_ssh_client-Refused user s = rw h.key (
      then-Refused no_valid_connections 825 s
        (connect_loop host 11 (call host (Step.connect s.clients user)) 15 made) _
        (earlier no_valid_connections 0 825 s made
          (connect_loop host 11 (call host (Step.connect s.clients user)) 15 made) (made_slept s)
          (rw⁻¹ longest_all (connect_loop-Refused 10 15 s.clients user made))))
    where
      made : State
      made = record { history = s.history ++ Step.new_client ∷ []; clients = suc s.clients }

  -- `_init_ubuntu_user` renames the exception, and closes nothing.
  check_sudo-Refused : (s : State) → Refused no_route_to_host 825 s (check_sudo host s)
  unfolding check_sudo using renamed close_if
  check_sudo-Refused s = go (get_ssh_client host host.user s) (get_ssh_client-Refused host.user s)
    where
      go :
          (r : Result Failure ℕ × State)
          → Refused no_valid_connections 825 s r
          → Refused no_route_to_host 825 s (
              handled
                (opened host r
                  (λ ssh. run_command host ssh (codes "sudo -n true") false >> pure ssh)
                  (close_if host))
                (λ x. raise (renamed x)))
      go (ok n, t) e = absurd e
      go (err x, t) e = rw e.0 (refl, e.1)

  -- A machine that refuses every connection is given up: provisioning ends with NoRouteToHost, after
  -- 825 seconds of sleep.
  pub provision_machine-Refused :
      (s : State) → Refused no_route_to_host 825 s (provision_machine host s)
  unfolding provision_machine init_ubuntu_user
  provision_machine-Refused s =
      then-Refused no_route_to_host 825 s (init_ubuntu_user host s) _
        (then-Refused no_route_to_host 825 s (check_sudo host s) _ (check_sudo-Refused s))

  -- The exception of a script that cannot be copied is lost: `finally` reads `ssh`, which is unbound.
  run_configure_script_unbound :
      (script : Text) (s : State)
      → ((e : Text) (t : List Step) → host.fails t (Step.write_file e) ≡ none)
      → ((e : Text) (t : List Step) → host.fails t (Step.remove_file e) ≡ none)
      → (run_configure_script host script s).0 ≡ err (raised unbound_local)
  unfolding run_configure_script using call remove_and_close close_bound
  run_configure_script_unbound script s w d =
      rw (w path s.history)
        (go _ (get_ssh_client host (codes "ubuntu") t) (get_ssh_client-Refused (codes "ubuntu") t))
    where
      path : Text
      path = host.temporary s.history

      t : State
      t = recorded (Step.write_file path) s

      go :
          (body : ℕ → Op (Unit {0})) (r : Result Failure ℕ × State)
          → Refused no_valid_connections 825 t r
          → (opened host r body (remove_and_close host path)).0 ≡ err (raised unbound_local)
      go body (ok n, v) e = absurd e
      go body (err x, v) e = rw (d path v.history) refl
