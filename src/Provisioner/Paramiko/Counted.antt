-- ===== src/Provisioner/Paramiko/Counted.antt =====
-- The steps that the connections and the commands of `SSHProvisioner` in n2vc/provisioner.py take.
use n2vc.Prelude.{
  ◌≡◌, ℕ, zero, suc, ◌+◌, Bool, true, false, none, some, List, [], ◌∷◌, ◌++◌, Option, arith,
}
use n2vc.Prelude.Exec.{Result, ok, err, pure, ended, ◌>>◌}
use n2vc.Text.{Text, codes, Unicode}
use n2vc.Text.Split.{join}
use n2vc.Helm.Output.{strip}
use n2vc.Provisioner.Paramiko.{
  Failure, banner, ssh_exception, authentication, no_valid_connections, authentication_failed,
  no_route_to_host, raised, Step, Host, State, Op, status, again, connect_failed, connect_loop,
  call, close_client, get_ssh_client, opened, using, run_words, run_command, run_script, read_key,
}
use n2vc.Provisioner.Paramiko.Counts.{
  total, total-snoc, Adds, Gives, Returning, pure-Adds, raise-Adds, bind-Adds, catch-Adds,
  finally-Adds, finally-Gives,
}

module _ ⦃u : Unicode⦄ (host : Host) (w : Step → ℕ) where
  pub call-Adds : (e : Step) → Adds w (w e) (call host e)
  unfolding call
  call-Adds e = record { at = λ s. total-snoc w s.history e }

  pub close_client-Adds : (n : ℕ) → Adds w (w (Step.close n)) (close_client host n)
  unfolding close_client
  close_client-Adds n = record { at = λ s. total-snoc w s.history (Step.close n) }

  -- Steps that are not counted.
  pub uncounted : (e : Step) → w e ≡ 0 → Adds w 0 (call host e)
  uncounted e h = rw⁻¹ h (call-Adds e)

  again-Adds : (left : ℕ) (x : Failure) {k : Op (Unit {0})} → Adds w 0 k → Adds w 0 (again left x k)
  again-Adds zero x h = raise-Adds x
  again-Adds (suc left) x h = h

  module _ (sleeps : (n : ℕ) → w (Step.sleep n) ≡ 0) where
    connect_failed-Adds :
        (left delay : ℕ) {m : Op (Unit {0})} {rest : ℕ → Op (Unit {0})}
        → Adds w 0 m
        → ((d : ℕ) → Adds w 0 (rest d))
        → (x : Failure) → Adds w 0 (connect_failed host left delay m rest x)
    connect_failed-Adds left delay h k banner = bind-Adds h λ _. k delay
    connect_failed-Adds left delay h k ssh_exception = raise-Adds ssh_exception
    connect_failed-Adds left delay h k authentication = raise-Adds authentication
    connect_failed-Adds left delay h k no_valid_connections =
        again-Adds left no_valid_connections
          (bind-Adds (uncounted (Step.sleep delay) (sleeps delay)) λ _. k (delay + 15))
    connect_failed-Adds left delay h k authentication_failed = raise-Adds authentication_failed
    connect_failed-Adds left delay h k no_route_to_host = raise-Adds no_route_to_host
    connect_failed-Adds left delay h k (raised x) = raise-Adds (raised x)

    connect_loop-Adds :
        (left : ℕ) {m : Op (Unit {0})}
        → Adds w 0 m
        → (delay : ℕ) → Adds w 0 (connect_loop host left m delay)
    unfolding connect_loop
    connect_loop-Adds zero h delay = pure-Adds tt
    connect_loop-Adds (suc left) {m} h delay =
        catch-Adds h (connect_failed-Adds left delay h (connect_loop-Adds left h))

  status-Adds : (b : Bool) (out : Text) → Adds w 0 (status b out)
  status-Adds true out = pure-Adds out
  status-Adds false out = raise-Adds _

  -- A command, where commands are not counted.
  module _ (commands : (n : ℕ) (c : Text) (b : Bool) → w (Step.exec_command n c b) ≡ 0) where
    pub run_words-Adds :
        (n : ℕ) (cmd : List Text) (pty : Bool) → Adds w 0 (run_words host n cmd pty)
    unfolding run_words
    run_words-Adds n cmd pty = record {
      at = λ s.
          (bind-Adds (uncounted (Step.exec_command n (join b' ' cmd) pty) (commands n _ pty))
              (λ _. status-Adds (host.succeeds s.history) (strip (host.stdout s.history)))).at
            s;
    }

    pub run_command-Adds : (n : ℕ) (cmd : Text) (pty : Bool) → Adds w 0 (run_command host n cmd pty)
    unfolding run_command
    run_command-Adds n cmd pty = run_words-Adds n (host.shlex_split cmd) pty

    pub run_script-Adds : (n : ℕ) (script : Text) → Adds w 0 (run_script host n script)
    unfolding run_script
    run_script-Adds n script =
        run_words-Adds n (codes "sudo" ∷ (codes "/bin/bash -c " ++ host.shlex_quote script) ∷ [])
          true

  read_key-Adds : Adds w 0 (read_key host)
  read_key-Adds = record { at = λ s. omega arith }

  module _ (sleeps : (n : ℕ) → w (Step.sleep n) ≡ 0)
      (connections : (n : ℕ) (user : Text) → w (Step.connect n user) ≡ 0) where
    with_client :
        (user : Text) (n : ℕ)
        → Adds w 0
            (read_key host >> (connect_loop host 11 (call host (Step.connect n user)) 15 >> pure n))
    with_client user n = bind-Adds read_key-Adds λ _.
        bind-Adds (connect_loop-Adds sleeps 11 (uncounted _ (connections n user)) 15)
          λ _. pure-Adds n

    -- One client, whether it connects or not.
    pub get_ssh_client-Adds : (user : Text) → Adds w (w Step.new_client) (get_ssh_client host user)
    unfolding get_ssh_client
    get_ssh_client-Adds user = record {
      at = λ s. omega (
        arith,
        total-snoc w s.history Step.new_client,
        (with_client user s.clients).at
            (record { history = s.history ++ Step.new_client ∷ []; clients = suc s.clients }),
      );
    }

    module _ {A : Type 0} (user : Text) (body : ℕ → Op A) (cleanup : Option ℕ → Op (Unit {0})) where
      -- However it ends.
      pub using-Adds :
          (k : ℕ)
          → w Step.new_client ≡ 0
          → ((n : ℕ) → Adds w 0 (body n))
          → ((o : Option ℕ) → Adds w k (cleanup o))
          → Adds w k (using host user body cleanup)
      unfolding using
      using-Adds k h b c = record {
        at = λ s. go s (get_ssh_client host user s) ((get_ssh_client-Adds user).at s);
      }
        where
          go :
              (s : State) (r : Result Failure ℕ × State)
              → total w r.1.history ≡ total w s.history + w Step.new_client
              → total w (opened host r body cleanup).1.history ≡ total w s.history + k
          go s (ok n, t) e = omega (arith, h, e, (finally-Adds (b n) (c (some n))).at t)
          go s (err x, t) e =
              omega (arith, h, e, (finally-Adds (raise-Adds {A = A} x) (c none)).at t)

      -- Where it returns, a client was opened.
      pub using-Gives :
          (k : ℕ)
          → ((n : ℕ) → Gives w 0 (body n))
          → ((n : ℕ) → Gives w k (cleanup (some n)))
          → Gives w (w Step.new_client + k) (using host user body cleanup)
      unfolding using
      using-Gives k b c = record {
        at = λ s. go s (get_ssh_client host user s) ((get_ssh_client-Adds user).at s);
      }
        where
          -- nothing returns after an exception
          failed :
              (s : State) (x : Failure) (r : Result Failure (Unit {0}) × State)
              → Returning w (w Step.new_client + k) s (ended {A = A} (err x) r)
          failed s x (ok a, t) = tt
          failed s x (err y, t) = tt

          moved :
              (s t : State)
              → total w t.history ≡ total w s.history + w Step.new_client
              → (r : Result Failure A × State) → Returning w (0 + k) t r
              → Returning w (w Step.new_client + k) s r
          moved s t e (ok a, v) d = omega (arith, e, d)
          moved s t e (err x, v) d = tt

          go :
              (s : State) (r : Result Failure ℕ × State)
              → total w r.1.history ≡ total w s.history + w Step.new_client
              → Returning w (w Step.new_client + k) s (opened host r body cleanup)
          go s (ok n, t) e = moved s t e _ ((finally-Gives (b n) (c n)).at t)
          go s (err x, t) e = failed s x (cleanup none t)
