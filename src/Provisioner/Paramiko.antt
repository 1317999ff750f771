-- ===== src/Provisioner/Paramiko.antt =====
-- `SSHProvisioner` of n2vc/provisioner.py. The libraries and the machine answer as a `Host` says.
pub mod Closed
pub mod Counted
pub mod Counts
pub mod Provisioning
pub mod Removed
pub mod Unreachable
use n2vc.Prelude.{ℕ, zero, suc, ◌+◌, Bool, true, false, Option, none, some, List, [], ◌∷◌, ◌++◌}
use n2vc.Prelude.Exec.{Exec, Result, ok, err, pure, raise, ◌>>=◌, ◌>>◌, ◌catch◌, ◌finally◌}
use n2vc.Exception.{Exception, called_process, file_not_found, attribute_error, unbound_local}
use n2vc.Text.{Text, codes, Unicode}
use n2vc.Text.Split.{join}
use n2vc.Helm.Output.{strip}
use n2vc.Provisioner.Hardware.{detect_resolved}
use n2vc.Provisioner.Ssh.{Machine, machine_of, find_address}

pub data Failure : Type 0 where
  -- paramiko's SSHException "Error reading SSH protocol banner", any other, and its
  -- AuthenticationException
  banner ssh_exception authentication : Failure
  -- paramiko's NoValidConnectionsError, whose text is "Unable to connect to port ..."
  no_valid_connections : Failure
  -- n2vc/exceptions.py
  authentication_failed no_route_to_host : Failure
  -- any other exception, whose text does not hold "Unable to connect to port"
  raised : Exception → Failure

pub data Step : Type 0 where
  -- paramiko.SSHClient()
  new_client : Step
  -- by the number of the client
  connect : ℕ → Text → Step
  exec_command : ℕ → Text → Bool → Step
  put : ℕ → Text → Step
  close : ℕ → Step
  sleep : ℕ → Step
  write_file remove_file : Text → Step
  -- ClientFacade.ProvisioningScript
  provisioning_script : Step

-- How the calls end after those before, whether the status of a command is at most 0, and what it
-- wrote. And the values that the code reads.
pub record Host : Type 0 where
  pub fails : List Step → Step → Option Failure
  pub succeeds : List Step → Bool
  pub stdout : List Step → Text
  -- the name of a new temporary file
  pub temporary : List Step → Text
  -- how the private key is read
  pub private_key : Option Failure
  -- the first line of the public key, if its file exists
  pub public_key : Option Text
  -- results.script
  pub script : Text
  -- the scripts of the module, with what they are formatted with
  pub initialize_ubuntu : Text → Text
  pub detection : Text
  pub iptables : Text → Text → Text
  -- str(uuid.uuid4())
  pub new_uuid : Text
  -- shlex
  pub shlex_split : Text → List Text
  pub shlex_quote : Text → Text
  -- attributes of the object
  pub host : Text
  pub user : Text

pub record State : Type 0 where
  pub history : List Step
  pub clients : ℕ

abbrev pub Op : Type 0 → Type 0
Op A = Exec Failure State A

abbrev pub ends : {A : Type 0} → Option Failure → A → Result Failure A
ends none a = ok a
ends (some x) a = err x

abbrev pub recorded : Step → State → State
recorded e s = record s { history = s.history ++ e ∷ [] }

abbrev pub status : Bool → Text → Op Text
status true out = pure out
status false out = raise (raised called_process)

abbrev pub or_raise : {A : Type 0} → Exception → Option A → Op A
or_raise x none = raise (raised x)
or_raise x (some a) = pure a

abbrev pub lift : {A : Type 0} → Result Exception A → Op A
lift (ok a) = pure a
lift (err x) = raise (raised x)

-- `if attempts > retry: raise e`
abbrev pub again : {A : Type 0} → ℕ → Failure → Op A → Op A
again zero x rest = raise x
again (suc left) x rest = rest

-- The exceptions that `_init_ubuntu_user` renames.
unfoldable pub renamed : Failure → Failure
renamed authentication = authentication_failed
renamed no_valid_connections = no_route_to_host
renamed x = x

module _ ⦃u : Unicode⦄ (host : Host) where
  unfoldable pub call : Step → Op (Unit {0})
  call e s = (ends (host.fails s.history e) tt, recorded e s)

  -- close() raises nothing.
  unfoldable pub close_client : ℕ → Op (Unit {0})
  close_client n s = (ok tt, recorded (Step.close n) s)

  abbrev pub new_ssh_client : Op ℕ
  new_ssh_client s = (
    ok s.clients,
    record { history = s.history ++ Step.new_client ∷ []; clients = suc s.clients },
  )

  abbrev pub read_key : Op (Unit {0})
  read_key s = (ends host.private_key tt, s)

  -- What an exception of `connect` leads to, with the attempts that are left.
  abbrev pub connect_failed : ℕ → ℕ → Op (Unit {0}) → (ℕ → Op (Unit {0})) → Failure → Op (Unit {0})
  connect_failed left delay action rest banner = action >> rest delay
  connect_failed left delay action rest no_valid_connections =
      again left no_valid_connections (call (Step.sleep delay) >> rest (delay + 15))
  connect_failed left delay action rest x = raise x

  -- `while attempts <= retry`: a reconnection after a missing banner is followed by another round.
  unfoldable pub connect_loop : ℕ → Op (Unit {0}) → ℕ → Op (Unit {0})
  unfolding call
  connect_loop zero action delay = pure tt
  connect_loop (suc left) action delay =
      let rest = connect_loop left action in
      action catch λ x. connect_failed left delay action rest x

  unfoldable pub get_ssh_client : Text → Op ℕ
  unfolding call connect_loop
  get_ssh_client user = do
    n ← new_ssh_client
    read_key
    connect_loop 11 (call (Step.connect n user)) 15
    pure n

  -- `cmds`, the words of a command
  unfoldable pub run_words : ℕ → List Text → Bool → Op Text
  unfolding call strip join
  run_words ssh cmd pty s =
      (do
        call (Step.exec_command ssh (join b' ' cmd) pty)
        status (host.succeeds s.history) (strip (host.stdout s.history)))
        s

  unfoldable pub run_command : ℕ → Text → Bool → Op Text
  unfolding run_words
  run_command ssh cmd pty = run_words ssh (host.shlex_split cmd) pty

  -- `["sudo", "/bin/bash -c " + shlex.quote(script)]`
  unfoldable pub run_script : ℕ → Text → Op Text
  unfolding run_words
  run_script ssh script =
      run_words ssh (codes "sudo" ∷ (codes "/bin/bash -c " ++ host.shlex_quote script) ∷ []) true

  -- `finally: ssh.close()`, of a variable that may be unbound
  unfoldable pub close_bound : Option ℕ → Op (Unit {0})
  unfolding close_client
  close_bound none = raise (raised unbound_local)
  close_bound (some n) = close_client n

  abbrev pub opened :
      {A : Type 0}
      → Result Failure ℕ × State
      → (ℕ → Op A)
      → (Option ℕ → Op (Unit {0}))
      → Result Failure A × State
  opened (ok n, s) body cleanup = (body n finally cleanup (some n)) s
  opened (err x, s) body cleanup = (raise x finally cleanup none) s

  -- `try: ssh = self._get_ssh_client(); body  finally: cleanup`
  unfoldable pub using : {A : Type 0} → Text → (ℕ → Op A) → (Option ℕ → Op (Unit {0})) → Op A
  unfolding get_ssh_client
  using user body cleanup s = opened (get_ssh_client user s) body cleanup
