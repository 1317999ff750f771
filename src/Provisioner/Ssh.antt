-- ===== src/Provisioner/Ssh.antt =====
-- `AsyncSSHProvisioner` of n2vc/provisioner.py. The machine answers each command as a `Host` says.
pub mod Boot
pub mod Coreless
use n2vc.Prelude.{
  ℕ, zero, suc, ◌+◌, Bool, true, false, Option, none, some, List, [], ◌∷◌, ◌++◌, if◌then◌else◌,
  length, drop,
}
use mathlib.Core.Option
use n2vc.Prelude.Exec.{Exec, Result, ok, err, pure, raise, ◌>>=◌, ◌>>◌, ◌catch◌}
use n2vc.Exception.{Exception, called_process, file_not_found, attribute_error, value_error}
use n2vc.Text.{Text, codes, format, starts_with, is_digit, Unicode}
use n2vc.Helm.Output.{strip}
use n2vc.Provisioner.Hardware.{Info, int_of, detect_hardware, or_error}

pub data Event : Type 0 where
  copy command : Text → Event
  sleep : ℕ → Event
  write_file : Text → Event
  -- ClientFacade.ProvisioningScript
  provisioning_script : Event

-- How the calls end after those before: the exception, where a program cannot run; whether its return
-- code is 0; what it wrote. And the values that the code reads.
pub record Host : Type 0 where
  pub fails : List Event → Event → Option Exception
  pub succeeds : List Event → Event → Bool
  pub stdout : List Event → Text
  -- the name of a new temporary file
  pub temporary : List Event → Text
  -- the first line of the public key, if its file exists
  pub public_key : Option Text
  -- results.script
  pub script : Text
  -- the scripts of the module, with what they are formatted with
  pub initialize_ubuntu : Text → Text
  pub detection : Text
  pub iptables : Text → Text → Text
  -- str(uuid.uuid4())
  pub new_uuid : Text
  -- attributes of the object
  pub host : Text

pub record State : Type 0 where
  pub history : List Event

abbrev pub Op : Type 0 → Type 0
Op A = Exec Exception State A

abbrev pub ends : {A : Type 0} → Option Exception → A → Result Exception A
ends none a = ok a
ends (some x) a = err x

abbrev pub recorded : Event → State → State
recorded e s = record s { history = s.history ++ e ∷ [] }

-- A return code other than 0 is a CalledProcessError.
abbrev pub finished : {A : Type 0} → Option Exception → Bool → A → Result Exception A
finished (some x) success a = err x
finished none true a = ok a
finished none false a = err called_process

abbrev pub lift : {A : Type 0} → Result Exception A → Op A
lift r s = (r, s)

abbrev pub or_raise : {A : Type 0} → Exception → Option A → Op A
or_raise x none = raise x
or_raise x (some a) = pure a

-- s[1:]
abbrev tail : Text → Text
tail [] = []
tail (c ∷ s) = s

-- AddMachineParams
pub record Machine : Type 0 where
  pub series : Text
  pub instance_id : Text
  pub nonce : Text
  pub arch : Option Text
  pub mem : ℕ
  pub cpu_cores : ℕ
  pub address : Text

-- client.AddMachineParams() with the hardware and the address of a host; int() of cores that are no
-- number is a ValueError.
abbrev pub with_cores : Text → Text → Info → Option ℕ → Result Exception Machine
with_cores host new_uuid info none = err value_error
with_cores host new_uuid info (some cores) = ok (record {
  series = info.series;
  instance_id = codes "manual:" ++ host;
  nonce = codes "manual:" ++ host ++ codes ":" ++ new_uuid;
  arch = info.arch;
  mem = info.mem;
  cpu_cores = cores;
  address = host;
})

unfoldable pub machine_of : Text → Text → Info → Result Exception Machine
unfolding int_of
machine_of host new_uuid info = with_cores host new_uuid info (int_of info.cpu_cores)

-- `if attempts > retry: raise e`
abbrev pub again : ℕ → Exception → Op (Unit {0}) → Op (Unit {0})
again zero x rest = raise x
again (suc left) x rest = rest

abbrev pub is_called_process : Exception → Bool
is_called_process Exception.called_process = true
is_called_process x = false

module _ ⦃u : Unicode⦄ where
  -- \d+ at the start of a text, and what stands behind.
  unfoldable pub digits : Text → Text × Text
  unfolding is_digit
  digits [] = ([], [])
  digits (c ∷ s) = let (run, rest) = digits s in if is_digit c then (c ∷ run, rest) else ([], c ∷ s)

  -- One number, and the text that has to follow.
  abbrev number : Text → Text × Text → Option (Text × Text)
  number sep ([], rest) = none
  number sep (c ∷ run, rest) = if starts_with sep rest then some (c ∷ run, rest) else none

  abbrev then_address : Text → Option Text → Option Text
  then_address run none = none
  then_address run (some t) = some (run ++ b'.' ∷ t)

  -- (\d+\.\d+\.\d+\.\d+):17070 at the start of a text: the last number, behind some others.
  unfoldable pub address_at : ℕ → Text → Option Text
  unfolding digits starts_with
  address_at zero s = Option.map (λ (n : Text × Text). n.0) (number (codes ":17070") (digits s))
  address_at (suc k) s = elim (number (codes ".") (digits s)) [
    | none ↦ none
    | some (run, rest) ↦ then_address run (address_at k (tail rest))
  ]

  abbrev or_else : Option Text → Option Text → Option Text
  or_else none o = o
  or_else (some t) o = some t

  abbrev listed : Text
  listed = codes "apiaddresses:" ++ b'\n' ∷ codes "- "

  -- re.search for the first address of the script.
  unfoldable pub find_address : Text → Option Text
  unfolding starts_with address_at
  find_address [] = none
  find_address (c ∷ s) =
      let rest = find_address s in
      if starts_with listed (c ∷ s)
      then or_else (address_at 3 (drop (length listed) (c ∷ s))) rest
      else rest

  module _ (host : Host) where
    unfoldable pub call : Event → Op (Unit {0})
    call e s = (ends (host.fails s.history e) tt, recorded e s)

    unfoldable pub scp : Text → Op (Unit {0})
    scp path s = (
      finished (host.fails s.history (Event.copy path)) (host.succeeds s.history (Event.copy path))
          tt,
      recorded (Event.copy path) s,
    )

    -- What the command has written.
    unfoldable pub ssh : Text → Op Text
    unfolding strip
    ssh cmd s = (
      finished (host.fails s.history (Event.command cmd))
          (host.succeeds s.history (Event.command cmd)) (strip (host.stdout s.history)),
      recorded (Event.command cmd) s,
    )

    abbrev pub mkstemp : Op Text
    mkstemp s = (ok (host.temporary s.history), s)

    unfoldable pub run_configure_script : Text → Op Text
    unfolding call scp ssh
    run_configure_script script = do
      path ← mkstemp
      call (Event.write_file path)
      scp path
      ssh (codes "sudo /bin/bash " ++ path)

    -- `while attempts <= retry`, with the attempts that are left, the delay, and the exceptions that
    -- are caught.
    unfoldable pub retry_loop : ℕ → ℕ → (Exception → Bool) → Op (Unit {0}) → Op (Unit {0})
    unfolding call
    retry_loop zero delay catches action = pure tt
    retry_loop (suc left) delay catches action =
        let rest = retry_loop left (delay + 15) catches action in
        action catch λ x.
        if catches x then again left x (call (Event.sleep delay) >> rest) else raise x

    -- `sudo -n true`, until the machine has booted
    unfoldable pub wait_for_boot : Op (Unit {0})
    unfolding retry_loop ssh
    wait_for_boot = retry_loop 11 15 is_called_process (ssh (codes "sudo -n true") >> pure tt)

    unfoldable pub init_ubuntu_user : Op (Unit {0})
    unfolding wait_for_boot run_configure_script
    init_ubuntu_user = do
      wait_for_boot
      key ← or_raise file_not_found host.public_key
      run_configure_script (host.initialize_ubuntu key)
      pure tt

    unfoldable pub provision_machine : Op Machine
    unfolding init_ubuntu_user run_configure_script detect_hardware machine_of
    provision_machine = do
      init_ubuntu_user
      stdout ← run_configure_script host.detection
      info ← lift (detect_hardware stdout)
      lift (machine_of host.host host.new_uuid info)

    -- The route to the controller, in a retry loop that catches all exceptions; then the script.
    unfoldable pub install_agent : Text → Op (Unit {0})
    unfolding call find_address retry_loop run_configure_script
    install_agent api = do
      call Event.provisioning_script
      address ← or_raise attribute_error (find_address host.script)
      retry_loop 11 15 (λ x. true) (run_configure_script (host.iptables address api) >> pure tt)
      run_configure_script host.script
      pure tt
