-- ===== src/Tests/Paramiko.antt =====
-- Machines over paramiko.
use n2vc.Prelude.{◌≡◌, refl, none, some, Option, List, [], ◌∷◌, true}
use n2vc.Prelude.Exec.{ok}
use n2vc.Text.{Text, codes, is_space}
use n2vc.Text.Split.{split, join}
use n2vc.Helm.Output.{strip}
use n2vc.Provisioner.Paramiko.{
  Failure, no_valid_connections, banner, no_route_to_host, Step, Host, State, get_ssh_client,
}
use n2vc.Provisioner.Paramiko.Provisioning.{provision_machine, run_configure_script}
use n2vc.Provisioner.Paramiko.Closed.{Balanced, provision_machine-Balanced}
use n2vc.Provisioner.Paramiko.Removed.{writes, removes, OnceMore, run_configure_script-Removed}
use n2vc.Provisioner.Paramiko.Unreachable.{IsUnreachable, Refused, provision_machine-Refused}
use n2vc.Tests.Naming.{ascii}
use n2vc.Tests.Provisioner.{lines_of, script}

abbrev cpuinfo : Text
cpuinfo = lines_of (
    "sudo: unable to resolve host m" ∷ "bionic" ∷ "x86_64" ∷ "MemTotal: 2048 kB" ∷ "cpu cores : 4"
    ∷ [])

abbrev host_with : (List Step → Step → Option Failure) → Host
host_with fails = record {
  fails = fails;
  succeeds = λ h. true;
  stdout = λ h. cpuinfo;
  temporary = λ h. codes "/tmp/x";
  private_key = none;
  public_key = some (codes "ssh-rsa x");
  script = script;
  initialize_ubuntu = λ key. codes "init";
  detection = codes "detect";
  iptables = λ a b. codes "iptables";
  new_uuid = codes "u";
  shlex_split = split b' ';
  shlex_quote = λ s. s;
  host = codes "10.0.0.2";
  user = codes "admin";
}

abbrev reachable : Host
reachable = host_with λ h e. none

abbrev only_connect : Step → Option Failure
only_connect (Step.connect n user) = some no_valid_connections
only_connect e = none

abbrev unreachable : Host
unreachable = host_with λ h e. only_connect e

-- The first connection misses the banner.
abbrev first_banner : List Step → Step → Option Failure
first_banner (Step.new_client ∷ []) (Step.connect n user) = some banner
first_banner h e = none

abbrev start : State
start = record { history = []; clients = 0 }

abbrev connected : Step
connected = Step.connect 0 (codes "admin")

-- The second connection stands, and is made once more.
reconnected :
    (get_ssh_client (host_with first_banner) (codes "admin") start).1.history
    ≡ Step.new_client ∷ connected ∷ connected ∷ connected ∷ []
unfolding get_ssh_client
reconnected = refl

provision_machine-Balanced_example : Balanced 3 start (provision_machine reachable start)
provision_machine-Balanced_example = provision_machine-Balanced reachable start

run_configure_script-Removed_example :
    OnceMore
      (writes (codes "/tmp/x"))
      start
      (run_configure_script unreachable (codes "echo") start).1
    × OnceMore
        (removes (codes "/tmp/x"))
        start
        (run_configure_script unreachable (codes "echo") start).1
run_configure_script-Removed_example =
    run_configure_script-Removed unreachable (codes "echo") start refl

unreachable-IsUnreachable : IsUnreachable unreachable
unreachable-IsUnreachable = record { refuses = λ h n user. refl; sleeps = λ h n. refl; key = refl }

provision_machine-Refused_example :
    Refused no_route_to_host 825 start (provision_machine unreachable start)
provision_machine-Refused_example =
    provision_machine-Refused unreachable unreachable-IsUnreachable start

provisioned :
    (provision_machine reachable start).0
    ≡ ok (record {
      series = codes "bionic";
      instance_id = codes "manual:10.0.0.2";
      nonce = codes "manual:10.0.0.2:u";
      arch = some (codes "amd64");
      mem = 2;
      cpu_cores = 4;
      address = codes "10.0.0.2";
    })
unfolding provision_machine split join strip is_space
provisioned = refl
