-- ===== src/Tests/Provisioner.antt =====
-- Machines and their processors.
use n2vc.Prelude.{◌≡◌, refl, ◌≤◌, leb, ◌+◌, true, none, some, List, [], ◌∷◌, map, String, arith}
use mathlib.Core.Option
use n2vc.Prelude.Exec.{ok, err}
use n2vc.Exception.{Exception}
use n2vc.Text.{Text, codes, starts_with, is_space}
use n2vc.Text.Split.{split, join}
use n2vc.Helm.Output.{strip}
use n2vc.Provisioner.Hardware.{normalize_arch, count_cores}
use n2vc.Provisioner.Hardware.Cores.{Counts, first_cores, count_cores_first}
use n2vc.Provisioner.Ssh.{
  Event, Host, State, find_address, wait_for_boot, init_ubuntu_user, run_configure_script,
  provision_machine,
}
use n2vc.Provisioner.Ssh.Boot.{slept, Boots, Returned, wait_for_boot-Returned}
use n2vc.Provisioner.Ssh.Coreless.{provision_coreless}
use n2vc.Tests.Naming.{ascii}

abbrev pub lines_of : List String → Text
lines_of lines = join b'\n' (map codes lines)

abbrev two_sockets : List Text
two_sockets =
    codes "physical id : 0"
    ∷ codes "cpu cores : 4"
    ∷ codes "physical id : 1"
    ∷ codes "cpu cores : 8"
    ∷ []

-- Two processors, of which one counts.
counted : count_cores two_sockets [] [] ≡ ok (codes "4")
unfolding count_cores is_space
counted = refl

count_cores_first_example : Counts (first_cores two_sockets) (count_cores two_sockets [] [])
count_cores_first_example = count_cores_first two_sockets

arches :
    map normalize_arch (map codes ("x86_64" ∷ "i686" ∷ "armv7l" ∷ "aarch64" ∷ "mips" ∷ []))
    ≡ map (Option.map codes) (some "amd64" ∷ some "i386" ∷ some "armhf" ∷ some "arm64" ∷ none ∷ [])
unfolding normalize_arch
arches = refl

abbrev pub script : Text
script = lines_of ("apiaddresses:" ∷ "- 10.195.8.2:17070" ∷ "- 127.0.0.1:17070" ∷ [])

address : find_address script ≡ some (codes "10.195.8.2")
unfolding find_address join
address = refl

abbrev cpuinfo : Text
cpuinfo = lines_of ("bionic" ∷ "aarch64" ∷ "MemTotal: 2048 kB" ∷ "processor : 0" ∷ [])

-- A machine that answers after a minute.
abbrev host : Host
host = record {
  fails = λ h e. none;
  succeeds = λ h e. leb 60 (slept h);
  stdout = λ h. cpuinfo;
  temporary = λ h. codes "/tmp/x";
  public_key = some (codes "ssh-rsa x");
  script = script;
  initialize_ubuntu = λ key. codes "init";
  detection = codes "detect";
  iptables = λ a b. codes "iptables";
  new_uuid = codes "u";
  host = codes "10.0.0.2";
}

abbrev start : State
start = record { history = [] }

le-leb : (h : List Event) → 60 ≤ slept h → leb 60 (slept h) ≡ true
le-leb h le = ground arith

host-Boots : Boots host 60
host-Boots = record { runs = λ h. refl; answers = le-leb; sleeps = λ h n. refl }

wait_for_boot-Returned_example : Returned (slept start.history + 825) (wait_for_boot host start)
wait_for_boot-Returned_example = wait_for_boot-Returned host 60 host-Boots start (omega arith)

abbrev initialized : State
initialized = (init_ubuntu_user host start).1

abbrev examined : State
examined = (run_configure_script host (codes "detect") initialized).1

provision_coreless_example : (x : Exception) × (provision_machine host start ≡ (err x, examined))
unfolding init_ubuntu_user run_configure_script split join strip is_space slept starts_with
provision_coreless_example =
    provision_coreless host (codes "bionic") (codes "aarch64") (codes "MemTotal: 2048 kB") cpuinfo
      (codes "processor : 0" ∷ []) start initialized examined refl refl refl ((refl, refl), tt)
