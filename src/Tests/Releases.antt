-- ===== src/Tests/Releases.antt =====
-- Directories, failing commands and resets of the helm connector.
use n2vc.Prelude.{
  if◌then◌else◌, ◌≡◌, refl, Bool, true, false, ◌||◌, none, some, List, [], ◌∷◌, ◌++◌, arith,
}
use n2vc.Prelude.Exec.{ok, err}
use n2vc.Exception.{Exception}
use n2vc.Text.{Text, codes, text_eq, text_eq_iff}
use n2vc.Helm.Output.{get_namespace_cluster_id}
use n2vc.Text.{is_space}
use n2vc.Helm.Host.{Release, Event, Host, State, get_paths, paths_of}
use n2vc.Helm.Host.Directories.{Keeps}
use n2vc.Helm.Operations.{instances_list}
use n2vc.Helm.Releases.{rollback_command, upgrade_command, install_command}
use n2vc.Helm.Environment.{reset}
use n2vc.Helm.Environment.Guarded.{Uninstalled, is_blocked, reset_guarded, removed}
use n2vc.Tests.Naming.{ascii}

abbrev makes : Event → Text → Bool
makes (Event.make_dir dir) path = text_eq dir path
makes e path = false

abbrev made_in : List Event → Text → Bool
made_in [] path = false
made_in (e ∷ h) path = makes e path || made_in h path

-- Every program fails, and what was made exists.
abbrev host : Host
host = record {
  fails = λ h e. none;
  output = λ h c. ([], false);
  exists = made_in;
  random = λ h. codes "42";
  status_of = λ t. err Exception.attribute_error;
  releases_of = λ t. none;
  rounds = λ h. 1;
  fs_path = codes "/app/";
  kubectl_command = codes "kubectl";
  helm_command = codes "helm";
  service_account = codes "osm";
  has_db = true;
  has_callback = false;
  answers = λ h c. none;
  now = codes "0";
}

abbrev start : State
start = record { history = []; calls = [] }

made_now : (h : List Event) (dir : Text) → made_in (h ++ Event.make_dir dir ∷ []) dir ≡ true
made_now [] dir = rw ((text_eq_iff dir dir).1 refl) refl
made_now (e ∷ h) dir = rw (made_now h dir) (ground arith)

made_before :
    (h : List Event) (dir path : Text)
    → made_in h path ≡ true
    → made_in (h ++ Event.make_dir dir ∷ []) path ≡ true
made_before [] dir path e = ground arith
made_before (f ∷ h) dir path e = go (makes f path) e (λ k. made_before h dir path k)
  where
    go :
        (b : Bool)
        → (b || made_in h path) ≡ true
        → (made_in h path ≡ true → made_in (h ++ Event.make_dir dir ∷ []) path ≡ true)
        → (b || made_in (h ++ Event.make_dir dir ∷ []) path) ≡ true
    go true e k = refl
    go false e k = k e

host-Keeps : Keeps host
host-Keeps = record { makes = λ h dir. refl; made = made_now; stays = made_before }

abbrev name : Text
name = codes "stable-mq-0000000042"

abbrev chart : Text
chart = codes "stable/mq"

abbrev rolled_back : State
rolled_back = (rollback_command host (codes "c1") name (codes "2") none start).1

abbrev upgraded : State
upgraded = (upgrade_command host (codes "c1") name (some chart) true none true none start).1

abbrev installed : State
installed = (install_command host 1 (codes "c1") chart true none true none none start).1

-- Everything exists, and every program succeeds.
abbrev working : Host
working = record host {
  output = λ h c. (codes "yaml", true);
  exists = λ h path. true;
  releases_of = λ t. some (record { name = name; revision = 1 } ∷ []);
}

abbrev listed : State
listed = (instances_list working (codes "c1") start).1

abbrev releases : List Release
releases = record { name = name; revision = 1 } ∷ []

reset_guarded_example :
    (w : State) × Uninstalled working (codes "c1") releases listed w
    × (reset working (codes "c1") true false start ≡ (
        if is_blocked true releases
        then (err Exception.k8s, listed)
        else (ok true, removed working (codes "c1") w)))
unfolding get_namespace_cluster_id get_paths instances_list is_space
reset_guarded_example =
    reset_guarded working (codes "c1") (paths_of working (codes "c1")) releases start start listed
      true refl refl
