-- ===== src/Tests/K8sJuju.antt =====
-- The connector of juju on Kubernetes.
use n2vc.Prelude.{◌≡◌, refl, true, false, none, some, List, [], ◌∷◌, arith}
use n2vc.Prelude.Exec.{ok}
use n2vc.Text.{codes, starts_with}
use n2vc.K8sJuju.Host.{Config, Credentials, Host, State}
use n2vc.K8sJuju.Controller.{logout, get_namespace}
use n2vc.K8sJuju.Environment.{destroy_namespace, init_env}
use n2vc.K8sJuju.Deployment.{install, new_workdir}
use n2vc.K8sJuju.Primitives.{exec_primitive}
use n2vc.K8sJuju.Keeps.{Ends}
use n2vc.K8sJuju.Session.{IsHeld}
use n2vc.K8sJuju.Session.Held.{Request, after_all, after_all-IsHeld}
use n2vc.K8sJuju.Deployment.Returns.{Left, install-Left}
use n2vc.K8sJuju.Deployment.Workdir.{new_workdir_absolute}
use n2vc.K8sJuju.Environment.Stored.{Stored}
use n2vc.K8sJuju.Primitives.Executed.{Executed, exec_primitive-Executed}

abbrev creds : Credentials
creds = record { clusters = some (some (some (codes "https://10.0.0.1:16443")) ∷ []) }

-- Every call succeeds.
abbrev host : Host
host = record {
  fails = λ h e. none;
  result = λ h argv. (false, false);
  load = λ s. ok (some creds);
  host_ip = some (codes "10.0.0.1");
  field = λ h uuid key. ok (codes "x");
  models = λ h. codes "kube-system" ∷ codes "ns1" ∷ [];
  is_connected = λ h. true;
  model_connected = λ h. true;
  applications = λ h. codes "app" ∷ [];
  actions = λ h. codes "touch" ∷ [];
  units = λ h app. codes "app/0" ∷ [];
  leads = λ h u. true;
  output = λ h. codes "done";
  action_status = λ h. some (codes "completed");
  statuses = λ h. [];
  bundle = λ s. ok [];
  in_place = λ h. true;
  fs_path = codes "/app";
  juju_command = codes "juju";
}

abbrev start : State
start = record {
  authenticated = false;
  has_controller = false;
  endpoint = [];
  user = [];
  secret = [];
  ca_cert = [];
  public_key = none;
  open_controllers = 0;
  open_models = 0;
  files = [];
  cwd = codes "/app/storage";
  history = [];
}

abbrev config : Config
config = record {
  loadbalancer = some false;
  endpoint = some (codes "10.0.0.1:17070");
  username = some (codes "admin");
  secret = some (codes "secret");
  cacert = some (codes "cert");
  namespace = some (codes "kube-system");
}

-- Logged into the controller of cluster c1.
abbrev held : State
held = record start {
  authenticated = true;
  has_controller = true;
  open_controllers = 1;
  files = (codes "/app/c1.yaml", some config) ∷ [];
}

start-IsHeld : IsHeld start
start-IsHeld = record { count = refl; present = λ e. ground arith }

abbrev requests : List Request
requests =
    Request.init_env (codes "creds") (codes "kube-system") none (codes "c1")
    ∷ Request.install (codes "c1") (codes "/app/pkg/bundle") true (ok (codes "ns1")) none
    ∷ Request.exec_primitive (codes "c1") (codes "ns1") (codes "touch") (some (codes "app"))
    ∷ Request.reset (codes "c1")
    ∷ []

after_all-IsHeld_example : IsHeld (after_all host requests start)
after_all-IsHeld_example = after_all-IsHeld host requests start start-IsHeld

install-Left_example :
    Ends
      (Left (ok (codes "ns1")) none held)
      (install host (codes "c1") (codes "/app/pkg/bundle") true (ok (codes "ns1")) none held)
unfolding starts_with
install-Left_example =
    install-Left host (codes "c1") (codes "/app/pkg/bundle") true (ok (codes "ns1")) none held
      (λ h. refl) (λ h. refl) refl

installed :
    (install host (codes "c1") (codes "/app/pkg/bundle") true (ok (codes "ns1")) none held).0
    ≡ ok (some (codes "ns1"))
unfolding install
installed = refl

new_workdir_absolute_example : new_workdir (codes "/app/pkg/bundle") ≡ codes "/app/pkg/"
unfolding starts_with
new_workdir_absolute_example =
    new_workdir_absolute (codes "/app/pkg") (codes "bundle")
      (omega arith, (omega arith, (omega arith, (omega arith, (omega arith, (omega arith, tt))))))
      refl

-- A relative path may lose characters at its start.
relative : new_workdir (codes "bundles/ubuntu") ≡ codes "dles/"
unfolding new_workdir
relative = refl

-- Every command of juju's client fails.
abbrev stubborn : Host
stubborn = record host { result = λ h argv. (true, false) }

abbrev read : State
read = (get_namespace stubborn (codes "c1") held).1

abbrev destroyed : State
destroyed = (destroy_namespace stubborn (codes "kube-system") read).1

abbrev out : State
out = (logout stubborn destroyed).1

exec_primitive-Executed_example :
    Executed host
      (codes "c1")
      held
      (exec_primitive host (codes "c1") (codes "ns1") (codes "touch") (some (codes "app")) held)
exec_primitive-Executed_example =
    exec_primitive-Executed host (codes "c1") (codes "ns1") (codes "touch") (some (codes "app"))
      held refl
