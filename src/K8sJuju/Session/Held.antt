-- ===== src/K8sJuju/Session/Held.antt =====
-- Sequences of operations of n2vc/k8s_juju_conn.py on one connector.
use n2vc.Prelude.{Bool, Option, List, [], ◌∷◌}
use n2vc.Prelude.Exec.{Result}
use n2vc.Exception.{Exception}
use n2vc.Text.{Text}
use n2vc.K8sJuju.Host.{Config, Host, State, opened, closed}
use n2vc.K8sJuju.Environment
use n2vc.K8sJuju.Deployment
use n2vc.K8sJuju.Primitives
use n2vc.K8sJuju.Frame.{init_env-Keeps, reset-Keeps}
use n2vc.K8sJuju.Frame.Operations.{
  install-Keeps, upgrade-Keeps, uninstall-Keeps, exec_primitive-Keeps, status_kdu-Keeps,
}
use n2vc.K8sJuju.Session.{IsHeld, IsHeld-IsFrame, login-IsHeld, logout-IsHeld}

-- An operation with its arguments.
pub data Request : Type 0 where
  init_env : Text → Text → Option Text → Text → Request
  reset : Text → Request
  install : Text → Text → Bool → Result Exception Text → Option Text → Request
  upgrade uninstall : Text → Text → Request
  exec_primitive : Text → Text → Text → Option Text → Request
  status_kdu : Text → Request

-- The state after an operation, whether it returns or raises.
pub after : Host → Request → State → State
after host (init_env creds ns reuse new) s = (Environment.init_env host creds ns reuse new s).1
after host (reset uuid) s = (Environment.reset host uuid s).1
after host (install uuid model atomic id name) s =
    (Deployment.install host uuid model atomic id name s).1
after host (upgrade uuid model) s = (Deployment.upgrade host uuid model s).1
after host (uninstall uuid kdu) s = (Deployment.uninstall host uuid kdu s).1
after host (exec_primitive uuid kdu name app) s =
    (Primitives.exec_primitive host uuid kdu name app s).1
after host (status_kdu uuid) s = (Primitives.status_kdu host uuid s).1

pub after_all : Host → List Request → State → State
unfolding after
after_all host [] s = s
after_all host (r ∷ rs) s = after_all host rs (after host r s)

opened-IsHeld : (s : State) → IsHeld s → IsHeld (opened s)
opened-IsHeld s h = record { count = h.count; present = h.present }

closed-IsHeld : (s : State) → IsHeld s → IsHeld (closed s)
closed-IsHeld s h = record { count = h.count; present = h.present }

files-IsHeld :
    (x : List (Text × Option Config)) (s : State) → IsHeld s → IsHeld (record s { files = x })
files-IsHeld x s h = record { count = h.count; present = h.present }

cwd-IsHeld : (x : Text) (s : State) → IsHeld s → IsHeld (record s { cwd = x })
cwd-IsHeld x s h = record { count = h.count; present = h.present }

after-IsHeld : (host : Host) (r : Request) (s : State) → IsHeld s → IsHeld (after host r s)
unfolding after
after-IsHeld host (init_env creds ns reuse new) s h =
    (init_env-Keeps IsHeld-IsFrame host (login-IsHeld host) files-IsHeld creds ns reuse new).at s h
after-IsHeld host (reset uuid) s h =
    (reset-Keeps IsHeld-IsFrame host (login-IsHeld host) (logout-IsHeld host) uuid).at s h
after-IsHeld host (install uuid model atomic id name) s h =
    (install-Keeps IsHeld-IsFrame opened-IsHeld closed-IsHeld cwd-IsHeld host (login-IsHeld host)
        (logout-IsHeld host) uuid model atomic id name).at
      s h
after-IsHeld host (upgrade uuid model) s h =
    (upgrade-Keeps IsHeld-IsFrame opened-IsHeld closed-IsHeld cwd-IsHeld host (login-IsHeld host)
        (logout-IsHeld host) uuid model).at
      s h
after-IsHeld host (uninstall uuid kdu) s h =
    (uninstall-Keeps IsHeld-IsFrame opened-IsHeld closed-IsHeld cwd-IsHeld host (login-IsHeld host)
        (logout-IsHeld host) uuid kdu).at
      s h
after-IsHeld host (exec_primitive uuid kdu name app) s h =
    (exec_primitive-Keeps IsHeld-IsFrame opened-IsHeld closed-IsHeld cwd-IsHeld host
        (login-IsHeld host) (logout-IsHeld host) uuid kdu name app).at
      s h
after-IsHeld host (status_kdu uuid) s h =
    (status_kdu-Keeps IsHeld-IsFrame opened-IsHeld closed-IsHeld cwd-IsHeld host (login-IsHeld host)
        (logout-IsHeld host) uuid).at
      s h

-- A connector that keeps one connection where it is authenticated, and none where it is not, does so
-- after any sequence of the operations init_env, reset, install, upgrade, uninstall, exec_primitive and
-- status_kdu, however each of them ends; and where it is authenticated it has its controller.
pub after_all-IsHeld :
    (host : Host) (rs : List Request) (s : State) → IsHeld s → IsHeld (after_all host rs s)
unfolding after_all
after_all-IsHeld host [] s h = h
after_all-IsHeld host (r ∷ rs) s h =
    after_all-IsHeld host rs (after host r s) (after-IsHeld host r s h)
