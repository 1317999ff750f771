-- ===== src/K8sJuju/Commands.antt =====
-- The command lines of juju in n2vc/k8s_juju_conn.py: `add_k8s`, `bootstrap`, `destroy_controller` and
-- `remove_cloud`.
use n2vc.Prelude.{Bool, true, false, not, ◌&&◌, List, [], ◌∷◌, if◌then◌else◌}
use n2vc.Prelude.Exec.{pure, raise, ◌>>=◌, ◌>>◌}
use n2vc.Exception.{other, type_error}
use n2vc.Text.{Text, codes}
use n2vc.K8sJuju.Host.{Host, Op, command}

module _ (host : Host) where
  -- A return code above 0 is an exception.
  unfoldable pub checked : List Text → Op (Unit {0})
  unfolding command
  checked argv = do (failed, exists) ← command host argv; (if failed then raise other else pure tt)

  -- What the process reads of the credentials is not modelled.
  unfoldable pub add_k8s : Text → Op (Unit {0})
  unfolding checked
  add_k8s cloud_name =
      checked (host.juju_command ∷ codes "add-k8s" ∷ codes "--local" ∷ cloud_name ∷ [])

  abbrev pub bootstrap_options : Bool → List Text
  bootstrap_options false = []
  bootstrap_options true = codes "--config" ∷ codes "controller-service-type=loadbalancer" ∷ []

  unfoldable pub bootstrap : Text → Text → Bool → Op (Unit {0})
  unfolding command
  bootstrap cloud_name cluster_uuid loadbalancer = do
    (failed, exists) ← command host (
        host.juju_command
        ∷ codes "bootstrap"
        ∷ cloud_name
        ∷ cluster_uuid
        ∷ bootstrap_options loadbalancer)
    (if failed && not exists then raise other else pure tt)

  abbrev pub destroy_argv : Text → List Text
  destroy_argv cluster_uuid =
      host.juju_command
      ∷ codes "destroy-controller"
      ∷ codes "--destroy-all-models"
      ∷ codes "--destroy-storage"
      ∷ codes "-y"
      ∷ cluster_uuid
      ∷ []

  -- Where the command fails, `"already exists" not in stderr` looks for a text in bytes: a TypeError.
  unfoldable pub destroy_controller : Text → Op (Unit {0})
  unfolding command
  destroy_controller cluster_uuid = do
    (failed, exists) ← command host (destroy_argv cluster_uuid)
    (if failed then raise type_error else pure tt)

  unfoldable pub remove_cloud : Text → Op (Unit {0})
  unfolding checked
  remove_cloud cloud_name = do
    checked (host.juju_command ∷ codes "remove-k8s" ∷ codes "--client" ∷ cloud_name ∷ [])
    checked (host.juju_command ∷ codes "remove-cloud" ∷ codes "--client" ∷ cloud_name ∷ [])
