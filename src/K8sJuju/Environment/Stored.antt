-- ===== src/K8sJuju/Environment/Stored.antt =====
-- What `init_env` of n2vc/k8s_juju_conn.py stores for a new cluster.
use n2vc.Prelude.{◌≡◌, not, Bool, none, some}
use n2vc.Prelude.Exec.{ok, ◌>>=◌, ◌>>◌}
use n2vc.Exception.{Exception}
use n2vc.Text.{Text}
use n2vc.K8sJuju.Host.{Host, State}
use n2vc.K8sJuju.Controller.{file_at, config_path}
use n2vc.K8sJuju.Environment.{config_of, is_local_k8s}
use n2vc.K8sJuju.Keeps.{Keeps}

module _ (host : Host) (uuid namespace : Text) where
  -- There is no file for the cluster.
  abbrev IsNew : State → Type 0
  IsNew s = file_at (config_path host uuid) s.files ≡ none

  -- The file of the cluster has the attributes of the connector.
  abbrev pub IsStored : Bool → State → Type 0
  IsStored loadbalancer s =
      file_at (config_path host uuid) s.files
      ≡ some (some (config_of host namespace loadbalancer s))

  -- The loadbalancer is used where the cluster is not local.
  abbrev pub Settled : Text → State → State → Type 0
  Settled k8s_creds s t =
      (b : Bool) × ((is_local_k8s host k8s_creds s).0 ≡ ok b) × IsStored (not b) t

  abbrev pub Stored : Text → State → Text → State → Type 0
  Stored k8s_creds s r t = (r ≡ uuid) × Settled k8s_creds s t
