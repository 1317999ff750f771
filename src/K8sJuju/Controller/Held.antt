-- ===== src/K8sJuju/Controller/Held.antt =====
-- `login` of n2vc/k8s_juju_conn.py, where the connector is authenticated.
use n2vc.Prelude.{◌≡◌, refl, Bool, true, false, if◌then◌else◌}
use n2vc.Prelude.Exec.{ok, pure}
use n2vc.Text.{Text}
use n2vc.K8sJuju.Host.{Host, State}
use n2vc.K8sJuju.Controller.{login, login_again}

pub login_held :
    (host : Host) (cluster_uuid : Text) (s : State)
    → s.authenticated ≡ true
    → login host cluster_uuid s ≡ (ok tt, s)
unfolding login
login_held host cluster_uuid s h = go s.authenticated h
  where
    go :
        (b : Bool)
        → b ≡ true
        → (if b then pure tt else login_again host cluster_uuid) s ≡ (ok tt, s)
    go true h = refl
    go false h = cc
