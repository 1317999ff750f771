-- ===== src/Libjuju/Unbound.antt =====
-- The `finally` blocks of `configure_application` and `health_check` of n2vc/libjuju.py, where the
-- connection fails.
use n2vc.Text.{Text}
use n2vc.Prelude.{◌≡◌, true, false}
use n2vc.Prelude.Exec.{err}
use n2vc.Exception.{Exception}
use n2vc.Libjuju.Connection.{Juju, World, get_controller}
use n2vc.Libjuju.Action.{configure_application, health_round}

-- Where `get_controller` raises, `configure_application` (with a configuration to set) and the first
-- round of `health_check` end in UnboundLocalError instead: the health check ends for good.
unbound_controller :
    (juju : Juju) (model_name application_name : Text) (x : Exception) (s t : World)
    → get_controller juju s ≡ (err x, t)
    → (configure_application juju model_name application_name true s
        ≡ (err Exception.unbound_local, t))
      × (health_round juju false s ≡ (err Exception.unbound_local, t))
unfolding configure_application health_round
unbound_controller juju model_name application_name x s t fails = (rw fails, rw fails)
