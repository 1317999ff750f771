-- ===== src/Libjuju/Deploy.antt =====
-- `deploy_charm` of n2vc/libjuju.py on an application that exists.
use n2vc.Text.{Text}
use n2vc.Prelude.{◌≡◌, refl, Option, none, List, [], ◌∷◌, ◌++◌, true, ℕ, append_assoc}
use n2vc.Prelude.Exec.{ok, err}
use n2vc.Exception.{Exception}
use n2vc.Libjuju.Connection.{
  Juju, World, Event, member, call, call_names, get_controller, get_model_, disconnect_controller_,
  disconnect_model_,
}
use n2vc.Libjuju.Operations.{connected, disconnect_both, deploy_charm}
use n2vc.Libjuju.Opening.{IsReliable}

module _ (juju : Juju) (reliable : IsReliable juju) (application_name path model_name : Text)
    (machine_id series : Option Text) (num_units : ℕ) where
  -- Where a controller is connected, the model opens, and the model has an application of that name,
  -- `deploy_charm` raises JujuApplicationExists, and its only calls after the connection are those
  -- that open the model, list its applications, and close both: nothing is deployed.
  deploy_charm_exists :
      (s t : World)
      → get_controller juju s ≡ (ok tt, t)
      → ((h : List Event) → juju.fails h (Event.get_model model_name) ≡ none)
      → ((h : List Event) → juju.fails h Event.applications ≡ none)
      → ((h : List Event) → member application_name (juju.names h Event.applications) ≡ true)
      → let (r, u) =
          deploy_charm juju application_name path model_name machine_id series num_units s in
        (r ≡ err Exception.juju_application_exists)
        × (u.history
            ≡ t.history
              ++ Event.get_model model_name
                ∷ Event.applications
                ∷ Event.disconnect_model
                ∷ Event.disconnect_controller
                ∷ [])
  unfolding deploy_charm connected get_model_ call call_names disconnect_both disconnect_model_
      disconnect_controller_
  deploy_charm_exists s t connects opens lists there = rw connects (
      rw (opens t.history) (
        rw (lists (t.history ++ Event.get_model model_name ∷ [])) (
          rw (there (t.history ++ Event.get_model model_name ∷ [])) (
            rw
              (reliable.closes_model
                ((t.history ++ Event.get_model model_name ∷ []) ++ Event.applications ∷ []))
              (rw
                (reliable.closes_controller (
                  ((t.history ++ Event.get_model model_name ∷ []) ++ Event.applications ∷ [])
                  ++ Event.disconnect_model ∷ []))
                (refl, simp append_assoc))))))
