-- ===== src/Libjuju/Missing.antt =====
-- Operations of n2vc/libjuju.py on an application that the model does not have.
use n2vc.Text.{Text}
use n2vc.Prelude.{◌≡◌, refl, none, List, [], ◌∷◌, ◌++◌, false}
use n2vc.Prelude.Exec.{ok, err}
use n2vc.Exception.{Exception}
use n2vc.Libjuju.Connection.{
  Juju, World, Event, member, call, call_names, get_controller, get_model_, disconnect_controller_,
  disconnect_model_,
}
use n2vc.Libjuju.Operations.{connected, disconnect_both}
use n2vc.Libjuju.Action.{get_application, execute_action, get_actions}
use n2vc.Libjuju.Opening.{IsReliable}

module _ (juju : Juju) (reliable : IsReliable juju) (application_name model_name : Text)
    (opens : (h : List Event) → juju.fails h (Event.get_model model_name) ≡ none)
    (lists : (h : List Event) → juju.fails h Event.applications ≡ none)
    (missing : (h : List Event)
      → member application_name (juju.names h Event.applications) ≡ false) where
  -- Where a controller is connected, the model opens, and the model does not have the application,
  -- `execute_action` raises JujuApplicationNotFound, but `get_actions` fails with AttributeError.
  missing_application :
      (action_name : Text) (s t : World)
      → get_controller juju s ≡ (ok tt, t)
      → ((execute_action juju application_name model_name action_name s).0
          ≡ err Exception.juju_application_not_found)
        × ((get_actions juju application_name model_name s).0 ≡ err Exception.attribute_error)
  unfolding execute_action get_actions get_application connected get_model_ call call_names
      disconnect_both disconnect_model_ disconnect_controller_
  missing_application action_name s t connects =
      let h = t.history ++ Event.get_model model_name ∷ [] in
      let h' = h ++ Event.applications ∷ [] in
      rw connects (
        rw (opens t.history) (
          rw (lists h) (
            rw (missing h) (
              rw (reliable.closes_model h') (
                rw (reliable.closes_controller (h' ++ Event.disconnect_model ∷ []))
                  (refl, refl))))))
