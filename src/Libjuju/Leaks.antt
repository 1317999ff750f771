-- ===== src/Libjuju/Leaks.antt =====
-- The connections that the operations of n2vc/libjuju.py on a model leave open.
use n2vc.Text.{Text}
use n2vc.Prelude.{zero, suc, Bool, true, none, some, List, [], ◌∷◌, ℕ, ◌≡◌, Option}
use n2vc.Exception.{Exception}
use n2vc.Libjuju.Connection.{Juju, Event}
use n2vc.Libjuju.Action.{
  leader, or_raise, run, execute_action, get_application, forgive, add_relation, get_actions,
}
use n2vc.Libjuju.Operations.{
  machine_for, find_machine, provision, provision_machine, add_units, series_for, deploy_new,
  deploy_charm, create_machine,
}
use n2vc.Libjuju.Frame.{connected-IsBalanced}
use n2vc.Libjuju.Balance.{pure-IsBalanced, raise-IsBalanced, IsBalanced, balanced_rules}
use n2vc.Libjuju.Opening.{IsReliable}

module _ (juju : Juju) (reliable : IsReliable juju)
    (opens : (model_name : Text) (h : List Event)
      → juju.fails h (Event.get_model model_name) ≡ none) where
  leader-IsBalanced : (us : List Text) (unit : Option Text) → IsBalanced (leader juju us unit)
  unfolding leader
  leader-IsBalanced [] unit = search (balanced_rules)
  leader-IsBalanced (u ∷ us) unit = search (balanced_rules, leader-IsBalanced us)

  or_raise-IsBalanced : (unit : Option Text) → IsBalanced (or_raise juju unit)
  unfolding or_raise
  or_raise-IsBalanced none = search (balanced_rules)
  or_raise-IsBalanced (some unit) = search (balanced_rules)

  run-IsBalanced : (unit action_name : Text) → IsBalanced (run juju unit action_name)
  unfolding run
  run-IsBalanced unit action_name = search (balanced_rules) depth 16

  -- However it ends, `execute_action` leaves as many controllers and models open as it found, if the
  -- library closes what it is asked to close, opens every model, and no call is cancelled.
  pub execute_action-IsBalanced :
      (application_name model_name action_name : Text)
      → IsBalanced (execute_action juju application_name model_name action_name)
  unfolding execute_action get_application run
  execute_action-IsBalanced application_name model_name action_name =
      search
        (
          balanced_rules,
          connected-IsBalanced juju reliable,
          leader-IsBalanced,
          or_raise-IsBalanced,
          run-IsBalanced,
        )
        depth 20

  machine_for-IsBalanced :
      (machine_id : Option Text) (series : Text) (wait : Bool)
      → IsBalanced (machine_for juju machine_id series wait)
  unfolding machine_for
  machine_for-IsBalanced none series wait = search (balanced_rules)
  machine_for-IsBalanced (some m) series wait = search (balanced_rules)

  pub create_machine-IsBalanced :
      (model_name : Text) (machine_id : Option Text) (series : Text) (wait : Bool)
      → IsBalanced (create_machine juju model_name machine_id series wait)
  unfolding create_machine
  create_machine-IsBalanced model_name machine_id series wait =
      connected-IsBalanced juju reliable model_name (opens model_name)
        (machine_for-IsBalanced machine_id series wait)

  find_machine-IsBalanced :
      (rounds : ℕ) (machine_id : Text) → IsBalanced (find_machine juju rounds machine_id)
  unfolding find_machine
  find_machine-IsBalanced zero machine_id = search (balanced_rules)
  find_machine-IsBalanced (suc n) machine_id = search (balanced_rules, find_machine-IsBalanced n)

  -- However it ends, `provision_machine` leaves as many controllers and models open as it found, if
  -- the library closes what it is asked to close, opens every model, and no call is cancelled.
  pub provision_machine-IsBalanced :
      (model_name hostname username private_key_path : Text)
      → IsBalanced (provision_machine juju model_name hostname username private_key_path)
  unfolding provision_machine provision
  provision_machine-IsBalanced model_name hostname username private_key_path =
      search (balanced_rules, connected-IsBalanced juju reliable, find_machine-IsBalanced) depth 20

  add_units-IsBalanced :
      (n : ℕ) (model_name application_name : Text)
      → IsBalanced (add_units juju n model_name application_name)
  unfolding add_units
  add_units-IsBalanced zero model_name application_name = search (balanced_rules)
  add_units-IsBalanced (suc n) model_name application_name =
      search (balanced_rules, create_machine-IsBalanced, add_units-IsBalanced n)

  series_for-IsBalanced :
      (machine_id series : Option Text) → IsBalanced (series_for juju machine_id series)
  unfolding series_for
  series_for-IsBalanced none series = search (balanced_rules)
  series_for-IsBalanced (some m) series = search (balanced_rules)

  deploy_new-IsBalanced :
      (application_name path model_name : Text) (machine_id series : Option Text) (num_units : ℕ)
      → IsBalanced (deploy_new juju application_name path model_name machine_id series num_units)
  unfolding deploy_new
  deploy_new-IsBalanced application_name path model_name machine_id series num_units =
      search (balanced_rules, series_for-IsBalanced, add_units-IsBalanced) depth 16

  -- However it ends, `deploy_charm`, with the machines that it creates for further units, leaves as
  -- many controllers and models open as it found, if the library closes what it is asked to close,
  -- opens every model, and no call is cancelled.
  pub deploy_charm-IsBalanced :
      (application_name path model_name : Text) (machine_id series : Option Text) (num_units : ℕ)
      → IsBalanced (deploy_charm juju application_name path model_name machine_id series num_units)
  unfolding deploy_charm deploy_new
  deploy_charm-IsBalanced application_name path model_name machine_id series num_units =
      search (balanced_rules, connected-IsBalanced juju reliable, deploy_new-IsBalanced) depth 16

  forgive-IsBalanced : (x : Exception) → IsBalanced (forgive juju x)
  unfolding forgive
  forgive-IsBalanced (Exception.juju_api true) = pure-IsBalanced tt
  forgive-IsBalanced x = raise-IsBalanced _

  -- However it ends, `add_relation` leaves as many controllers and models open as it found, if the
  -- library closes what it is asked to close, opens every model, and no call is cancelled.
  pub add_relation-IsBalanced :
      (model_name application_name_1 application_name_2 relation_1 relation_2 : Text)
      → IsBalanced
          (add_relation juju model_name application_name_1 application_name_2 relation_1 relation_2)
  unfolding add_relation
  add_relation-IsBalanced model_name application_name_1 application_name_2 relation_1 relation_2 =
      search (balanced_rules, connected-IsBalanced juju reliable, forgive-IsBalanced)

  pub get_actions-IsBalanced :
      (application_name model_name : Text)
      → IsBalanced (get_actions juju application_name model_name)
  unfolding get_actions get_application
  get_actions-IsBalanced application_name model_name =
      search (balanced_rules, connected-IsBalanced juju reliable)
