-- ===== src/Connector/Connections/Environments.antt =====
-- Neither `create_execution_environment` nor `register_execution_environment` of
-- n2vc/n2vc_juju_conn.py leaves a connection of libjuju open.
use n2vc.Prelude.{◌≡◌, Option, none, some, List, [], ◌∷◌}
use n2vc.Text.{Text, Unicode}
use n2vc.Database.{DbDict}
use n2vc.Libjuju.Connection.{Event}
use n2vc.Libjuju.Opening.{IsReliable}
use n2vc.Libjuju.Balance.{result_text-IsBalanced}
use n2vc.Libjuju.Leaks.{create_machine-IsBalanced, provision_machine-IsBalanced}
use n2vc.Libjuju.AddModel.{add_model-IsBalanced}
use n2vc.Connector.{Connector}
use n2vc.Connector.Environments.{
  Credentials, application_name_of, names_of, names_for, ensure_model, environment,
  create_execution_environment, has_proxy, register_machine, register_execution_environment,
}
use n2vc.Connector.Steps.{model_exists-IsBalanced}
use n2vc.Connector.Balance.{IsLevel, level_rules, pure-IsLevel, raise-IsLevel}

module _ (connector : Connector) (reliable : IsReliable connector.juju)
    (opens : (model_name : Text) (h : List Event)
      → connector.juju.fails h (Event.get_model model_name) ≡ none)
    (lists : (h : List Event) → connector.juju.fails h Event.get_machines ≡ none)
    ⦃u : Unicode⦄ where
  pub application_name_of-IsLevel :
      (namespace : Option Text) → IsLevel (application_name_of namespace)
  unfolding application_name_of
  application_name_of-IsLevel namespace = search (level_rules)

  names_of-IsLevel : (namespace : Option Text) → IsLevel (names_of namespace)
  unfolding names_of
  names_of-IsLevel namespace = search (level_rules) depth 16

  names_for-IsLevel :
      (namespace reuse_ee_id : Option Text) → IsLevel (names_for namespace reuse_ee_id)
  unfolding names_for
  names_for-IsLevel namespace none = names_of-IsLevel namespace
  names_for-IsLevel namespace (some []) = names_of-IsLevel namespace
  names_for-IsLevel namespace (some (c ∷ s)) = search (level_rules)

  ensure_model-IsLevel : (model_name : Option Text) → IsLevel (ensure_model connector model_name)
  unfolding ensure_model
  ensure_model-IsLevel model_name =
      search
        (
          level_rules,
          model_exists-IsBalanced connector.juju reliable opens lists,
          add_model-IsBalanced connector.juju reliable,
        )
        depth 16

  environment-IsLevel :
      (db_dict : Option DbDict) (names : Option Text × Option Text × Option Text)
      → IsLevel (environment connector db_dict names)
  unfolding environment
  environment-IsLevel db_dict (m, a, i) =
      search
        (level_rules, ensure_model-IsLevel, create_machine-IsBalanced connector.juju reliable opens)
        depth 20

  pub create_execution_environment-IsLevel :
      (namespace reuse_ee_id : Option Text) (db_dict : Option DbDict)
      → IsLevel (create_execution_environment connector namespace db_dict reuse_ee_id)
  unfolding create_execution_environment
  create_execution_environment-IsLevel namespace reuse_ee_id db_dict =
      search
        (level_rules, names_for-IsLevel, environment-IsLevel, result_text-IsBalanced connector.juju)
        depth 20

  has_proxy-IsLevel : (api_proxy : Option Text) → IsLevel (has_proxy connector api_proxy)
  unfolding has_proxy
  has_proxy-IsLevel none = raise-IsLevel _
  has_proxy-IsLevel (some []) = raise-IsLevel _
  has_proxy-IsLevel (some (c ∷ s)) = pure-IsLevel tt

  register_machine-IsLevel :
      (model_name : Option Text) (hostname username path : Text)
      → IsLevel (register_machine connector model_name hostname username path)
  unfolding register_machine
  register_machine-IsLevel model_name hostname username path =
      search
        (
          level_rules,
          has_proxy-IsLevel,
          ensure_model-IsLevel,
          provision_machine-IsBalanced connector.juju reliable opens,
        )
        depth 16

  pub register_execution_environment-IsLevel :
      (namespace : Option Text) (credentials : Option Credentials)
      → IsLevel (register_execution_environment connector namespace credentials)
  unfolding register_execution_environment
  register_execution_environment-IsLevel namespace none = raise-IsLevel _
  register_execution_environment-IsLevel namespace (some c) =
      search (level_rules, register_machine-IsLevel) depth 20
