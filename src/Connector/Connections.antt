-- ===== src/Connector/Connections.antt =====
-- No operation of n2vc/n2vc_juju_conn.py leaves a connection of libjuju open.
mod Environments
use n2vc.Prelude.{ℕ, ◌≡◌, Option, none, some, List, [], ◌∷◌}
use n2vc.Text.{Text, Unicode}
use n2vc.Database.{DbDict}
use n2vc.Libjuju.Connection.{Event}
use n2vc.Libjuju.Opening.{IsReliable}
use n2vc.Libjuju.Balance.{result_text-IsBalanced}
use n2vc.Libjuju.Leaks.{
  execute_action-IsBalanced, create_machine-IsBalanced, provision_machine-IsBalanced,
  deploy_charm-IsBalanced, add_relation-IsBalanced,
}
use n2vc.Libjuju.AddModel.{add_model-IsBalanced, list_models-IsBalanced}
use n2vc.Libjuju.Destroy.Closing.{destroy_model-IsBalanced}
use n2vc.Connector.{Connector}
use n2vc.Connector.Environments.{
  Credentials, application_name_of, names_of, names_for, ensure_model, environment,
  create_execution_environment, has_proxy, register_machine, register_execution_environment,
}
use n2vc.Connector.Charms.{
  given_dict, full_path, install_configuration_sw, k8s_cloud_of, install_k8s_proxy_charm,
}
use n2vc.Connector.Primitives.{get_ee_ssh_public__key, exec_primitive}
use n2vc.Connector.Ending.{get_status, add_relation, delete_namespace, delete_execution_environment}
use n2vc.Connector.Steps.{
  model_exists-IsBalanced, configure-IsBalanced, run_primitive-IsBalanced, statuses-IsBalanced,
  destroy_listed-IsBalanced,
}
use n2vc.Connector.Connections.Environments.{
  create_execution_environment-IsLevel, register_execution_environment-IsLevel,
}
use n2vc.Connector.Balance.{IsLevel, level_rules, pure-IsLevel, raise-IsLevel}

-- The operations that leave as many connections open as they found.
pub record LeaveLevel ⦃u : Unicode⦄ (connector : Connector) : Type 0 where
  pub create :
      (namespace reuse_ee_id : Option Text) (db_dict : Option DbDict)
      → IsLevel (create_execution_environment connector namespace db_dict reuse_ee_id)
  pub register :
      (namespace : Option Text) (credentials : Option Credentials)
      → IsLevel (register_execution_environment connector namespace credentials)
  pub install :
      (ee_id path : Option Text) (db_dict : Option DbDict) (num_units : ℕ)
      → IsLevel (install_configuration_sw connector ee_id path db_dict num_units)
  pub install_proxy :
      (namespace path : Option Text) (db_dict : Option DbDict)
      → IsLevel (install_k8s_proxy_charm connector namespace path db_dict)
  pub get_key :
      (ee_id : Option Text) (db_dict : Option DbDict)
      → IsLevel (get_ee_ssh_public__key connector ee_id db_dict)
  pub exec :
      (ee_id name : Option Text) (params : List Text)
      → IsLevel (exec_primitive connector ee_id name params)
  pub status : (namespace : Option Text) → IsLevel (get_status connector namespace)
  pub relate :
      (ee_id_1 ee_id_2 endpoint_1 endpoint_2 : Option Text)
      → IsLevel (add_relation connector ee_id_1 ee_id_2 endpoint_1 endpoint_2)
  pub delete :
      (namespace : Option Text) (timeout : Option ℕ)
      → IsLevel (delete_namespace connector namespace timeout)
  pub delete_environment :
      (ee_id : Option Text) (timeout : Option ℕ)
      → IsLevel (delete_execution_environment connector ee_id timeout)

module _ (connector : Connector) (reliable : IsReliable connector.juju)
    (opens : (model_name : Text) (h : List Event)
      → connector.juju.fails h (Event.get_model model_name) ≡ none)
    (lists : (h : List Event) → connector.juju.fails h Event.get_machines ≡ none)
    ⦃u : Unicode⦄ where
  given_dict-IsLevel : (db_dict : Option DbDict) → IsLevel (given_dict db_dict)
  unfolding given_dict
  given_dict-IsLevel none = raise-IsLevel _
  given_dict-IsLevel (some d) = pure-IsLevel tt

  k8s_cloud_of-IsLevel : (cloud : Option Text) → IsLevel (k8s_cloud_of connector cloud)
  unfolding k8s_cloud_of
  k8s_cloud_of-IsLevel none = raise-IsLevel _
  k8s_cloud_of-IsLevel (some []) = raise-IsLevel _
  k8s_cloud_of-IsLevel (some (c ∷ s)) = pure-IsLevel (c ∷ s)

  full_path-IsLevel : (path : Text) → IsLevel (full_path connector path)
  unfolding full_path
  full_path-IsLevel path = search (level_rules) depth 16

  install_configuration_sw-IsLevel :
      (ee_id path : Option Text) (db_dict : Option DbDict) (num_units : ℕ)
      → IsLevel (install_configuration_sw connector ee_id path db_dict num_units)
  unfolding install_configuration_sw
  install_configuration_sw-IsLevel ee_id path db_dict num_units =
      search
        (
          level_rules,
          given_dict-IsLevel,
          full_path-IsLevel,
          deploy_charm-IsBalanced connector.juju reliable opens,
        )
        depth 20

  install_k8s_proxy_charm-IsLevel :
      (namespace path : Option Text) (db_dict : Option DbDict)
      → IsLevel (install_k8s_proxy_charm connector namespace path db_dict)
  unfolding install_k8s_proxy_charm
  install_k8s_proxy_charm-IsLevel namespace path db_dict =
      search
        (
          level_rules,
          given_dict-IsLevel,
          k8s_cloud_of-IsLevel,
          full_path-IsLevel,
          add_model-IsBalanced connector.juju reliable,
          deploy_charm-IsBalanced connector.juju reliable opens,
        )
        depth 24

  get_ee_ssh_public__key-IsLevel :
      (ee_id : Option Text) (db_dict : Option DbDict)
      → IsLevel (get_ee_ssh_public__key connector ee_id db_dict)
  unfolding get_ee_ssh_public__key
  get_ee_ssh_public__key-IsLevel ee_id db_dict =
      search
        (level_rules, given_dict-IsLevel, execute_action-IsBalanced connector.juju reliable opens)
        depth 24

  exec_primitive-IsLevel :
      (ee_id name : Option Text) (params : List Text)
      → IsLevel (exec_primitive connector ee_id name params)
  unfolding exec_primitive
  exec_primitive-IsLevel ee_id name params =
      search
        (
          level_rules,
          configure-IsBalanced connector.juju reliable opens lists,
          run_primitive-IsBalanced connector.juju reliable opens lists,
        )
        depth 20

  get_status-IsLevel : (namespace : Option Text) → IsLevel (get_status connector namespace)
  unfolding get_status
  get_status-IsLevel namespace =
      search
        (
          level_rules,
          list_models-IsBalanced connector.juju,
          reliable,
          statuses-IsBalanced connector.juju reliable opens lists,
        )
        depth 20

  add_relation-IsLevel :
      (ee_id_1 ee_id_2 endpoint_1 endpoint_2 : Option Text)
      → IsLevel (add_relation connector ee_id_1 ee_id_2 endpoint_1 endpoint_2)
  unfolding add_relation
  add_relation-IsLevel ee_id_1 ee_id_2 endpoint_1 endpoint_2 =
      search (level_rules, add_relation-IsBalanced connector.juju reliable opens) depth 24

  delete_namespace-IsLevel :
      (namespace : Option Text) (timeout : Option ℕ)
      → IsLevel (delete_namespace connector namespace timeout)
  unfolding delete_namespace
  delete_namespace-IsLevel namespace timeout =
      search (level_rules, destroy_listed-IsBalanced connector.juju reliable opens lists) depth 20

  delete_execution_environment-IsLevel :
      (ee_id : Option Text) (timeout : Option ℕ)
      → IsLevel (delete_execution_environment connector ee_id timeout)
  unfolding delete_execution_environment
  delete_execution_environment-IsLevel none timeout = raise-IsLevel _
  delete_execution_environment-IsLevel (some ee_id) timeout =
      search (level_rules, destroy_model-IsBalanced connector.juju reliable, lists, opens) depth 20

  -- However they end, the operations on environments, charms, primitives, relations and namespaces
  -- leave as many controllers and models open as they found, if the library closes what it is asked to
  -- close, opens every model, lists its machines, and no call is cancelled.
  pub operations-IsLevel : LeaveLevel connector
  operations-IsLevel = record {
    create = create_execution_environment-IsLevel connector reliable opens lists;
    register = register_execution_environment-IsLevel connector reliable opens lists;
    install = install_configuration_sw-IsLevel;
    install_proxy = install_k8s_proxy_charm-IsLevel;
    get_key = get_ee_ssh_public__key-IsLevel;
    exec = exec_primitive-IsLevel;
    status = get_status-IsLevel;
    relate = add_relation-IsLevel;
    delete = delete_namespace-IsLevel;
    delete_environment = delete_execution_environment-IsLevel;
  }
