-- ===== src/Connector/Ending.antt =====
-- `get_status`, `add_relation`, `delete_namespace`, `delete_execution_environment`, `disconnect` and
-- the methods without an implementation of n2vc/n2vc_juju_conn.py.
use n2vc.Prelude.{ℕ, Bool, true, false, Option, none, some, List, [], ◌∷◌, if◌then◌else◌}
use n2vc.Prelude.Exec.{pure, raise, ◌>>=◌, ◌>>◌, ◌catch◌}
use n2vc.Exception.{n2vc_base, n2vc_bad_arguments, n2vc_connection, method_not_implemented}
use n2vc.Text.{Text, text_eq}
use n2vc.Libjuju.Connection.{Juju, Lib}
use n2vc.Libjuju.Operations.{get_model_status}
use n2vc.Libjuju.Action
use n2vc.Libjuju.Action.{list_models}
use n2vc.Libjuju.Destroy
use n2vc.Libjuju.Destroy.{destroy_model}
use n2vc.Connector.{
  Connector, Op, on_juju, named, or_raise, given, namespace_components, ee_id_components, instead,
}

-- model_1 != model_2
unfoldable pub same_model : Option Text → Option Text → Bool
unfolding text_eq
same_model none none = true
same_model (some m) (some n) = text_eq m n
same_model _ _ = false

module _ (juju : Juju) where
  -- status[m] = await self.libjuju.get_model_status(m)
  unfoldable pub statuses : List Text → Lib (List (Text × Text))
  unfolding get_model_status
  statuses [] = pure []
  statuses (m ∷ ms) = do
    status ← get_model_status juju m
    rest ← statuses ms
    pure ((m, status) ∷ rest)

  -- for model in models: destroy_model
  unfoldable pub destroy_models : List Text → Option ℕ → Lib (Unit {0})
  unfolding destroy_model
  destroy_models [] total_timeout = pure tt
  destroy_models (m ∷ ms) total_timeout = do
    destroy_model juju m total_timeout
    destroy_models ms total_timeout

  unfoldable pub destroy_listed : Text → Option ℕ → Lib (Unit {0})
  unfolding list_models destroy_models
  destroy_listed ns_id total_timeout = do
    models ← list_models juju (some ns_id)
    destroy_models models total_timeout

module _ (connector : Connector) where
  -- The statuses of the models, before they are written as yaml or as a dictionary.
  unfoldable pub get_status : Option Text → Op (List (Text × Text))
  unfolding namespace_components on_juju list_models statuses
  get_status namespace = do
    components ← namespace_components namespace
    ns_id ← or_raise n2vc_bad_arguments components.ns_id
    models ← on_juju (list_models connector.juju (some ns_id))
    on_juju (statuses connector.juju models)

  unfoldable pub add_relation :
      Option Text → Option Text → Option Text → Option Text → Op (Unit {0})
  unfolding given ee_id_components same_model on_juju Action.add_relation instead
  add_relation ee_id_1 ee_id_2 endpoint_1 endpoint_2 = do
    id_1 ← given ee_id_1
    id_2 ← given ee_id_2
    relation_1 ← given endpoint_1
    relation_2 ← given endpoint_2
    (model_1, app_1, machine_1) ← ee_id_components (some id_1)
    (model_2, app_2, machine_2) ← ee_id_components (some id_2)
    (if same_model model_1 model_2 then pure tt else raise n2vc_bad_arguments)
    on_juju (
          Action.add_relation connector.juju (named model_1) (named app_1) (named app_2) relation_1
            relation_2)
        catch instead n2vc_base

  unfoldable pub remove_relation : Op (Unit {0})
  remove_relation = raise method_not_implemented

  unfoldable pub deregister_execution_environments : Op (Unit {0})
  deregister_execution_environments = raise method_not_implemented

  unfoldable pub delete_namespace : Option Text → Option ℕ → Op (Unit {0})
  unfolding namespace_components on_juju destroy_listed instead
  delete_namespace namespace total_timeout = do
    components ← namespace_components namespace
    ns_id ← or_raise n2vc_bad_arguments components.ns_id
    on_juju (destroy_listed connector.juju ns_id total_timeout) catch instead n2vc_base

  unfoldable pub delete_execution_environment : Option Text → Option ℕ → Op (Unit {0})
  unfolding ee_id_components on_juju destroy_model instead
  delete_execution_environment none total_timeout = raise n2vc_bad_arguments
  delete_execution_environment (some ee_id) total_timeout = do
    (model_name, application_name, machine_id) ← ee_id_components (some ee_id)
    on_juju (destroy_model connector.juju (named model_name) total_timeout) catch instead n2vc_base

  unfoldable pub disconnect : Op (Unit {0})
  unfolding on_juju Destroy.disconnect instead
  disconnect = on_juju (Destroy.disconnect connector.juju) catch instead n2vc_connection
