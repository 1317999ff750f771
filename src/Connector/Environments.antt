-- ===== src/Connector/Environments.antt =====
-- `create_execution_environment` and `register_execution_environment` of n2vc/n2vc_juju_conn.py.
use n2vc.Prelude.{true, false, Option, none, some, [], ◌∷◌, if◌then◌else◌}
use n2vc.Prelude.Exec.{pure, raise, ◌>>=◌, ◌>>◌, ◌catch◌}
use n2vc.Exception.{index_error, n2vc_base, n2vc_bad_arguments}
use n2vc.Text.{Text, codes, Unicode}
use n2vc.Database.{DbDict}
use n2vc.Libjuju.Connection.{Event, result_text}
use n2vc.Libjuju.Operations.{model_exists, add_model, create_machine, provision_machine}
use n2vc.Naming.EeId.{build_ee_id}
use n2vc.Naming.Namespace.{get_application_name}
use n2vc.Naming.Namespace.Parts.{shown}
use n2vc.Connector.{
  Connector, Op, on_juju, named, or_raise, given, namespace_components, ee_id_components, instead,
  write_ee_id,
}

-- What `credentials` has under its keys.
pub record Credentials : Type 0 where
  pub hostname : Option Text
  pub username : Option Text
  pub private_key_path : Option Text

module _ ⦃u : Unicode⦄ where
  -- `_get_application_name`; a namespace that is missing or empty has been refused before.
  unfoldable pub application_name_of : Option Text → Op Text
  unfolding get_application_name
  application_name_of namespace = or_raise index_error (get_application_name namespace)

  -- The names of the model, the application and the machine, for a namespace.
  unfoldable pub names_of : Option Text → Op (Option Text × Option Text × Option Text)
  unfolding namespace_components application_name_of
  names_of namespace = do
    components ← namespace_components namespace
    application_name ← application_name_of namespace
    pure (components.ns_id, some application_name, none)

  -- `if reuse_ee_id`: those in the id
  unfoldable pub names_for :
      Option Text → Option Text → Op (Option Text × Option Text × Option Text)
  unfolding names_of ee_id_components
  names_for namespace none = names_of namespace
  names_for namespace (some []) = names_of namespace
  names_for namespace (some (c ∷ s)) = ee_id_components (some (c ∷ s))

module _ (connector : Connector) where
  unfoldable pub ensure_model : Option Text → Op (Unit {0})
  unfolding on_juju model_exists add_model
  ensure_model model_name = do
    there ← on_juju (model_exists connector.juju (named model_name) false)
    (if there then pure tt else (do
      created ← on_juju (add_model connector.juju (named model_name) (named connector.cloud))
      pure tt))

  -- The machine and the id of the environment.
  unfoldable pub environment :
      Option DbDict → Option Text × Option Text × Option Text → Op (Text × Text)
  unfolding ensure_model on_juju create_machine build_ee_id write_ee_id
  environment db_dict (model_name, application_name, machine_id) = do
    ensure_model model_name
    (machine, new) ←
        on_juju (create_machine connector.juju (named model_name) machine_id (codes "xenial") true)
    (let ee_id = build_ee_id (shown model_name) (shown application_name) machine in
        do
          (if new then write_ee_id connector.answers db_dict ee_id else pure tt)
          pure (machine, ee_id))

  -- The id of the environment, and the `dns_name` of its machine.
  unfoldable pub create_execution_environment :
      ⦃u : Unicode⦄ → Option Text → Option DbDict → Option Text → Op (Text × Text)
  unfolding names_for environment instead on_juju result_text
  create_execution_environment namespace db_dict reuse_ee_id = do
    names ← names_for namespace reuse_ee_id
    (machine, ee_id) ← environment db_dict names catch instead n2vc_base
    hostname ← on_juju (result_text connector.juju (Event.dns_name machine))
    pure (ee_id, hostname)

  -- `if "private_key_path" in credentials`, else the path of the connector
  abbrev pub key_path : Option Text → Text
  key_path none = connector.private_key_path
  key_path (some path) = path

  -- `if not self.api_proxy`
  unfoldable pub has_proxy : Option Text → Op (Unit {0})
  has_proxy none = raise n2vc_base
  has_proxy (some []) = raise n2vc_base
  has_proxy (some (c ∷ s)) = pure tt

  unfoldable pub register_machine : Option Text → Text → Text → Text → Op Text
  unfolding has_proxy ensure_model on_juju provision_machine
  register_machine model_name hostname username private_key_path = do
    has_proxy connector.api_proxy
    ensure_model model_name
    on_juju (provision_machine connector.juju (named model_name) hostname username private_key_path)

  unfoldable pub register_execution_environment :
      ⦃u : Unicode⦄ → Option Text → Option Credentials → Op Text
  unfolding given namespace_components application_name_of register_machine instead build_ee_id
  register_execution_environment namespace none = raise n2vc_bad_arguments
  register_execution_environment namespace (some credentials) = do
    hostname ← given credentials.hostname
    username ← given credentials.username
    components ← namespace_components namespace
    application_name ← application_name_of namespace
    machine_id ←
        register_machine components.ns_id hostname username (key_path credentials.private_key_path)
        catch instead n2vc_base
    pure (build_ee_id (shown components.ns_id) application_name machine_id)
