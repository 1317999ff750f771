-- ===== src/Connector/Charms.antt =====
-- `install_configuration_sw` and `install_k8s_proxy_charm` of n2vc/n2vc_juju_conn.py.
use n2vc.Prelude.{ℕ, Option, none, some, [], ◌∷◌, ◌++◌, if◌then◌else◌}
use n2vc.Prelude.Exec.{Result, pure, raise, ◌>>=◌, ◌>>◌, ◌catch◌}
use n2vc.Exception.{Exception, n2vc_base, n2vc_bad_arguments, juju_k8s_proxycharm_not_supported}
use n2vc.Text.{Text, codes, format, starts_with, Unicode}
use n2vc.Text.Squeeze.{squeeze}
use n2vc.Database.{DbDict}
use n2vc.Libjuju.Operations.{add_model, deploy_charm}
use n2vc.Naming.EeId.{build_ee_id}
use n2vc.Naming.Namespace.Parts.{shown}
use n2vc.Connector.{
  Connector, Op, on_juju, named, given, namespace_components, valid_components, instead,
  write_ee_id,
}
use n2vc.Connector.Environments.{application_name_of}

-- `if db_dict is None`
unfoldable pub given_dict : Option DbDict → Op (Unit {0})
given_dict none = raise n2vc_bad_arguments
given_dict (some d) = pure tt

abbrev pub answer : {A : Type 0} → Result Exception A → Op A
answer r s = (r, s)

module _ (connector : Connector) where
  -- `self.fs.path + artifact_path`, with a slash between
  unfoldable pub under_root : Text → Text
  unfolding starts_with
  under_root path =
      if starts_with (codes "/") path
      then connector.fs_path ++ path
      else connector.fs_path ++ codes "/" ++ path

  -- Double slashes are cut down; the directory has to exist.
  unfoldable pub full_path : Text → Op Text
  unfolding squeeze under_root
  full_path artifact_path = do
    there ← answer (connector.file_exists (squeeze b'/' artifact_path))
    (if there then pure (under_root (squeeze b'/' artifact_path)) else raise n2vc_bad_arguments)

  unfoldable pub install_configuration_sw :
      Option Text → Option Text → Option DbDict → ℕ → Op (Unit {0})
  unfolding given given_dict valid_components full_path on_juju deploy_charm instead
  install_configuration_sw ee_id artifact_path db_dict num_units = do
    id ← given ee_id
    path ← given artifact_path
    given_dict db_dict
    (model_name, application_name, machine_id) ← valid_components id
    full ← full_path path
    on_juju (
          deploy_charm connector.juju (named application_name) full (named model_name) machine_id
            none num_units)
        catch instead n2vc_base

  -- `if not self.k8s_cloud`
  unfoldable pub k8s_cloud_of : Option Text → Op Text
  k8s_cloud_of none = raise juju_k8s_proxycharm_not_supported
  k8s_cloud_of (some []) = raise juju_k8s_proxycharm_not_supported
  k8s_cloud_of (some (c ∷ s)) = pure (c ∷ s)

  unfoldable pub install_k8s_proxy_charm :
      ⦃u : Unicode⦄ → Option Text → Option Text → Option DbDict → Op Text
  unfolding k8s_cloud_of given given_dict full_path namespace_components on_juju add_model
      application_name_of deploy_charm instead build_ee_id write_ee_id
  install_k8s_proxy_charm namespace artifact_path db_dict = do
    cloud ← k8s_cloud_of connector.k8s_cloud
    path ← given artifact_path
    given_dict db_dict
    full ← full_path path
    components ← namespace_components namespace
    (let model_name = format (shown components.ns_id ∷ codes "-k8s" ∷ []) in
        do
          created ← on_juju (add_model connector.juju model_name cloud)
          application_name ← application_name_of namespace
          (on_juju (deploy_charm connector.juju application_name full model_name none none 1)
              catch instead n2vc_base)
          (let ee_id = build_ee_id model_name application_name (codes "k8s") in
              do write_ee_id connector.answers db_dict ee_id; pure ee_id))
