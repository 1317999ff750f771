-- ===== src/Helm/Releases.antt =====
-- `install`, `upgrade` and `rollback` of n2vc/k8s_helm_conn.py.
--
-- Beside a command that may take long, a task writes the status of the release now and then until the
-- command ends. How many rounds it has is given for each state; they are run before the command is
-- recorded, that is, it is recorded when it ends.
use n2vc.Prelude.{
  ℕ, zero, suc, Bool, true, false, Option, none, some, List, [], ◌∷◌, ◌++◌, if◌then◌else◌,
}
use n2vc.Prelude.Exec.{pure, raise, ◌>>=◌, ◌>>◌, ◌catch◌}
use n2vc.Exception.{Exception, other, k8s, index_error}
use n2vc.Text.{Text, codes, format, Unicode}
use n2vc.Text.Split.{split}
use n2vc.Database.{DbDict}
use n2vc.Helm.Output.{get_namespace_cluster_id}
use n2vc.Helm.Release.{generate_release_name}
use n2vc.Helm.Host.{Host, Op, random, local_async_exec, get_paths, params_to_file_option}
use n2vc.Helm.Operations.{
  or_raise, status_kdu, store_status, store_rounds, get_instance_info, revision_of,
  remove_temporary,
}

-- `" --timeout {}"` and the like, where the value is given
abbrev pub option : Text → Option Text → Text
option flag none = []
option flag (some value) = flag ++ value

-- The model without its version, and the option for the version: if there are two parts.
abbrev pub parts_of_model : Text → List Text → Text × Option Text
parts_of_model kdu_model (model ∷ version ∷ []) = (model, some version)
parts_of_model kdu_model parts = (kdu_model, none)

unfoldable pub version_of : Text → Text × Option Text
unfolding split
version_of kdu_model = parts_of_model kdu_model (split b':' kdu_model)

module _ ⦃u : Unicode⦄ (host : Host) where
  -- A command, with the rounds of `_store_status` beside it.
  unfoldable pub with_status : Text → Text → Text → Option DbDict → Text → Op (Text × Bool)
  unfolding store_rounds local_async_exec
  with_status command cluster_id kdu_instance db_dict operation = do
    λ s. store_rounds host (host.rounds s.history) cluster_id kdu_instance db_dict operation s
    local_async_exec host command false

  -- The final status is written; then a return code other than 0 is an exception.
  unfoldable pub concluded : {A : Type 0} → Bool → Text → Text → Option DbDict → Text → Op A → Op A
  unfolding store_status
  concluded success cluster_id kdu_instance db_dict operation result = do
    more ← store_status host cluster_id kdu_instance db_dict operation
    (if success then result else raise k8s)

  -- `if atomic`: in a task, with the rounds beside it
  unfoldable pub executed : Bool → Text → Text → Text → Option DbDict → Text → Op (Text × Bool)
  unfolding with_status local_async_exec
  executed true command cluster_id kdu_instance db_dict operation =
      with_status command cluster_id kdu_instance db_dict operation
  executed false command cluster_id kdu_instance db_dict operation =
      local_async_exec host command false

  abbrev pub atomic_str : Bool → Text
  atomic_str true = codes "--atomic"
  atomic_str false = []

  -- From the paths to the end of the command, which returns the output and whether it succeeded.
  unfoldable pub rollback_command : Text → Text → Text → Option DbDict → Op (Text × Bool)
  unfolding get_paths with_status format
  rollback_command cluster_id kdu_instance revision db_dict = do
    paths ← get_paths host cluster_id true
    with_status
        (format (
          host.helm_command
          ∷ codes " rollback --kubeconfig="
          ∷ paths.config_filename
          ∷ codes " --home="
          ∷ paths.helm_dir
          ∷ codes " "
          ∷ kdu_instance
          ∷ codes " "
          ∷ revision
          ∷ codes " --wait"
          ∷ []))
        cluster_id kdu_instance db_dict (codes "rollback")

  -- The new revision, or 0; `revision` is the number as it is written.
  unfoldable pub rollback : Text → Text → Text → Option DbDict → Op ℕ
  unfolding get_namespace_cluster_id rollback_command concluded get_instance_info
  rollback cluster_uuid kdu_instance revision db_dict =
      let cluster_id = (get_namespace_cluster_id cluster_uuid).1 in
      do
        (output, success) ← rollback_command cluster_id kdu_instance revision db_dict
        concluded success cluster_id kdu_instance db_dict (codes "rollback") (do
          instance_info ← get_instance_info host cluster_uuid kdu_instance
          pure (revision_of host instance_info))

  -- `kdu_model` is None where no chart is given, and then written so.
  abbrev pub version_of_option : Option Text → Text × Option Text
  version_of_option none = (codes "None", none)
  version_of_option (some kdu_model) = version_of kdu_model

  unfoldable pub upgrade_command :
      Text → Text → Option Text → Bool → Option Text → Bool → Option DbDict → Op (Text × Bool)
  unfolding get_paths params_to_file_option version_of executed format
  upgrade_command cluster_id kdu_instance kdu_model atomic timeout has_params db_dict = do
    paths ← get_paths host cluster_id true
    (params_str, file_to_delete) ← params_to_file_option host cluster_id has_params
    (output, success) ←
        executed atomic
          (format (
            host.helm_command
            ∷ codes " upgrade "
            ∷ atomic_str atomic
            ∷ codes " --output yaml --kubeconfig="
            ∷ paths.config_filename
            ∷ codes " --home="
            ∷ paths.helm_dir
            ∷ codes " "
            ∷ params_str
            ∷ codes " "
            ∷ option (codes "--timeout ") timeout
            ∷ codes " "
            ∷ kdu_instance
            ∷ codes " "
            ∷ (version_of_option kdu_model).0
            ∷ codes " "
            ∷ option (codes "--version ") (version_of_option kdu_model).1
            ∷ []))
          cluster_id kdu_instance db_dict (codes "upgrade")
    remove_temporary host file_to_delete
    pure (output, success)

  unfoldable pub upgrade :
      Text → Text → Option Text → Bool → Option Text → Bool → Option DbDict → Op ℕ
  unfolding get_namespace_cluster_id upgrade_command concluded get_instance_info
  upgrade cluster_uuid kdu_instance kdu_model atomic timeout has_params db_dict =
      let cluster_id = (get_namespace_cluster_id cluster_uuid).1 in
      do
        (output, success) ←
            upgrade_command cluster_id kdu_instance kdu_model atomic timeout has_params db_dict
        concluded success cluster_id kdu_instance db_dict (codes "upgrade") (do
          instance_info ← get_instance_info host cluster_uuid kdu_instance
          pure (revision_of host instance_info))

  -- `except K8sException: pass`: the name is free
  unfoldable pub is_free : Exception → Op Bool
  is_free Exception.k8s = pure false
  is_free x = raise x

  -- Whether there is a release of the name.
  unfoldable pub is_taken : Text → Text → Op Bool
  unfolding status_kdu is_free
  is_taken cluster_id kdu_instance =
      (do status ← status_kdu host cluster_id kdu_instance; pure true) catch is_free

  -- `while kdu_instance is None`, for some tries; a name that is no text is an IndexError.
  unfoldable pub find_name : ℕ → Text → Text → Op Text
  unfolding random generate_release_name is_taken
  find_name zero cluster_id kdu_model = raise other
  find_name (suc tries) cluster_id kdu_model =
      let again = find_name tries cluster_id kdu_model in
      do
        number ← random host
        name ← or_raise index_error (generate_release_name kdu_model number)
        taken ← is_taken cluster_id name
        (if taken then again else pure name)

  -- The name of the release, and how the command ended. An empty namespace is none.
  unfoldable pub install_command :
      ℕ → Text → Text → Bool → Option Text → Bool → Option DbDict → Option Text → Op (Text × Bool)
  unfolding get_paths params_to_file_option version_of find_name executed format
  install_command tries cluster_id kdu_model atomic timeout has_params db_dict namespace = do
    paths ← get_paths host cluster_id true
    (params_str, file_to_delete) ← params_to_file_option host cluster_id has_params
    kdu_instance ← find_name tries cluster_id (version_of kdu_model).0
    (output, success) ←
        executed atomic
          (format (
            host.helm_command
            ∷ codes " install "
            ∷ atomic_str atomic
            ∷ codes " --output yaml --kubeconfig="
            ∷ paths.config_filename
            ∷ codes " --home="
            ∷ paths.helm_dir
            ∷ codes " "
            ∷ params_str
            ∷ codes " "
            ∷ option (codes "--timeout ") timeout
            ∷ codes " --name="
            ∷ kdu_instance
            ∷ codes " "
            ∷ option (codes "--namespace ") namespace
            ∷ codes " "
            ∷ (version_of kdu_model).0
            ∷ codes " "
            ∷ option (codes "--version ") (version_of kdu_model).1
            ∷ []))
          cluster_id kdu_instance db_dict (codes "install")
    remove_temporary host file_to_delete
    pure (kdu_instance, success)

  unfoldable pub install :
      ℕ → Text → Text → Bool → Option Text → Bool → Option DbDict → Option Text → Op Text
  unfolding get_namespace_cluster_id install_command concluded
  install tries cluster_uuid kdu_model atomic timeout has_params db_dict namespace =
      let cluster_id = (get_namespace_cluster_id cluster_uuid).1 in
      do
        (kdu_instance, success) ←
            install_command tries cluster_id kdu_model atomic timeout has_params db_dict namespace
        concluded success cluster_id kdu_instance db_dict (codes "install") (pure kdu_instance)
