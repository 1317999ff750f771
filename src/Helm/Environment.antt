-- ===== src/Helm/Environment.antt =====
-- The environments and repositories of n2vc/k8s_helm_conn.py: `init_env`, `reset`, `repo_add` and
-- `repo_remove`.
pub mod Guarded
use n2vc.Prelude.{Bool, true, false, not, Option, none, some, List, [], ◌∷◌, ◌++◌, if◌then◌else◌}
use n2vc.Prelude.Exec.{pure, raise, ◌>>=◌, ◌>>◌, ◌catch◌}
use n2vc.Exception.{k8s, type_error}
use n2vc.Text.{Text, codes, format, contains, starts_with, Unicode}
use n2vc.Helm.Output.{get_namespace_cluster_id, output_to_table}
use n2vc.Helm.Host.{Event, Release, Host, Op, Paths, call, exists, local_async_exec, get_paths}
use n2vc.Helm.Operations.{instances_list, uninstall, or_raise}

-- A row without cells ends the search.
abbrev pub has_tiller : List (List Text) → Bool
has_tiller [] = false
has_tiller ([] ∷ rows) = false
has_tiller ((c ∷ cs) ∷ rows) =
    if starts_with (codes "tiller-deploy") c then true else has_tiller rows

-- A row with fewer than two cells is passed over.
abbrev pub tiller_namespace : List (List Text) → Option Text
tiller_namespace ((c ∷ d ∷ cs) ∷ rows) =
    if contains (codes "tiller-deploy") d then some c else tiller_namespace rows
tiller_namespace (row ∷ rows) = tiller_namespace rows
tiller_namespace [] = none

-- `namespace_ or namespace`
abbrev pub or_namespace : Text → Text → Text
or_namespace [] namespace = namespace
or_namespace (c ∷ s) namespace = c ∷ s

-- The namespace and the id: of the cluster to reuse, if there is one, else new.
unfoldable pub cluster_for : Text → Option Text → Text → Text × Text
unfolding get_namespace_cluster_id
cluster_for namespace none new_id = (namespace, new_id)
cluster_for namespace (some uuid) new_id =
    (or_namespace (get_namespace_cluster_id uuid).0 namespace, (get_namespace_cluster_id uuid).1)

module _ ⦃u : Unicode⦄ (host : Host) where
  -- helm with its two directories
  abbrev pub helm : Paths → List Text → Bool → Op (Text × Bool)
  helm paths rest strict =
      local_async_exec host
        (format (
          host.helm_command
          ∷ codes " --kubeconfig="
          ∷ paths.config_filename
          ∷ codes " --home="
          ∷ paths.helm_dir
          ∷ rest))
        strict

  abbrev pub kubectl : Paths → List Text → Bool → Op (Text × Bool)
  kubectl paths rest strict =
      local_async_exec host
        (format (host.kubectl_command ∷ codes " --kubeconfig=" ∷ paths.config_filename ∷ rest))
        strict

  -- An error of the update is ignored.
  unfoldable pub repo_add : Text → Text → Text → Op (Unit {0})
  unfolding get_namespace_cluster_id get_paths local_async_exec format
  repo_add cluster_uuid name url = do
    paths ← get_paths host (get_namespace_cluster_id cluster_uuid).1 true
    helm paths (codes " repo update" ∷ []) false
    added ← helm paths (codes " repo add " ∷ name ∷ codes " " ∷ url ∷ []) true
    pure tt

  unfoldable pub repo_remove : Text → Text → Op (Unit {0})
  unfolding get_namespace_cluster_id get_paths local_async_exec format
  repo_remove cluster_uuid name = do
    paths ← get_paths host (get_namespace_cluster_id cluster_uuid).1 true
    removed ← helm paths (codes " repo remove " ∷ name ∷ []) true
    pure tt

  -- Tiller, with its account and its role; that they exist already is no error.
  unfoldable pub install_tiller : Paths → Text → Op Bool
  unfolding local_async_exec format
  install_tiller paths namespace = do
    kubectl paths
        (codes " --namespace kube-system create serviceaccount " ∷ host.service_account ∷ []) false
    kubectl paths
        (codes " create clusterrolebinding osm-tiller-cluster-rule --clusterrole=cluster-admin"
          ∷ codes " --serviceaccount=kube-system:"
          ∷ host.service_account
          ∷ [])
        false
    local_async_exec host
        (format (
          host.helm_command
          ∷ codes " --kubeconfig="
          ∷ paths.config_filename
          ∷ codes " --tiller-namespace="
          ∷ namespace
          ∷ codes " --home="
          ∷ paths.helm_dir
          ∷ codes " --service-account "
          ∷ host.service_account
          ∷ codes " init"
          ∷ []))
        true
    pure true

  -- The client alone, unless it is there.
  unfoldable pub init_client : Paths → Text → Op Bool
  unfolding local_async_exec format exists
  init_client paths namespace = do
    there ← exists host (paths.helm_dir ++ codes "/repository/repositories.yaml")
    (if there then pure false else do
      local_async_exec host
          (format (
            host.helm_command
            ∷ codes " --kubeconfig="
            ∷ paths.config_filename
            ∷ codes " --tiller-namespace="
            ∷ namespace
            ∷ codes " --home="
            ∷ paths.helm_dir
            ∷ codes " init --client-only"
            ∷ []))
          true
      pure false)

  -- The uuid, and whether software was installed; `new_id` is str(uuid4()), and a cluster to reuse
  -- that is empty is none.
  unfoldable pub init_env : Text → Option Text → Text → Op (Text × Bool)
  unfolding cluster_for get_paths call local_async_exec output_to_table install_tiller init_client
  init_env namespace reuse_cluster_uuid new_id =
      let cluster = cluster_for namespace reuse_cluster_uuid new_id in
      do
        paths ← get_paths host cluster.1 true
        call host (Event.write_file paths.config_filename)
        (output, success) ←
            kubectl paths (codes " --namespace=" ∷ cluster.0 ∷ codes " get deployments" ∷ []) true
        n2vc_installed_sw ←
            (if has_tiller (output_to_table output)
              then init_client paths cluster.0
              else install_tiller paths cluster.0)
        pure (cluster.0 ++ codes ":" ++ cluster.1, n2vc_installed_sw)

  -- The loop over the releases: an error does not end it.
  unfoldable pub uninstall_all : Text → List Release → Op (Unit {0})
  unfolding uninstall
  uninstall_all cluster_uuid [] = pure tt
  uninstall_all cluster_uuid (r ∷ rs) = do
    ((do uninstalled ← uninstall host cluster_uuid r.name; pure tt) catch λ e. pure tt)
    uninstall_all cluster_uuid rs

  -- Releases stand against a reset that is not forced.
  unfoldable pub clear_releases : Text → Bool → List Release → Op (Unit {0})
  unfolding uninstall_all
  clear_releases cluster_uuid force [] = pure tt
  clear_releases cluster_uuid true (r ∷ rs) = uninstall_all cluster_uuid (r ∷ rs)
  clear_releases cluster_uuid false (r ∷ rs) = raise k8s

  -- The namespace of tiller: the one given, or where its deployment is found.
  unfoldable pub find_tiller : Paths → Text → Op (Option Text)
  unfolding local_async_exec format output_to_table
  find_tiller paths [] = do
    (output, success) ← kubectl paths (codes " get deployments --all-namespaces" ∷ []) false
    pure (tiller_namespace (output_to_table output))
  find_tiller paths (c ∷ namespace) = pure (some (c ∷ namespace))

  unfoldable pub remove_tiller : Paths → Option Text → Op (Unit {0})
  unfolding local_async_exec format
  remove_tiller paths none = pure tt
  remove_tiller paths (some namespace) = do
    helm paths (codes " reset" ∷ []) true
    kubectl paths
        (codes " delete clusterrolebinding.rbac.authorization.k8s.io/osm-tiller-cluster-rule" ∷ [])
        false
    removed ←
        kubectl paths
          (codes " --namespace kube-system delete serviceaccount/" ∷ host.service_account ∷ [])
          false
    pure tt

  unfoldable pub uninstall_tiller : Bool → Paths → Text → Op (Unit {0})
  unfolding find_tiller remove_tiller
  uninstall_tiller false paths namespace = pure tt
  uninstall_tiller true paths namespace = do
    found ← find_tiller paths namespace
    remove_tiller paths found

  -- len(None) is a TypeError; errors of the removal of the directory are ignored.
  unfoldable pub reset : Text → Bool → Bool → Op Bool
  unfolding get_namespace_cluster_id get_paths instances_list clear_releases uninstall_tiller call
  reset cluster_uuid force uninstall_sw =
      let (namespace, cluster_id) = get_namespace_cluster_id cluster_uuid in
      do
        paths ← get_paths host cluster_id false
        listed ← instances_list host cluster_uuid
        releases ← or_raise type_error listed
        clear_releases cluster_uuid force releases
        uninstall_tiller uninstall_sw paths namespace
        (call host (Event.remove_tree (host.fs_path ++ codes "/" ++ cluster_id)) catch λ e. pure tt)
        pure true
