-- ===== src/K8sJuju/Environment.antt =====
-- The clusters of n2vc/k8s_juju_conn.py: `is_local_k8s`, `init_env` and `reset`.
pub mod Stored
use n2vc.Prelude.{Bool, true, false, not, Option, none, some, List, [], ◌∷◌, ◌++◌, if◌then◌else◌}
use n2vc.Prelude.Exec.{pure, raise, ◌>>=◌, ◌>>◌, ◌catch◌}
use n2vc.Exception.{key_error, unbound_local}
use n2vc.Text.{Text, codes, contains}
use n2vc.K8sJuju.Host.{
  Event, Key, Config, Credentials, Host, State, Op, gets, modify, lift, or_raise, call,
}
use n2vc.K8sJuju.Commands.{add_k8s, bootstrap, destroy_controller, remove_cloud}
use n2vc.K8sJuju.Controller.{
  get_config, set_config, set_attributes, get_namespace, has_model, login, logout, controller,
}

-- The loop over the clusters: whether the address stands in the server of one.
unfoldable pub is_served : Text → List (Option (Option Text)) → Op Bool
unfolding contains
is_served host_ip [] = pure false
is_served host_ip (none ∷ clusters) = raise key_error
is_served host_ip (some none ∷ clusters) = is_served host_ip clusters
is_served host_ip (some (some server) ∷ clusters) =
    let rest = is_served host_ip clusters in if contains host_ip server then pure true else rest

-- Where the variable is not set, `host_ip` is not bound; it is looked at if there are credentials.
unfoldable pub is_local : Option Text → Option Credentials → Op Bool
unfolding is_served
is_local host_ip none = pure false
is_local none (some creds) = raise unbound_local
is_local (some host_ip) (some creds) = do
  clusters ← or_raise key_error creds.clusters
  is_served host_ip clusters

abbrev pub cloud_of : Text → Text
cloud_of cluster_uuid = codes "k8s-" ++ cluster_uuid

module _ (host : Host) where
  unfoldable pub is_local_k8s : Text → Op Bool
  unfolding is_local
  is_local_k8s credentials = do creds ← lift (host.load credentials); is_local host.host_ip creds

  abbrev pub read_key : Text → Key → Op Text
  read_key cluster_uuid key s = (host.field s.history cluster_uuid key, s)

  -- The attributes of the controller that was bootstrapped, from the files of juju's client.
  unfoldable pub read_controller : Text → Op (Unit {0})
  unfolding call
  read_controller cluster_uuid = do
    call host (Event.read_file (codes "~/.local/share/juju/controllers.yaml"))
    endpoint ← read_key cluster_uuid Key.api_endpoint
    modify (λ s. record s { endpoint = endpoint })
    ca_cert ← read_key cluster_uuid Key.ca_cert
    modify (λ s. record s { ca_cert = ca_cert })
    call host (Event.read_file (codes "~/.local/share/juju/accounts.yaml"))
    user ← read_key cluster_uuid Key.user
    modify (λ s. record s { user = user })
    secret ← read_key cluster_uuid Key.password
    modify (λ s. record s { secret = secret })
    modify (λ s. record s { public_key = none })

  abbrev pub config_of : Text → Bool → State → Config
  config_of namespace loadbalancer s = record {
    loadbalancer = some loadbalancer;
    endpoint = some s.endpoint;
    username = some s.user;
    secret = some s.secret;
    cacert = some s.ca_cert;
    namespace = some namespace;
  }

  -- A new cluster: from the cloud to its file.
  unfoldable pub new_cluster : Text → Text → Text → Op (Unit {0})
  unfolding is_local_k8s add_k8s bootstrap read_controller set_config
  new_cluster k8s_creds namespace cluster_uuid = do
    localk8s ← is_local_k8s k8s_creds
    add_k8s host (cloud_of cluster_uuid)
    bootstrap host (cloud_of cluster_uuid) cluster_uuid (not localk8s)
    read_controller cluster_uuid
    config ← gets (config_of namespace (not localk8s))
    set_config host cluster_uuid config

  unfoldable pub known_cluster : Text → Op (Unit {0})
  unfolding get_config set_attributes
  known_cluster cluster_uuid = do config ← get_config host cluster_uuid; set_attributes config

  -- The uuid; the cluster to reuse is none where it is empty, and `new_uuid` is str(uuid.uuid4()).
  unfoldable pub init_env : Text → Text → Option Text → Text → Op Text
  unfolding new_cluster known_cluster login
  init_env k8s_creds namespace none new_uuid = do
    new_cluster k8s_creds namespace new_uuid
    login host new_uuid
    pure new_uuid
  init_env k8s_creds namespace (some cluster_uuid) new_uuid = do
    known_cluster cluster_uuid
    login host cluster_uuid
    pure cluster_uuid

  -- The model that represents the cluster, if there is one.
  unfoldable pub destroy_namespace : Text → Op (Unit {0})
  unfolding has_model controller call
  destroy_namespace namespace = do
    found ← has_model host namespace
    (if found then controller >> call host (Event.destroy_model namespace) else pure tt)

  unfoldable pub reset_connected : Text → Op (Unit {0})
  unfolding get_namespace destroy_namespace logout destroy_controller remove_cloud
  reset_connected cluster_uuid = do
    namespace ← get_namespace host cluster_uuid
    destroy_namespace namespace
    logout host
    destroy_controller host cluster_uuid
    remove_cloud host (cloud_of cluster_uuid)

  -- All exceptions are caught.
  unfoldable pub reset : Text → Op Bool
  unfolding login controller reset_connected
  reset cluster_uuid =
      ((do
        login host cluster_uuid
        controller
        connected ← gets (λ s. host.is_connected s.history)
        (if connected then reset_connected cluster_uuid else pure tt))
        catch λ x. pure tt)
      >> pure true
