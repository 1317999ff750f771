-- ===== src/K8sJuju/Frame.antt =====
-- What the operations of n2vc/k8s_juju_conn.py keep, for a property of the state that depends neither
-- on the calls made nor on the files and the attributes of a cluster.
pub mod Counts
pub mod Operations
pub mod Plain
use n2vc.Prelude.{not, Bool, true, false, Option, none, some, List, [], ◌∷◌, if◌then◌else◌}
use n2vc.Prelude.Exec.{◌>>=◌, ◌>>◌, pure}
use n2vc.Exception.{Exception}
use n2vc.Text.{Text, contains}
use n2vc.K8sJuju.Host.{
  Event, Key, Config, Credentials, Host, State, call, call_then, changes, ask, command, recorded,
  modify,
}
use n2vc.K8sJuju.Commands.{checked, add_k8s, bootstrap, destroy_controller, remove_cloud}
use n2vc.K8sJuju.Controller.{
  get_config, set_config, set_attributes, get_namespace, list_models, has_model, controller, login,
  logout, config_path, written, file_at,
}
use n2vc.K8sJuju.Environment.{
  is_served, is_local, is_local_k8s, read_key, read_controller, new_cluster, known_cluster,
  init_env, destroy_namespace, reset_connected, reset,
}
use n2vc.K8sJuju.Keeps.{Keeps, bind-Keeps, if-Keeps, pure-Keeps, keeps_rules}

pub record IsFrame (P : State → Type 0) : Type 0 where
  pub history : (e : Event) (s : State) → P s → P (recorded e s)
  pub endpoint : (x : Text) (s : State) → P s → P (record s { endpoint = x })
  pub user : (x : Text) (s : State) → P s → P (record s { user = x })
  pub secret : (x : Text) (s : State) → P s → P (record s { secret = x })
  pub ca_cert : (x : Text) (s : State) → P s → P (record s { ca_cert = x })
  pub public_key : (x : Option Text) (s : State) → P s → P (record s { public_key = x })

module _ {P : State → Type 0} (frame : IsFrame P) where
  endpoint-Keeps : (x : Text) → Keeps P (modify (λ s. record s { endpoint = x }))
  endpoint-Keeps x = record { at = λ s h. frame.endpoint x s h }

  user-Keeps : (x : Text) → Keeps P (modify (λ s. record s { user = x }))
  user-Keeps x = record { at = λ s h. frame.user x s h }

  secret-Keeps : (x : Text) → Keeps P (modify (λ s. record s { secret = x }))
  secret-Keeps x = record { at = λ s h. frame.secret x s h }

  ca_cert-Keeps : (x : Text) → Keeps P (modify (λ s. record s { ca_cert = x }))
  ca_cert-Keeps x = record { at = λ s h. frame.ca_cert x s h }

  public_key-Keeps : (x : Option Text) → Keeps P (modify (λ s. record s { public_key = x }))
  public_key-Keeps x = record { at = λ s h. frame.public_key x s h }

  pub set_attributes-Keeps : (c : Option Config) → Keeps P (set_attributes c)
  unfolding set_attributes
  set_attributes-Keeps c =
      search
        (keeps_rules, endpoint-Keeps, user-Keeps, secret-Keeps, ca_cert-Keeps, public_key-Keeps)
        depth 24

  pub controller-Keeps : Keeps P controller
  unfolding controller
  controller-Keeps = search (keeps_rules)

  pub is_served-Keeps : (ip : Text) (l : List (Option (Option Text))) → Keeps P (is_served ip l)
  unfolding is_served
  is_served-Keeps ip [] = search (keeps_rules)
  is_served-Keeps ip (none ∷ l) = search (keeps_rules)
  is_served-Keeps ip (some none ∷ l) = is_served-Keeps ip l
  is_served-Keeps ip (some (some s) ∷ l) =
      if-Keeps (contains ip s) (pure-Keeps true) (is_served-Keeps ip l)

  pub is_local-Keeps : (ip : Option Text) (c : Option Credentials) → Keeps P (is_local ip c)
  unfolding is_local
  is_local-Keeps ip none = search (keeps_rules)
  is_local-Keeps none (some c) = search (keeps_rules)
  is_local-Keeps (some ip) (some c) = search (keeps_rules, is_served-Keeps)

  module _ (host : Host) where
    pub call-Keeps : (e : Event) → Keeps P (call host e)
    unfolding call
    call-Keeps e = record { at = λ s h. frame.history e s h }

    pub ask-Keeps : {A : Type 0} (e : Event) (f : List Event → A) → Keeps P (ask host e f)
    unfolding ask
    ask-Keeps e f = record { at = λ s h. frame.history e s h }

    -- A call keeps what its change keeps.
    pub call_then-Keeps :
        (e : Event) (f : State → State)
        → ((s : State) → P s → P (f s))
        → Keeps P (call_then host e f)
    unfolding call_then
    call_then-Keeps e f k = record { at = λ s h. go (host.fails s.history e) s h }
      where
        go : (x : Option Exception) (s : State) → P s → P (recorded e (changes x f s))
        go none s h = frame.history e (f s) (k s h)
        go (some x) s h = frame.history e s h

    pub command-Keeps : (argv : List Text) → Keeps P (command host argv)
    unfolding command
    command-Keeps argv = search (ask-Keeps)

    pub checked-Keeps : (argv : List Text) → Keeps P (checked host argv)
    unfolding checked
    checked-Keeps argv = search (keeps_rules, command-Keeps)

    pub add_k8s-Keeps : (cloud_name : Text) → Keeps P (add_k8s host cloud_name)
    unfolding add_k8s
    add_k8s-Keeps cloud_name = search (checked-Keeps)

    pub bootstrap-Keeps :
        (cloud_name cluster_uuid : Text) (loadbalancer : Bool)
        → Keeps P (bootstrap host cloud_name cluster_uuid loadbalancer)
    unfolding bootstrap
    bootstrap-Keeps cloud_name cluster_uuid loadbalancer = search (keeps_rules, command-Keeps)

    pub destroy_controller-Keeps :
        (cluster_uuid : Text) → Keeps P (destroy_controller host cluster_uuid)
    unfolding destroy_controller
    destroy_controller-Keeps cluster_uuid = search (keeps_rules, command-Keeps)

    pub remove_cloud-Keeps : (cloud_name : Text) → Keeps P (remove_cloud host cloud_name)
    unfolding remove_cloud
    remove_cloud-Keeps cloud_name = search (keeps_rules, checked-Keeps)

    pub get_config-Keeps : (cluster_uuid : Text) → Keeps P (get_config host cluster_uuid)
    unfolding get_config
    get_config-Keeps cluster_uuid = search (keeps_rules, call-Keeps)

    pub get_namespace-Keeps : (cluster_uuid : Text) → Keeps P (get_namespace host cluster_uuid)
    unfolding get_namespace
    get_namespace-Keeps cluster_uuid = search (keeps_rules, get_config-Keeps)

    pub list_models-Keeps : Keeps P (list_models host)
    unfolding list_models
    list_models-Keeps = search (keeps_rules, controller-Keeps, ask-Keeps)

    has_model-Keeps : (model_name : Text) → Keeps P (has_model host model_name)
    unfolding has_model
    has_model-Keeps model_name = search (keeps_rules, list_models-Keeps)

    destroy_namespace-Keeps : (namespace : Text) → Keeps P (destroy_namespace host namespace)
    unfolding destroy_namespace
    destroy_namespace-Keeps namespace =
        search (keeps_rules, has_model-Keeps, controller-Keeps, call-Keeps)

    read_key-Keeps : (cluster_uuid : Text) (key : Key) → Keeps P (read_key host cluster_uuid key)
    read_key-Keeps cluster_uuid key = record { at = λ s h. h }

    pub read_controller-Keeps : (cluster_uuid : Text) → Keeps P (read_controller host cluster_uuid)
    unfolding read_controller
    read_controller-Keeps cluster_uuid =
        search
          (
            keeps_rules, call-Keeps, read_key-Keeps, endpoint-Keeps, user-Keeps, secret-Keeps,
            ca_cert-Keeps, public_key-Keeps,
          )
          depth 32

    pub known_cluster-Keeps : (cluster_uuid : Text) → Keeps P (known_cluster host cluster_uuid)
    unfolding known_cluster
    known_cluster-Keeps cluster_uuid = search (keeps_rules, get_config-Keeps, set_attributes-Keeps)

    -- With a property that the connection keeps too.
    module _ (login-Keeps : (cluster_uuid : Text) → Keeps P (login host cluster_uuid))
        (logout-Keeps : Keeps P (logout host)) where
      reset_connected-Keeps : (cluster_uuid : Text) → Keeps P (reset_connected host cluster_uuid)
      unfolding reset_connected
      reset_connected-Keeps cluster_uuid =
          bind-Keeps (get_namespace-Keeps cluster_uuid) (λ namespace.
            bind-Keeps (destroy_namespace-Keeps namespace) (λ _. bind-Keeps logout-Keeps (λ _.
              bind-Keeps (destroy_controller-Keeps cluster_uuid) (λ _. remove_cloud-Keeps _))))

      pub reset-Keeps : (cluster_uuid : Text) → Keeps P (reset host cluster_uuid)
      unfolding reset
      reset-Keeps cluster_uuid =
          search (keeps_rules, login-Keeps, controller-Keeps, reset_connected-Keeps) depth 24

    -- And one that the files of the clusters do not matter to.
    module _ (login-Keeps : (cluster_uuid : Text) → Keeps P (login host cluster_uuid))
        (files-P : (x : List (Text × Option Config)) (s : State)
          → P s
          → P (record s { files = x })) where
      written-Keeps :
          (path : Text) (c : Config) (f : Option (Option Config)) → Keeps P (written host path c f)
      written-Keeps path c none =
          call_then-Keeps _ _ (λ s h. files-P ((path, some c) ∷ s.files) s h)
      written-Keeps path c (some f) = search (keeps_rules)

      pub set_config-Keeps :
          (cluster_uuid : Text) (c : Config) → Keeps P (set_config host cluster_uuid c)
      unfolding set_config
      set_config-Keeps cluster_uuid c = search (keeps_rules, written-Keeps)

      pub new_cluster-Keeps :
          (k8s_creds namespace cluster_uuid : Text)
          → Keeps P (new_cluster host k8s_creds namespace cluster_uuid)
      unfolding new_cluster is_local_k8s
      new_cluster-Keeps k8s_creds namespace cluster_uuid =
          search
            (
              keeps_rules, is_local-Keeps, add_k8s-Keeps, bootstrap-Keeps, read_controller-Keeps,
              set_config-Keeps,
            )
            depth 24

      pub init_env-Keeps :
          (k8s_creds namespace : Text) (reuse : Option Text) (new_uuid : Text)
          → Keeps P (init_env host k8s_creds namespace reuse new_uuid)
      unfolding init_env
      init_env-Keeps k8s_creds namespace none new_uuid =
          search (keeps_rules, new_cluster-Keeps, login-Keeps)
      init_env-Keeps k8s_creds namespace (some uuid) new_uuid =
          search (keeps_rules, known_cluster-Keeps, login-Keeps)
