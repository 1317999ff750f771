-- ===== src/K8sJuju/Controller.antt =====
-- The connection of n2vc/k8s_juju_conn.py to the controller of a cluster: the files of the clusters,
-- `login`, `logout`, and the models of the controller.
pub mod Held
use n2vc.Prelude.{◌+◌, Bool, true, false, ◌||◌, Option, none, some, List, [], ◌∷◌, if◌then◌else◌}
use n2vc.Prelude.Exec.{pure, raise, ◌>>=◌, ◌>>◌, ◌catch◌}
use n2vc.Exception.{other, type_error, key_error, unbound_local, attribute_error}
use n2vc.Text.{Text, codes, format, text_eq}
use n2vc.K8sJuju.Host.{
  Event, Config, Host, State, Op, gets, modify, or_raise, opened, left, call, call_then, ask,
}

-- The file of a path, if it exists.
unfoldable pub file_at : Text → List (Text × Option Config) → Option (Option Config)
unfolding text_eq
file_at path [] = none
file_at path ((p, f) ∷ files) = if text_eq p path then some f else file_at path files

-- model_name in models
unfoldable pub is_in : Text → List Text → Bool
unfolding text_eq
is_in name [] = false
is_in name (m ∷ ms) = text_eq m name || is_in name ms

-- The attributes of a configuration, one after the other; a key that is missing is a KeyError.
unfoldable pub set_attributes : Option Config → Op (Unit {0})
set_attributes found = do
  config ← or_raise type_error found
  endpoint ← or_raise key_error config.endpoint
  modify (λ s. record s { endpoint = endpoint })
  user ← or_raise key_error config.username
  modify (λ s. record s { user = user })
  secret ← or_raise key_error config.secret
  modify (λ s. record s { secret = secret })
  ca_cert ← or_raise key_error config.cacert
  modify (λ s. record s { ca_cert = ca_cert })
  modify (λ s. record s { public_key = none })

-- A method of `self.controller`: None and an attribute that is missing have none.
unfoldable pub controller : Op (Unit {0})
controller = do
  has_controller ← gets (λ s. s.has_controller)
  (if has_controller then pure tt else raise attribute_error)

abbrev pub connected : State → State
connected s = record s { authenticated = true; open_controllers = s.open_controllers + 1 }

module _ (host : Host) where
  unfoldable pub config_path : Text → Text
  unfolding format
  config_path cluster_uuid = format (host.fs_path ∷ codes "/" ∷ cluster_uuid ∷ codes ".yaml" ∷ [])

  -- The configuration; a file that does not exist is an exception, and one without content is None.
  unfoldable pub get_config : Text → Op (Option Config)
  unfolding config_path call file_at
  get_config cluster_uuid = do
    found ← gets (λ s. file_at (config_path cluster_uuid) s.files)
    config ← or_raise other found
    call host (Event.read_file (config_path cluster_uuid))
    pure config

  -- A file that exists stays as it is.
  abbrev pub written : Text → Config → Option (Option Config) → Op (Unit {0})
  written path config (some f) = pure tt
  written path config none =
      call_then host (Event.write_file path)
        (λ s. record s { files = (path, some config) ∷ s.files })

  unfoldable pub set_config : Text → Config → Op (Unit {0})
  unfolding config_path call_then file_at
  set_config cluster_uuid config = do
    found ← gets (λ s. file_at (config_path cluster_uuid) s.files)
    written (config_path cluster_uuid) config found

  unfoldable pub get_namespace : Text → Op Text
  unfolding get_config
  get_namespace cluster_uuid = do
    found ← get_config cluster_uuid
    config ← or_raise type_error found
    or_raise other config.namespace

  -- An exception of the connection is caught, and an empty secret makes none.
  unfoldable pub connect : Text → Op (Unit {0})
  unfolding call_then
  connect [] = modify (λ s. record s { authenticated = false })
  connect (c ∷ secret) = call_then host Event.connect connected catch λ x. pure tt

  unfoldable pub login_again : Text → Op (Unit {0})
  unfolding get_config set_attributes connect
  login_again cluster_uuid = do
    config ← get_config cluster_uuid
    set_attributes config
    modify (λ s. record s { has_controller = true })
    secret ← gets (λ s. s.secret)
    connect secret

  unfoldable pub login : Text → Op (Unit {0})
  unfolding login_again
  login cluster_uuid = do
    authenticated ← gets (λ s. s.authenticated)
    (if authenticated then pure tt else login_again cluster_uuid)

  -- `if self.controller`
  unfoldable pub leave : Bool → Op (Unit {0})
  unfolding call_then
  leave false = pure tt
  leave true = do
    call_then host Event.disconnect_controller left
    modify (λ s. record s { has_controller = false })

  unfoldable pub logout_now : Op (Unit {0})
  unfolding leave
  logout_now = do
    has_controller ← gets (λ s. s.has_controller)
    leave has_controller
    modify (λ s. record s { authenticated = false })

  unfoldable pub logout : Op (Unit {0})
  unfolding logout_now
  logout = do
    authenticated ← gets (λ s. s.authenticated)
    (if authenticated then logout_now else pure tt)

  unfoldable pub list_models : Op (List Text)
  unfolding controller ask
  list_models = do controller; ask host Event.list_models host.models

  unfoldable pub has_model : Text → Op Bool
  unfolding list_models is_in
  has_model model_name = do models ← list_models; pure (is_in model_name models)

  -- Whether the model was found; its connection is open then.
  unfoldable pub get_model : Text → Text → Op Bool
  unfolding login list_models call_then is_in
  get_model model_name cluster_uuid = do
    login cluster_uuid
    models ← list_models
    (if is_in model_name models
        then call_then host (Event.get_model model_name) opened >> pure true
        else pure false)

  -- An exception of the controller is caught, and then `model` is not bound.
  unfoldable pub add_model : Text → Text → Op (Unit {0})
  unfolding login controller call_then
  add_model model_name cluster_uuid = do
    login cluster_uuid
    ((do
      key ← gets (λ s. s.public_key)
      controller
      call_then host (Event.add_model model_name key) opened)
        catch λ x. raise unbound_local)
