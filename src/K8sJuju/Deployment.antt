-- ===== src/K8sJuju/Deployment.antt =====
-- Bundles in n2vc/k8s_juju_conn.py: `install`, `upgrade` and `uninstall`.
pub mod Returns
pub mod Workdir
use n2vc.Prelude.{
  ℕ, Bool, true, false, ◌||◌, ◌==◌, Option, none, some, List, [], ◌∷◌, ◌++◌, if◌then◌else◌,
}
use n2vc.Prelude.Exec.{Result, pure, raise, ◌>>=◌, ◌>>◌, ◌catch◌}
use n2vc.Exception.{Exception, other, key_error, attribute_error, timeout_error}
use n2vc.Text.{Text, codes, starts_with, text_eq}
use n2vc.Text.Split.{split}
use n2vc.K8sJuju.Host.{Event, Host, State, Op, gets, lift, or_raise, call, chdir, disconnect_model}
use n2vc.K8sJuju.Controller.{is_in, get_namespace, get_model, add_model, login, logout, controller}
use n2vc.K8sJuju.Environment.{reset}

-- c in chars
unfoldable pub is_one_of : Text → ℕ → Bool
is_one_of [] c = false
is_one_of (d ∷ chars) c = d == c || is_one_of chars c

unfoldable pub lstrip : Text → Text → Text
unfolding is_one_of
lstrip chars [] = []
lstrip chars (c ∷ s) = let rest = lstrip chars s in if is_one_of chars c then rest else c ∷ s

abbrev pub kept : Text → ℕ → Text → Text
kept chars c [] = if is_one_of chars c then [] else c ∷ []
kept chars c (d ∷ s) = c ∷ d ∷ s

unfoldable pub rstrip : Text → Text → Text
unfolding is_one_of
rstrip chars [] = []
rstrip chars (c ∷ s) = kept chars c (rstrip chars s)

-- s.strip(chars)
unfoldable pub strip : Text → Text → Text
unfolding lstrip rstrip
strip chars s = rstrip chars (lstrip chars s)

-- parts[-1]
unfoldable pub last_part : List Text → Text
last_part [] = []
last_part (g ∷ []) = g
last_part (g ∷ h ∷ gs) = last_part (h ∷ gs)

unfoldable pub new_workdir : Text → Text
unfolding strip split last_part
new_workdir kdu_model = strip (last_part (split b'/' kdu_model)) kdu_model

-- The name of the model: the id of the filter, behind the name of the unit if there is one.
abbrev pub instance_name : Option Text → Text → Text
instance_name none id = id
instance_name (some kdu_name) id = kdu_name ++ codes "-" ++ id

module _ (host : Host) where
  -- The bundle; a local one changes the working directory.
  unfoldable pub find_bundle : Text → Op Text
  unfolding starts_with new_workdir chdir
  find_bundle kdu_model =
      if starts_with (codes "cs:") kdu_model || starts_with (codes "http") kdu_model
      then pure kdu_model
      else chdir host (new_workdir kdu_model) >> pure (codes "local:" ++ kdu_model)

  -- os.getcwd(), or a directory that is there where the working directory is gone
  abbrev pub getcwd : Op Text
  getcwd s = gets (λ s. if host.in_place s.history then s.cwd else codes "/app/storage") s

  -- Whether the wait for an application ended before its timeout.
  abbrev pub on_timeout : Exception → Op Bool
  on_timeout Exception.timeout_error = pure false
  on_timeout x = raise x

  unfoldable pub settled : Text → Op Bool
  unfolding call
  settled name = (call host (Event.block_until name) >> pure true) catch on_timeout

  -- The loop over the applications: whether all settled.
  unfoldable pub all_settled : List Text → Op Bool
  unfolding settled
  all_settled [] = pure true
  all_settled (name ∷ names) =
      let rest = all_settled names in do done ← settled name; (if done then rest else pure false)

  unfoldable pub wait_settled : Bool → Op Bool
  unfolding all_settled
  wait_settled false = pure true
  wait_settled true = do names ← gets (λ s. host.applications s.history); all_settled names

  unfoldable pub disconnect_connected : Op (Unit {0})
  unfolding disconnect_model
  disconnect_connected = do
    connected ← gets (λ s. host.model_connected s.history)
    (if connected then disconnect_model host else pure tt)

  -- After the wait: None stands for the False of a timeout.
  unfoldable pub conclude : Text → Text → Text → Bool → Op (Option Text)
  unfolding chdir reset disconnect_connected
  conclude cluster_uuid previous_workdir kdu_instance false = do
    chdir host previous_workdir
    reset host cluster_uuid
    pure none
  conclude cluster_uuid previous_workdir kdu_instance true = do
    disconnect_connected
    chdir host previous_workdir
    pure (some kdu_instance)

  -- With the model that was added, which is never None.
  unfoldable pub deploy_bundle : Text → Text → Text → Bool → Op (Option Text)
  unfolding find_bundle call wait_settled conclude
  deploy_bundle cluster_uuid kdu_instance kdu_model atomic = do
    previous_workdir ← getcwd
    bundle ← find_bundle kdu_model
    call host (Event.deploy bundle)
    done ← wait_settled atomic
    conclude cluster_uuid previous_workdir kdu_instance done

  -- `filter_id` is `db_dict["filter"]["_id"]`, or the exception where it is not there; a name that is
  -- empty is none.
  unfoldable pub install :
      Text → Text → Bool → Result Exception Text → Option Text → Op (Option Text)
  unfolding login add_model deploy_bundle
  install cluster_uuid kdu_model atomic filter_id kdu_name = do
    login host cluster_uuid
    id ← lift filter_id
    add_model host (instance_name kdu_name id) cluster_uuid
    deploy_bundle cluster_uuid (instance_name kdu_name id) kdu_model atomic

  -- Any error of juju is caught, whatever its message says.
  abbrev pub on_juju_error : Exception → Op (Unit {0})
  on_juju_error (Exception.juju_api found) = pure tt
  on_juju_error x = raise x

  unfoldable pub switch : Text → Text → Op (Unit {0})
  unfolding call
  switch name path = call host (Event.upgrade_charm name path) catch on_juju_error

  -- The loop over the applications of the bundle; a model that was not found has none.
  unfoldable pub upgrade_all : Bool → List (Text × Option Text) → Op (Unit {0})
  unfolding switch is_in
  upgrade_all found [] = pure tt
  upgrade_all false ((name, charm) ∷ bundle) = raise attribute_error
  upgrade_all true ((name, charm) ∷ bundle) = do
    names ← gets (λ s. host.applications s.history)
    (if is_in name names then pure tt else raise key_error)
    path ← or_raise key_error charm
    switch name path
    upgrade_all true bundle

  unfoldable pub upgrade : Text → Text → Op Bool
  unfolding get_namespace get_model call upgrade_all disconnect_model
  upgrade cluster_uuid kdu_model = do
    namespace ← get_namespace host cluster_uuid
    found ← get_model host namespace cluster_uuid
    call host (Event.read_file kdu_model)
    bundle ← lift (host.bundle kdu_model)
    upgrade_all found bundle
    (if found then disconnect_model host else raise attribute_error)
    pure true

  unfoldable pub uninstall : Text → Text → Op Bool
  unfolding login controller call logout
  uninstall cluster_uuid kdu_instance = do
    login host cluster_uuid
    controller
    call host (Event.destroy_models kdu_instance)
    logout host
    pure true
