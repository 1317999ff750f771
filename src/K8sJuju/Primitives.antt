-- ===== src/K8sJuju/Primitives.antt =====
-- Actions and statuses in n2vc/k8s_juju_conn.py: `exec_primitive`, `status_kdu` and `inspect_kdu`.
pub mod Executed
use n2vc.Prelude.{Bool, true, false, Option, none, some, List, [], ◌∷◌, if◌then◌else◌}
use n2vc.Prelude.Exec.{pure, raise, ◌>>=◌, ◌>>◌, ◌catch◌}
use n2vc.Exception.{k8s, key_error, attribute_error}
use n2vc.Text.{Text, codes, text_eq}
use n2vc.K8sJuju.Host.{Event, Host, Op, gets, lift, or_raise, call, ask}
use n2vc.K8sJuju.Controller.{is_in, get_namespace, get_model, login}
use n2vc.K8sJuju.Deployment.{disconnect_connected}

module _ (host : Host) where
  -- The first unit that says that it is the leader; each unit is asked.
  unfoldable pub leader : List Text → Op Text
  unfolding ask
  leader [] = raise k8s
  leader (u ∷ us) =
      let rest = leader us in
      do
        leads ← ask host (Event.is_leader u) (λ h. host.leads h u)
        (if leads then pure u else rest)

  -- `status[id] if id in status else "failed"`
  abbrev pub or_failed : Option Text → Text
  or_failed none = codes "failed"
  or_failed (some status) = status

  -- On the unit that leads.
  unfoldable pub run_on : Text → Text → Op Text
  unfolding call ask text_eq
  run_on unit primitive_name = do
    call host (Event.run_action unit primitive_name)
    output ← ask host Event.get_output host.output
    status ← ask host Event.get_action_status host.action_status
    (if text_eq (or_failed status) (codes "completed") then pure output else raise k8s)

  -- With the name of the application.
  unfoldable pub run_primitive : Text → Text → Text → Text → Op Text
  unfolding get_model is_in ask leader run_on
  run_primitive cluster_uuid kdu_instance primitive_name application_name = do
    found ← get_model host kdu_instance cluster_uuid
    (if found then pure tt else raise attribute_error)
    names ← gets (λ s. host.applications s.history)
    (if is_in application_name names then pure tt else raise key_error)
    actions ← ask host (Event.get_actions application_name) host.actions
    (if is_in primitive_name actions then pure tt else raise k8s)
    units ← gets (λ s. host.units s.history application_name)
    unit ← leader units
    run_on unit primitive_name

  -- `application_name` is what the parameters have under "application-name", if they do.
  unfoldable pub exec_primitive : Text → Text → Text → Option Text → Op Text
  unfolding login run_primitive
  exec_primitive cluster_uuid kdu_instance primitive_name application_name = do
    login host cluster_uuid
    name ← or_raise k8s application_name
    run_primitive cluster_uuid kdu_instance primitive_name name catch λ x. raise k8s

  abbrev pub statuses : Bool → Op (List (Text × Text))
  statuses false = pure []
  statuses true = do
    status ← ask host Event.get_status host.statuses
    disconnect_connected host
    pure status

  -- The status of each application; none where the model is not found.
  unfoldable pub status_kdu : Text → Op (List (Text × Text))
  unfolding get_namespace get_model ask disconnect_connected
  status_kdu cluster_uuid = do
    namespace ← get_namespace host cluster_uuid
    found ← get_model host namespace cluster_uuid
    statuses found

  -- The applications of the bundle.
  unfoldable pub inspect_kdu : Text → Op (List (Text × Option Text))
  unfolding call
  inspect_kdu kdu_model = do call host (Event.read_file kdu_model); lift (host.bundle kdu_model)
