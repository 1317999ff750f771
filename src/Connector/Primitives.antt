-- ===== src/Connector/Primitives.antt =====
-- `get_ee_ssh_public__key` and `exec_primitive` of n2vc/n2vc_juju_conn.py.
use n2vc.Prelude.{
  ℕ, zero, suc, Bool, true, false, Option, none, some, List, [], ◌∷◌, ◌||◌, if◌then◌else◌,
}
use n2vc.Prelude.Exec.{pure, raise, ◌>>=◌, ◌>>◌, ◌catch◌}
use n2vc.Exception.{index_error, type_error, other, n2vc_execution}
use n2vc.Text.{Text, codes, text_eq, Unicode}
use n2vc.Database.{DbDict}
use n2vc.Libjuju.Connection.{Juju, Lib, Event, call, member}
use n2vc.Libjuju.Action.{execute_action, get_actions, configure_application}
use n2vc.Naming.AppName.{format_app_name}
use n2vc.Connector.{Connector, Op, on_juju, named, or_raise, given, valid_components, instead}
use n2vc.Connector.Charms.{given_dict}

-- output["pubkey"] if "pubkey" in output else output
abbrev pub or_output : Text → Option Text → Text
or_output output none = output
or_output output (some pubkey) = pubkey

-- The names of the parameters of `execute_action`: a primitive's parameter of such a name would be
-- the second of that name in the call, which is a TypeError.
abbrev pub keywords : List Text
keywords =
    codes "self"
    ∷ codes "application_name"
    ∷ codes "model_name"
    ∷ codes "action_name"
    ∷ codes "db_dict"
    ∷ codes "progress_timeout"
    ∷ codes "total_timeout"
    ∷ []

unfoldable pub collides : List Text → Bool
unfolding member
collides [] = false
collides (name ∷ names) = member name keywords || collides names

abbrev pub is_empty : List Text → Bool
is_empty [] = true
is_empty (name ∷ names) = false

module _ (juju : Juju) where
  -- for _ in range(num_retries); after the last one it is only logged that no try succeeded
  unfoldable pub verify_credentials : ℕ → Text → Text → Lib (Unit {0})
  unfolding execute_action call text_eq
  verify_credentials zero model_name application_name = pure tt
  verify_credentials (suc retries) model_name application_name =
      let again = (do
        call juju Event.sleep
        verify_credentials retries model_name application_name) in
      do
        (output, status) ←
            execute_action juju application_name model_name (codes "verify-ssh-credentials")
        (if text_eq status (codes "failed") then again else pure tt)

  -- The "config" primitive.
  unfoldable pub configure : Text → Text → List Text → Lib (Unit {0})
  unfolding configure_application get_actions member verify_credentials
  configure model_name application_name params = do
    configure_application juju model_name application_name (if is_empty params then false else true)
    actions ← get_actions juju application_name model_name
    (if member (codes "verify-ssh-credentials") actions
        then verify_credentials 20 model_name application_name
        else pure tt)

  -- Any other primitive: its output, if its status is completed
  unfoldable pub run_primitive : Text → Text → Text → List Text → Lib Text
  unfolding collides execute_action text_eq
  run_primitive model_name application_name primitive_name params = do
    (if collides params then raise type_error else pure tt)
    (output, status) ← execute_action juju application_name model_name primitive_name
    (if text_eq status (codes "completed") then pure output else raise other)

module _ (connector : Connector) where
  unfoldable pub get_ee_ssh_public__key : ⦃u : Unicode⦄ → Option Text → Option DbDict → Op Text
  unfolding given given_dict valid_components format_app_name on_juju execute_action instead
  get_ee_ssh_public__key ee_id db_dict = do
    id ← given ee_id
    given_dict db_dict
    (model_name, application_name, machine_id) ← valid_components id
    name ← or_raise index_error (format_app_name (named application_name))
    ((do
      r ← on_juju (execute_action connector.juju name (named model_name) (codes "generate-ssh-key"))
      pure tt)
        catch (λ e. pure tt))
    (output, status) ←
        on_juju (execute_action connector.juju name (named model_name) (codes "get-ssh-public-key"))
        catch instead n2vc_execution
    pure (or_output output (connector.output_item output (codes "pubkey")))

  -- `params_dict` is given by its keys.
  unfoldable pub exec_primitive : Option Text → Option Text → List Text → Op Text
  unfolding given valid_components text_eq on_juju configure run_primitive instead
  exec_primitive ee_id primitive_name params = do
    id ← given ee_id
    name ← given primitive_name
    (model_name, application_name, machine_id) ← valid_components id
    (if text_eq name (codes "config")
        then (do
          (on_juju (configure connector.juju (named model_name) (named application_name) params)
              catch instead n2vc_execution)
          pure (codes "CONFIG OK"))
        else (on_juju
              (run_primitive connector.juju (named model_name) (named application_name) name params)
            catch instead n2vc_execution))
