-- ===== src/Libjuju/Action.antt =====
-- Operations of n2vc/libjuju.py on the actions, the relations and the configuration of an
-- application, `list_models`, and the rounds of `health_check`.
use n2vc.Text.{Text, codes, contains, format}
use n2vc.Prelude.{keep, Bool, true, false, List, [], ◌∷◌, Option, none, some, if◌then◌else◌}
use n2vc.Prelude.Exec.{Result, ok, err, pure, raise, ◌>>=◌, ◌>>◌, ◌catch◌, ◌finally◌}
use n2vc.Exception.{Exception, juju_application_not_found, attribute_error, unbound_local, other}
use n2vc.Libjuju.Connection.{
  Juju, World, Lib, Event, member, call, call_names, call_text, call_flag, result_text,
  get_controller, get_model_, disconnect_controller_,
}
use n2vc.Libjuju.Operations.{connected, disconnect_both}

module _ (juju : Juju) where
  -- `_get_application`: whether the model has it
  unfoldable pub get_application : Text → Lib Bool
  unfolding call_names
  get_application application_name = do
    applications ← call_names juju Event.applications
    pure (member application_name applications)

  -- The last unit that says that it is the leader.
  unfoldable pub leader : List Text → Option Text → Lib (Option Text)
  unfolding call_flag
  leader [] unit = pure unit
  leader (u ∷ us) unit = do
    is_leader ← call_flag juju (Event.is_leader u)
    leader us (if is_leader then some u else unit)

  unfoldable pub or_raise : Option Text → Lib Text
  or_raise none = raise other
  or_raise (some unit) = pure unit

  -- run_action, wait_for, and the output and the status of the action
  unfoldable pub run : Text → Text → Lib (Text × Text)
  unfolding call call_names call_text result_text
  run unit action_name = do
    action ← call_text juju (Event.run_action unit action_name)
    call juju (Event.wait_for action)
    output ← call_text juju (Event.action_output action)
    with_status ← call_names juju (Event.action_status action)
    status ← result_text juju (Event.action_status action)
    pure (output, if member action with_status then status else codes "failed")

  unfoldable pub execute_action : Text → Text → Text → Lib (Text × Text)
  unfolding connected get_application leader or_raise run call_names
  execute_action application_name model_name action_name = connected juju model_name (do
    there ← get_application application_name
    (if there then pure tt else raise juju_application_not_found)
    units ← call_names juju (Event.units application_name)
    found ← leader units none
    unit ← or_raise found
    actions ← call_names juju (Event.get_actions application_name)
    (if member action_name actions then run unit action_name else raise other))

  -- `application.get_actions()` of None is an AttributeError.
  unfoldable pub get_actions : Text → Text → Lib (List Text)
  unfolding connected get_application call_names
  get_actions application_name model_name = connected juju model_name (do
    there ← get_application application_name
    (if there then call_names juju (Event.get_actions application_name) else raise attribute_error))

  -- `except JujuAPIError`: "not found" and "already exists" end the operation silently.
  unfoldable pub forgive : Exception → Lib (Unit {0})
  forgive (Exception.juju_api true) = pure tt
  forgive x = raise x

  -- "application:relation"
  unfoldable pub endpoint : Text → Text → Text
  endpoint application_name relation = format (application_name ∷ codes ":" ∷ relation ∷ [])

  unfoldable pub add_relation : Text → Text → Text → Text → Text → Lib (Unit {0})
  unfolding connected call forgive endpoint
  add_relation model_name application_name_1 application_name_2 relation_1 relation_2 =
      let r1 = endpoint application_name_1 relation_1 in
      let r2 = endpoint application_name_2 relation_2 in
      connected juju model_name (call juju (Event.add_relation r1 r2) catch forgive)

  -- The `finally` block of `configure_application` reads `model` and `controller`, which are unbound
  -- where `get_controller` or `get_model` raised.
  unfoldable pub set_config_to : Text → Lib (Unit {0})
  unfolding get_application call
  set_config_to application_name = do
    there ← get_application application_name
    (if there then call juju (Event.set_config application_name) else raise attribute_error)

  abbrev pub unbound : {A : Type 0} → Result Exception A × World → Result Exception A × World
  unbound (ok a, s) = (ok a, s)
  unbound (err x, s) = (err unbound_local, s)

  unfoldable pub configure_application : Text → Text → Bool → Lib (Unit {0})
  unfolding get_controller get_model_ set_config_to disconnect_both
  configure_application model_name application_name false = pure tt
  configure_application model_name application_name true = do
    λ s. unbound ((get_controller juju >> get_model_ juju model_name) s)
    set_config_to application_name finally disconnect_both juju

  -- `contains`: the text that the names have to hold, if one is given and is not empty
  unfoldable pub is_listed : Option Text → Text → Bool
  unfolding contains
  is_listed none model = true
  is_listed (some []) model = true
  is_listed (some (c ∷ s)) model = contains (c ∷ s) model

  unfoldable pub list_models : Option Text → Lib (List Text)
  unfolding get_controller call_names disconnect_controller_ is_listed
  list_models contained = do
    get_controller juju
    (do models ← call_names juju Event.list_models; pure (keep (is_listed contained) models))
        finally disconnect_controller_ juju

  -- One round of `health_check`, given whether an earlier round has bound `controller`: a failure
  -- to connect is logged, and then the `finally` block disconnects the controller.
  unfoldable pub health_round : Bool → Lib Bool
  unfolding get_controller disconnect_controller_ call
  health_round bound = do
    connected_now ← (do get_controller juju; pure true) catch (λ e. pure false)
    (if connected_now
        then disconnect_controller_ juju
        else if bound
        then call juju Event.disconnect_controller
        else raise unbound_local)
    call juju Event.sleep
    pure true
