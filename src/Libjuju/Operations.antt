-- ===== src/Libjuju/Operations.antt =====
-- Operations of n2vc/libjuju.py on models, machines and applications. Each connects to a controller
-- (and most to a model), and disconnects in its `finally` block.
use n2vc.Text.{Text, codes}
use n2vc.Prelude.{
  ℕ, zero, suc, ◌+◌, ◌-◌, Bool, true, false, ◌∷◌, ◌++◌, Option, none, some, if◌then◌else◌,
}
use n2vc.Prelude.Exec.{Result, ok, err, pure, raise, ◌>>=◌, ◌>>◌, ◌finally◌, ended}
use n2vc.Exception.{
  Exception, juju_model_already_exists, juju_machine_not_found, juju_application_exists,
  value_error,
}
use n2vc.Libjuju.Connection.{
  Juju, World, Lib, Event, member, call, call_names, call_text, call_flag, result_text, started,
  get_controller, get_model_, disconnect_controller_, disconnect_model_, recorded,
}

module _ (juju : Juju) where
  -- disconnect_model, disconnect_controller
  unfoldable pub disconnect_both : Lib (Unit {0})
  unfolding disconnect_model_ disconnect_controller_
  disconnect_both = do disconnect_model_ juju; disconnect_controller_ juju

  -- The frame of most operations: get_controller, get_model, `try: body finally: disconnect both`.
  unfoldable pub connected : {A : Type 0} → Text → Lib A → Lib A
  unfolding get_controller get_model_ disconnect_both
  connected model_name body = do
    get_controller juju
    get_model_ juju model_name
    body finally disconnect_both

  -- model_exists: with the caller's controller, or with one of its own
  unfoldable pub model_exists : Text → Bool → Lib Bool
  unfolding call_names member disconnect_controller_ get_controller
  model_exists model_name true = do
    names ← call_names juju Event.list_models
    pure (member model_name names)
  model_exists model_name false = do
    get_controller juju
    (do names ← call_names juju Event.list_models; pure (member model_name names))
        finally disconnect_controller_ juju

  -- `while self.creating_model.locked()`: meanwhile other tasks may have added models.
  unfoldable pub wait_for_lock : Lib (Unit {0})
  wait_for_lock s = (
    ok tt,
    record (recorded Event.lock_wait s) {
      models = juju.names s.history Event.lock_wait ++ s.models;
    },
  )

  -- controller.add_model(...), then self.models.add(model_name); the model is connected
  unfoldable pub create_model : Text → Text → Lib Bool
  unfolding call
  create_model model_name cloud_name = do
    call juju (Event.add_model model_name cloud_name)
    λ s. (ok true, record s { open_models = s.open_models + 1; models = model_name ∷ s.models })

  -- Whether the model was created, as the `finally` block sees it.
  unfoldable pub try_add_model : Text → Text → Lib Bool
  unfolding model_exists wait_for_lock create_model
  try_add_model model_name cloud_name = do
    exists ← model_exists model_name true
    (if exists then raise juju_model_already_exists else pure tt)
    wait_for_lock
    λ s. if member model_name s.models then (ok false, s) else create_model model_name cloud_name s

  -- `finally`: `if model: disconnect_model`, disconnect_controller
  abbrev pub after_add : Result Exception Bool × World → Result Exception Bool × World
  after_add (ok true, s) = ended (ok true) (disconnect_both s)
  after_add (ok false, s) = ended (ok false) (disconnect_controller_ juju s)
  after_add (err x, s) = ended (err x) (disconnect_controller_ juju s)

  unfoldable pub add_model : Text → Text → Lib Bool
  unfolding get_controller try_add_model disconnect_both disconnect_controller_
  add_model model_name cloud_name = do
    get_controller juju
    λ s. after_add (try_add_model model_name cloud_name s)

  unfoldable pub get_model_status : Text → Lib Text
  unfolding connected call_text
  get_model_status model_name = connected model_name (call_text juju Event.get_status)

  -- The machine and whether it is new.
  unfoldable pub machine_for : Option Text → Text → Bool → Lib (Text × Bool)
  unfolding call call_names call_text
  machine_for (some machine_id) series wait = do
    machines ← call_names juju Event.get_machines
    (if member machine_id machines then pure (machine_id, false) else raise juju_machine_not_found)
  machine_for none series wait = do
    machine ← call_text juju (Event.add_machine series)
    (if wait then call juju (Event.wait_for machine) else pure tt)
    pure (machine, true)

  unfoldable pub create_machine : Text → Option Text → Text → Bool → Lib (Text × Bool)
  unfolding connected machine_for
  create_machine model_name machine_id series wait =
      connected model_name (machine_for machine_id series wait)

  -- `for _ in range(10)`: whether the machine is in the model, asked every two seconds
  unfoldable pub find_machine : ℕ → Text → Lib Bool
  unfolding call call_names
  find_machine zero machine_id = pure false
  find_machine (suc rounds) machine_id =
      let again = do call juju Event.sleep; find_machine rounds machine_id
      in do
        machine_list ← call_names juju Event.get_machines
        (if member machine_id machine_list then pure true else again)

  -- `results.machines[0].error`, `results.machines[0].machine`
  unfoldable pub provision : Text → Text → Text → Lib Text
  unfolding call call_flag result_text started find_machine
  provision hostname username private_key_path = do
    call juju (Event.provision hostname username private_key_path)
    error ← call_flag juju Event.add_machines
    (if error then raise value_error else pure tt)
    machine_id ← result_text juju Event.add_machines
    started Event.install_agent
    found ← find_machine 10 machine_id
    (if found then call juju (Event.wait_for machine_id) else raise juju_machine_not_found)
    pure machine_id

  unfoldable pub provision_machine : Text → Text → Text → Text → Lib Text
  unfolding connected provision
  provision_machine model_name hostname username private_key_path =
      connected model_name (provision hostname username private_key_path)

  -- `for _ in range(num_units - 1)`: a machine and a unit each
  unfoldable pub add_units : ℕ → Text → Text → Lib (Unit {0})
  unfolding create_machine call
  add_units zero model_name application_name = pure tt
  add_units (suc n) model_name application_name = do
    (m, new) ← create_machine model_name none (codes "xenial") false
    call juju (Event.add_unit m)
    add_units n model_name application_name

  -- The series of the machine that is given, if one is.
  unfoldable pub series_for : Option Text → Option Text → Lib (Option Text)
  unfolding call_names call_text
  series_for none series = pure series
  series_for (some machine_id) series = do
    machines ← call_names juju Event.machines
    (if member machine_id machines then pure tt else raise juju_machine_not_found)
    s ← call_text juju (Event.series_of machine_id)
    pure (some s)

  unfoldable pub deploy_new : Text → Text → Text → Option Text → Option Text → ℕ → Lib (Unit {0})
  unfolding series_for call add_units
  deploy_new application_name path model_name machine_id series num_units = do
    series' ← series_for machine_id series
    call juju (Event.deploy application_name path series' machine_id)
    add_units (num_units - 1) model_name application_name
    call juju (Event.wait_for application_name)

  unfoldable pub deploy_charm : Text → Text → Text → Option Text → Option Text → ℕ → Lib (Unit {0})
  unfolding connected deploy_new call_names
  deploy_charm application_name path model_name machine_id series num_units =
      connected model_name (do
        applications ← call_names juju Event.applications
        (if member application_name applications
            then raise juju_application_exists
            else deploy_new application_name path model_name machine_id series num_units))
