-- ===== src/Libjuju/Connection.antt =====
-- Connections of n2vc/libjuju.py: `get_controller`, `get_model`, the disconnections, and the API
-- endpoints in the database.
use n2vc.Text.{Text, text_eq}
use n2vc.Prelude.{
  ℕ, ◌+◌, ◌-◌, Bool, true, false, ◌&&◌, List, [], ◌∷◌, ◌++◌, Option, none, some, if◌then◌else◌,
}
use n2vc.Prelude.Exec.{Exec, Result, ok, err, pure, raise, ◌>>=◌, ◌>>◌, ◌catch◌}
use n2vc.Exception.{Exception}

-- A call of a library or of the database.
pub data Event : Type 0 where
  connect api_endpoints : Event
  disconnect_controller disconnect_model : Event
  get_model : Text → Event
  list_models : Event
  -- the lock of `creating_model` is waited for, while other tasks run
  lock_wait : Event
  add_model : Text → Text → Event
  get_status get_machines applications machines : Event
  add_machine : Text → Event
  series_of : Text → Event
  -- JujuModelWatcher.wait_for
  wait_for : Text → Event
  deploy : Text → Text → Option Text → Option Text → Event
  add_unit : Text → Event
  units : Text → Event
  is_leader : Text → Event
  get_actions : Text → Event
  run_action : Text → Text → Event
  action_output action_status : Text → Event
  add_relation : Text → Text → Event
  destroy_machine destroy_model : Text → Event
  destroy_application cancel_health_check : Event
  set_config : Text → Event
  -- AsyncSSHProvisioner(host, user, private_key_path).provision_machine()
  provision : Text → Text → Text → Event
  add_machines install_agent sleep : Event
  -- a machine's dns_name
  dns_name : Text → Event
  db_get_one db_create : Event
  db_set_one : List Text → Event

-- How the calls end, after the calls made before: the exception, if there is one, and the value of a
-- call that returns names, a text, or a flag. `clock` is `time.time()` after some calls, in half
-- seconds.
pub record Juju : Type 0 where
  pub fails : List Event → Event → Option Exception
  pub names : List Event → Event → List Text
  pub text : List Event → Event → Text
  pub flag : List Event → Event → Bool
  pub clock : List Event → ℕ

-- `endpoints` and `models` are attributes of the object; the other fields count the connections
-- that are open, and hold the calls made.
pub record World : Type 0 where
  pub endpoints : List Text
  pub models : List Text
  pub open_controllers : ℕ
  pub open_models : ℕ
  pub history : List Event

abbrev pub Lib : Type 0 → Type 0
Lib A = Exec Exception World A

abbrev pub recorded : Event → World → World
recorded e s = record s { history = s.history ++ e ∷ [] }

abbrev pub ends : {A : Type 0} → Option Exception → A → Result Exception A
ends none a = ok a
ends (some x) a = err x

module _ (juju : Juju) where
  unfoldable pub call : Event → Lib (Unit {0})
  call e s = (ends (juju.fails s.history e) tt, recorded e s)

  unfoldable pub call_names : Event → Lib (List Text)
  call_names e s = (ends (juju.fails s.history e) (juju.names s.history e), recorded e s)

  unfoldable pub call_text : Event → Lib Text
  call_text e s = (ends (juju.fails s.history e) (juju.text s.history e), recorded e s)

  unfoldable pub call_flag : Event → Lib Bool
  call_flag e s = (ends (juju.fails s.history e) (juju.flag s.history e), recorded e s)

-- A text in the result of a call that has returned.
unfoldable pub result_text : Juju → Event → Lib Text
result_text juju e s = (ok (juju.text s.history e), s)

-- asyncio.ensure_future(...): the task is started, and nothing waits for it.
unfoldable pub started : Event → Lib (Unit {0})
started e s = (ok tt, recorded e s)

abbrev pub count_controller :
    Result Exception (Unit {0}) × World → Result Exception (Unit {0}) × World
count_controller (ok a, s) = (ok a, record s { open_controllers = s.open_controllers + 1 })
count_controller (err x, s) = (err x, s)

abbrev pub count_model : Result Exception (Unit {0}) × World → Result Exception (Unit {0}) × World
count_model (ok a, s) = (ok a, record s { open_models = s.open_models + 1 })
count_model (err x, s) = (err x, s)

abbrev pub drop_controller :
    Result Exception (Unit {0}) × World → Result Exception (Unit {0}) × World
drop_controller (ok a, s) = (ok a, record s { open_controllers = s.open_controllers - 1 })
drop_controller (err x, s) = (err x, s)

abbrev pub drop_model : Result Exception (Unit {0}) × World → Result Exception (Unit {0}) × World
drop_model (ok a, s) = (ok a, record s { open_models = s.open_models - 1 })
drop_model (err x, s) = (err x, s)

-- name in names
unfoldable pub member : Text → List Text → Bool
unfolding text_eq
member s [] = false
member s (t ∷ ts) = if text_eq s t then true else member s ts

unfoldable pub same_names : List Text → List Text → Bool
unfolding text_eq
same_names [] [] = true
same_names (s ∷ ss) (t ∷ ts) = text_eq s t && same_names ss ts
same_names _ _ = false

module _ (juju : Juju) where
  -- controller.connect(...), within its timeout
  unfoldable pub connect_controller : Lib (Unit {0})
  unfolding call
  connect_controller s = count_controller (call juju connect s)

  unfoldable pub disconnect_controller_ : Lib (Unit {0})
  unfolding call
  disconnect_controller_ s = drop_controller (call juju disconnect_controller s)

  unfoldable pub disconnect_model_ : Lib (Unit {0})
  unfolding call
  disconnect_model_ s = drop_model (call juju disconnect_model s)

  -- controller.get_model(model_name)
  unfoldable pub get_model_ : Text → Lib (Unit {0})
  unfolding call
  get_model_ model_name s = count_model (call juju (get_model model_name) s)

  -- `except DbException`: another worker may have created the entry meanwhile
  unfoldable pub recheck : Exception → Lib (Unit {0})
  unfolding call_flag
  recheck (Exception.db_exception b) = do
    there ← call_flag juju db_get_one
    (if there then pure tt else raise (Exception.db_exception b))
  recheck x = raise x

  -- _update_api_endpoints_db; `db_get_one` answers whether there is an entry.
  unfoldable pub update_api_endpoints_db : List Text → Lib (Unit {0})
  unfolding call call_flag recheck
  update_api_endpoints_db endpoints = do
    there ← call_flag juju db_get_one
    (if there then pure tt else (call juju db_create catch recheck))
    call juju (db_set_one endpoints)

  -- `if self.endpoints != endpoints`: the flag is that they are equal.
  unfoldable pub changed_endpoints : Bool → List Text → Lib (Unit {0})
  unfolding update_api_endpoints_db
  changed_endpoints true endpoints s = (ok tt, s)
  changed_endpoints false endpoints s =
      update_api_endpoints_db endpoints (record s { endpoints = endpoints })

  unfoldable pub keep_endpoints : List Text → Lib (Unit {0})
  unfolding changed_endpoints same_names
  keep_endpoints endpoints s = changed_endpoints (same_names s.endpoints endpoints) endpoints s

  -- `except CancelledError: raise e`, `except Exception`: disconnect, and another exception
  unfoldable pub give_up : Lib (Unit {0}) → Exception → Lib (Unit {0})
  give_up disconnect Exception.cancelled = raise Exception.cancelled
  give_up disconnect x = do disconnect; raise Exception.juju_controller_failed_connecting

  -- get_controller. A controller that did not connect is disconnected too, which closes nothing.
  unfoldable pub get_controller : Lib (Unit {0})
  unfolding connect_controller disconnect_controller_ call call_names keep_endpoints give_up
  get_controller = do
    connect_controller catch give_up (call juju disconnect_controller)
    (do endpoints ← call_names juju api_endpoints; keep_endpoints endpoints)
        catch give_up disconnect_controller_
