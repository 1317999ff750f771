-- ===== src/Libjuju/Destroy.antt =====
-- Destruction in n2vc/libjuju.py: `destroy_model`, `destroy_application`, `destroy_machine`; and
-- `disconnect`, which ends the health check.
--
-- A `while time.time() < end` loop has fuel: one round for each half second that is left, as each
-- round sleeps that long at least. With no fuel it ends as it does when the time is over.
pub mod Fuel
pub mod Refines
pub mod Follows
pub mod Asked
pub mod Steps
pub mod Closing
use n2vc.Prelude.{
  ℕ, zero, suc, ◌+◌, ◌-◌, Bool, true, false, not, List, [], ◌∷◌, Option, none, some, ltb,
  if◌then◌else◌, keep,
}
use n2vc.Prelude.Exec.{Result, ok, err, pure, raise, ◌>>=◌, ◌>>◌, ◌catch◌, ◌finally◌}
use n2vc.Exception
use n2vc.Exception.{Exception, type_error, other}
use n2vc.Text.{Text, text_eq}
use n2vc.Libjuju.Connection.{
  Juju, World, Lib, Event, member, call, call_names, get_controller, get_model_,
  disconnect_controller_, disconnect_model_,
}

module _ (juju : Juju) where
  unfoldable pub now : Lib ℕ
  now s = (ok (juju.clock s.history), s)

  -- while machine_id in machines and time.time() < end
  unfoldable pub wait_removed : ℕ → Text → ℕ → List Text → Lib (Unit {0})
  unfolding now call call_names member
  wait_removed zero machine_id end machines = pure tt
  wait_removed (suc fuel) machine_id end machines =
      let again = do
        call juju Event.sleep
        machines' ← call_names juju Event.get_machines
        wait_removed fuel machine_id end machines'
      in if member machine_id machines
        then (do time ← now; (if ltb time end then again else pure tt))
        else pure tt

  -- `time.time() + total_timeout` of None is a TypeError.
  unfoldable pub wait_machine : Text → Option ℕ → Lib (Unit {0})
  unfolding now call_names wait_removed
  wait_machine machine_id none = raise type_error
  wait_machine machine_id (some total_timeout) = do
    start ← now
    machines ← call_names juju Event.get_machines
    wait_removed total_timeout machine_id (start + total_timeout) machines

  unfoldable pub destroy_machine : Text → Option ℕ → Lib (Unit {0})
  unfolding call call_names member wait_machine
  destroy_machine machine_id total_timeout = do
    machines ← call_names juju Event.get_machines
    (if member machine_id machines
        then (do
          call juju (Event.destroy_machine machine_id)
          wait_machine machine_id total_timeout)
        else pure tt)

  -- `except CancelledError: raise`, `except Exception: pass`
  unfoldable pub pass : Exception → Lib (Unit {0})
  pass Exception.cancelled = raise Exception.cancelled
  pass x = pure tt

  unfoldable pub destroy_machines : List Text → Option ℕ → Lib (Unit {0})
  unfolding destroy_machine pass
  destroy_machines [] total_timeout = pure tt
  destroy_machines (machine_id ∷ rest) total_timeout = do
    destroy_machine machine_id total_timeout catch pass
    destroy_machines rest total_timeout

  -- if model_name in self.models: self.models.remove(model_name)
  unfoldable pub forget : Text → Lib (Unit {0})
  unfolding text_eq
  forget model_name s =
      (ok tt, record s { models = keep (λ m. not (text_eq model_name m)) s.models })

  -- Whether the model is gone; an exception of `list_models` is kept for the message.
  unfoldable pub is_gone : Text → Lib Bool
  unfolding call_names member
  is_gone model_name = do
    models ← call_names juju Event.list_models
    pure (not (member model_name models))

  unfoldable pub not_gone : Exception → Lib Bool
  not_gone Exception.cancelled = raise Exception.cancelled
  not_gone x = pure false

  -- while time.time() < end: return if it is gone, or sleep; then "Timeout waiting for model"
  unfoldable pub wait_destroyed : ℕ → Text → ℕ → Lib (Unit {0})
  unfolding now call is_gone not_gone
  wait_destroyed zero model_name end = raise other
  wait_destroyed (suc fuel) model_name end =
      let again = (do call juju Event.sleep; wait_destroyed fuel model_name end) in
      let round = (do
        gone ← is_gone model_name catch not_gone
        (if gone then pure tt else again)) in
      do time ← now; (if ltb time end then round else raise other)

  abbrev pub or_hour : Option ℕ → ℕ
  or_hour none = 7200
  or_hour (some total_timeout) = total_timeout

  -- from the disconnection of the model to the wait for its destruction
  unfoldable pub destroy_disconnected : Text → Option ℕ → Lib (Unit {0})
  unfolding forget call now wait_destroyed
  destroy_disconnected model_name total_timeout = do
    forget model_name
    call juju (Event.destroy_model model_name)
    start ← now
    wait_destroyed (or_hour total_timeout) model_name (start + or_hour total_timeout)

  unfoldable pub destroy_model : Text → Option ℕ → Lib (Unit {0})
  unfolding get_controller get_model_ call_names destroy_machines disconnect_model_
      destroy_disconnected disconnect_controller_
  destroy_model model_name total_timeout = do
    get_controller juju
    get_model_ juju model_name
    (do
      machines ← call_names juju Event.get_machines
      destroy_machines machines total_timeout
      disconnect_model_ juju
      destroy_disconnected model_name total_timeout)
        finally disconnect_controller_ juju

  -- `model.applications.get(application_name)`
  unfoldable pub destroy_application : Text → Lib (Unit {0})
  unfolding call call_names member
  destroy_application application_name = do
    applications ← call_names juju Event.applications
    (if member application_name applications then call juju Event.destroy_application else pure tt)

  -- health_check_task.cancel()
  unfoldable pub disconnect : Lib (Unit {0})
  unfolding call
  disconnect = call juju Event.cancel_health_check
