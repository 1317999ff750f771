-- ===== src/Session/Logout.antt =====
-- `_juju_logout` and `_juju_disconnect_model` of n2vc/n2vc_juju_conn.py, run by one task while the
-- others wait.
pub mod Keys
use n2vc.Prelude.{
  ℕ, ◌-◌, ◌≡◌, refl, sym, ap, ◌∙◌, Bool, true, false, Option, none, some, List, [], ◌∷◌, arith,
  if◌then◌else◌, map, inl, inr, Bool-cases,
}
use n2vc.Prelude.Exec.{Exec, Result, ok, err, pure, raise, handled, continue, ◌>>=◌, ◌>>◌, ◌catch◌}
use n2vc.Exception.{Exception, attribute_error, other, n2vc_connection}
use n2vc.Text.{Text, text_eq, text_eq_iff}
use n2vc.Libjuju.Connection.{member}
use n2vc.Libjuju.Member.{member_self}
use n2vc.Session.{Session, Task, lookup, get_model, wait_or_list}

-- self.juju_models[model_name] = None
unfoldable pub set_none : Text → List (Text × Bool) → List (Text × Bool)
unfolding text_eq
set_none name [] = []
set_none name ((n, b) ∷ rest) =
    let after = set_none name rest in if text_eq name n then (n, false) ∷ after else (n, b) ∷ after

-- Whether the disconnection of the model with the name returns.
module _ (returns : Text → Bool) where
  -- None has no method `disconnect`; a model that is not known is only logged.
  abbrev pub disconnect_value : Text → Option Bool → Exec Exception Session (Unit {0})
  disconnect_value name none s = (ok tt, s)
  disconnect_value name (some false) s = (err attribute_error, s)
  disconnect_value name (some true) s =
      if returns name
      then (ok tt, record s { juju_models = set_none name s.juju_models })
      else (err other, s)

  unfoldable pub disconnect_model : Text → Exec Exception Session (Unit {0})
  unfolding lookup set_none
  disconnect_model name s = disconnect_value name (lookup name s.juju_models) s

  -- for model_name in self.juju_models; an exception is logged
  unfoldable pub disconnect_models : List Text → Exec Exception Session (Unit {0})
  unfolding disconnect_model
  disconnect_models [] = pure tt
  disconnect_models (name ∷ names) = do
    disconnect_model name catch (λ e. pure tt)
    disconnect_models names

  abbrev keys : List (Text × Bool) → List Text
  keys = map (λ entry. entry.0)

  -- After the disconnection of the controller, which returned or not.
  unfoldable pub left : Bool → Exec Exception Session Bool
  left true s = (ok true, record s { authenticated = false; connections = s.connections - 1 })
  left false s = (err n2vc_connection, s)

  -- Whether the controller was connected.
  unfoldable pub logout : Bool → Exec Exception Session Bool
  unfolding disconnect_models left
  logout returned s =
      if s.authenticated
      then (disconnect_models (keys s.juju_models) >> left returned) s
      else (ok false, s)
