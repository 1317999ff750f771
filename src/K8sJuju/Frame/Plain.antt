-- ===== src/K8sJuju/Frame/Plain.antt =====
-- `login` and `logout` of n2vc/k8s_juju_conn.py keep a property of the state that does not depend on the
-- connection either.
use n2vc.Prelude.{ℕ, ◌+◌, ◌-◌, Bool, true, false, [], ◌∷◌}
use n2vc.Text.{Text}
use n2vc.K8sJuju.Host.{Event, Host, State, modify, left}
use n2vc.K8sJuju.Controller.{connect, connected, leave, login, login_again, logout, logout_now}
use n2vc.K8sJuju.Keeps.{Keeps, bind-Keeps, gets-Keeps, if-Keeps, pure-Keeps, catch-Keeps}
use n2vc.K8sJuju.Frame.{IsFrame, get_config-Keeps, set_attributes-Keeps, call_then-Keeps}

pub record IsPlain (P : State → Type 0) : Type 0 where
  pub frame : IsFrame P
  pub session :
      (a c : Bool) (n : ℕ) (s : State)
      → P s
      → P (record s { authenticated = a; has_controller = c; open_controllers = n })

module _ {P : State → Type 0} (plain : IsPlain P) (host : Host) where
  connect-Keeps : (secret : Text) → Keeps P (connect host secret)
  unfolding connect
  connect-Keeps [] = record {
    at = λ s h. plain.session false s.has_controller s.open_controllers s h;
  }
  connect-Keeps (c ∷ secret) =
      catch-Keeps
        (call_then-Keeps plain.frame host Event.connect connected
          (λ s h. plain.session true s.has_controller (s.open_controllers + 1) s h))
        (λ x. pure-Keeps tt)

  present-Keeps : (b : Bool) → Keeps P (modify (λ s. record s { has_controller = b }))
  present-Keeps b = record { at = λ s h. plain.session s.authenticated b s.open_controllers s h }

  out-Keeps : Keeps P (modify (λ s. record s { authenticated = false }))
  out-Keeps = record { at = λ s h. plain.session false s.has_controller s.open_controllers s h }

  pub login-Keeps : (cluster_uuid : Text) → Keeps P (login host cluster_uuid)
  unfolding login login_again
  login-Keeps cluster_uuid = bind-Keeps (gets-Keeps (λ s. s.authenticated)) (λ authenticated.
      if-Keeps authenticated (pure-Keeps tt) (
        bind-Keeps (get_config-Keeps plain.frame host cluster_uuid) (λ config.
          bind-Keeps (set_attributes-Keeps plain.frame config) (λ _.
            bind-Keeps (present-Keeps true)
              (λ _. bind-Keeps (gets-Keeps (λ s. s.secret)) connect-Keeps)))))

  leave-Keeps : (b : Bool) → Keeps P (leave host b)
  unfolding leave
  leave-Keeps false = pure-Keeps tt
  leave-Keeps true =
      bind-Keeps
        (call_then-Keeps plain.frame host Event.disconnect_controller left
          (λ s h. plain.session s.authenticated s.has_controller (s.open_controllers - 1) s h))
        (λ _. present-Keeps false)

  pub logout-Keeps : Keeps P (logout host)
  unfolding logout logout_now
  logout-Keeps = bind-Keeps (gets-Keeps (λ s. s.authenticated)) (λ authenticated.
      if-Keeps authenticated
        (bind-Keeps (gets-Keeps (λ s. s.has_controller))
          (λ has_controller. bind-Keeps (leave-Keeps has_controller) (λ _. out-Keeps)))
        (pure-Keeps tt))
