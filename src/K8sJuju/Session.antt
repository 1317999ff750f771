-- ===== src/K8sJuju/Session.antt =====
-- The connection that a `K8sJujuConnector` of n2vc/k8s_juju_conn.py holds to its controller.
pub mod Held
use n2vc.Prelude.{
  ◌≡◌, refl, ap, ◌∙◌, ◌+◌, ◌-◌, Bool, true, false, Option, none, some, [], ◌∷◌, if◌then◌else◌,
  arith,
}
use n2vc.Prelude.Exec.{Result, ok, err, pure, continue, handled, ◌>>=◌, ◌>>◌, ◌catch◌}
use n2vc.Exception.{Exception}
use n2vc.Text.{Text}
use n2vc.K8sJuju.Host.{Event, Host, State, Op, call_then, changes, recorded, modify, ends, left}
use n2vc.K8sJuju.Controller.{
  connected, connect, get_config, set_attributes, login, login_again, logout, logout_now, leave,
}
use n2vc.K8sJuju.Keeps.{Keeps}
use n2vc.K8sJuju.Frame.{IsFrame, get_config-Keeps, set_attributes-Keeps}

-- One connection to a controller is open where the connector is authenticated, and none where it is
-- not; and an authenticated connector has its controller.
pub record IsHeld (s : State) : Type 0 where
  pub count : s.open_controllers ≡ (if s.authenticated then 1 else 0)
  pub present : s.authenticated ≡ true → s.has_controller ≡ true

-- The connector is not authenticated, and has no connection.
record IsOut (s : State) : Type 0 where
  count : s.open_controllers ≡ 0
  out : s.authenticated ≡ false

pub IsHeld-IsFrame : IsFrame IsHeld
IsHeld-IsFrame = record {
  history = λ e s h. record { count = h.count; present = h.present };
  endpoint = λ x s h. record { count = h.count; present = h.present };
  user = λ x s h. record { count = h.count; present = h.present };
  secret = λ x s h. record { count = h.count; present = h.present };
  ca_cert = λ x s h. record { count = h.count; present = h.present };
  public_key = λ x s h. record { count = h.count; present = h.present };
}

IsOut-IsFrame : IsFrame IsOut
IsOut-IsFrame = record {
  history = λ e s h. record { count = h.count; out = h.out };
  endpoint = λ x s h. record { count = h.count; out = h.out };
  user = λ x s h. record { count = h.count; out = h.out };
  secret = λ x s h. record { count = h.count; out = h.out };
  ca_cert = λ x s h. record { count = h.count; out = h.out };
  public_key = λ x s h. record { count = h.count; out = h.out };
}

IsOut-IsHeld : (s : State) → IsOut s → IsHeld s
IsOut-IsHeld s h = record { count = rw h.out h.count; present = λ e. ground arith }

-- An action that keeps a connector out, and then one that leaves it as it has to be.
bind-IsHeld :
    {A B : Type 0} (m : Op A) (f : A → Op B)
    → Keeps IsOut m
    → ((a : A) (s : State) → IsOut s → IsHeld (f a s).1)
    → (s : State) → IsOut s
    → IsHeld ((m >>= f) s).1
bind-IsHeld {A} {B} m f k l s h = go (m s) (k.at s h)
  where
    go : (r : Result Exception A × State) → IsOut r.1 → IsHeld (continue {B = B} r f).1
    go (ok a, t) h = l a t h
    go (err x, t) h = IsOut-IsHeld t h

module _ (host : Host) where
  connect-IsHeld :
      (secret : Text) (s : State)
      → IsOut s
      → IsHeld (connect host secret (record s { has_controller = true })).1
  unfolding connect call_then
  connect-IsHeld [] s h = record { count = h.count; present = λ e. refl }
  connect-IsHeld (c ∷ secret) s h = go (host.fails s.history Event.connect)
    where
      t : State
      t = record s { has_controller = true }

      go :
          (x : Option Exception)
          → IsHeld
              (handled (ends x tt, recorded Event.connect (changes x connected t)) (λ y. pure tt)).1
      go none = record { count = ap (λ n. n + 1) h.count; present = λ e. refl }
      go (some x) = record { count = rw h.out h.count; present = λ e. refl }

  login_again-IsHeld :
      (cluster_uuid : Text) (s : State) → IsOut s → IsHeld (login_again host cluster_uuid s).1
  unfolding login_again
  login_again-IsHeld cluster_uuid =
      bind-IsHeld (get_config host cluster_uuid) _
        (get_config-Keeps IsOut-IsFrame host cluster_uuid)
        λ config.
          bind-IsHeld (set_attributes config) _ (set_attributes-Keeps IsOut-IsFrame config)
            λ _ s h. connect-IsHeld s.secret s h

  pub login-IsHeld : (cluster_uuid : Text) → Keeps IsHeld (login host cluster_uuid)
  unfolding login
  login-IsHeld cluster_uuid = record { at = λ s h. go s h s.authenticated refl }
    where
      go :
          (s : State)
          → IsHeld s
          → (b : Bool) → s.authenticated ≡ b
          → IsHeld ((if b then pure tt else login_again host cluster_uuid) s).1
      go s h true e = h
      go s h false e =
          login_again-IsHeld cluster_uuid s
            (record { count = h.count ∙ ap (λ b. if b then 1 else 0) e; out = e })

  pub logout-IsHeld : Keeps IsHeld (logout host)
  unfolding logout logout_now leave call_then
  logout-IsHeld = record { at = λ s h. first s h s.authenticated refl }
    where
      third :
          (s : State)
          → IsHeld s
          → s.authenticated ≡ true
          → (x : Option Exception)
          → IsHeld
              (continue
                (continue
                  (ends x tt, recorded Event.disconnect_controller (changes x left s))
                  (λ _. modify (λ s. record s { has_controller = false })))
                (λ _. modify (λ s. record s { authenticated = false }))).1
      third s h e none = record {
        count = ap (λ n. n - 1) (h.count ∙ ap (λ b. if b then 1 else 0) e);
        present = λ q. cc;
      }
      third s h e (some x) = record { count = h.count; present = h.present }

      second :
          (s : State)
          → IsHeld s
          → s.authenticated ≡ true
          → (c : Bool) → c ≡ true
          → IsHeld
              (continue (leave host c s) (λ _. modify (λ s. record s { authenticated = false }))).1
      second s h e true q = third s h e (host.fails s.history Event.disconnect_controller)
      second s h e false q = cc

      first :
          (s : State)
          → IsHeld s
          → (b : Bool) → s.authenticated ≡ b
          → IsHeld ((if b then logout_now host else pure tt) s).1
      first s h true e = second s h e s.has_controller (h.present e)
      first s h false e = h
