-- ===== src/Libjuju/Opening.antt =====
-- How many connections `get_controller` leaves open, in n2vc/libjuju.py.
use n2vc.Text.{Text}
use n2vc.Prelude.{ap, ◌+◌, ◌≡◌, ◌≢◌, refl, none, some, List, Bool, true, false, arith}
use n2vc.Prelude.Exec.{Result, ok, err, raise, continue, handled, ◌>>=◌, ◌>>◌, ◌catch◌}
use n2vc.Exception.{Exception}
use n2vc.Libjuju.Connection.{
  Juju, World, Lib, Event, call, call_names, get_controller, connect_controller,
  disconnect_controller_, keep_endpoints, count_controller, ends, recorded, changed_endpoints,
  give_up, update_api_endpoints_db, recheck,
}
use n2vc.Libjuju.Balance.{
  SameOpen-trans, SameOpen, IsBalanced, balanced_rules, IsUncancelled, uncancelled_rules,
  catch-IsUncancelled, raise-IsUncancelled, raise-IsBalanced, bind-IsUncancelled,
  call_flag-IsUncancelled, pure-IsUncancelled, if-IsUncancelled,
}

-- The library closes every connection that it is asked to close, and no call is cancelled.
pub record IsReliable (juju : Juju) : Type 0 where
  pub closes_controller : (h : List Event) → juju.fails h Event.disconnect_controller ≡ none
  pub closes_model : (h : List Event) → juju.fails h Event.disconnect_model ≡ none
  pub calm : (h : List Event) (e : Event) → juju.fails h e ≢ some Exception.cancelled

-- One controller more is open.
abbrev pub opened : World → World
opened s = record s { open_controllers = s.open_controllers + 1 }

-- One controller more is open after a success, and none after a failure.
abbrev pub Opens : World → Result Exception (Unit {0}) × World → Type 0
Opens s (ok a, t) = SameOpen (opened s) t
Opens s (err x, t) = SameOpen s t

module _ (juju : Juju) where
  recheck-IsBalanced : (x : Exception) → IsBalanced (recheck juju x)
  unfolding recheck
  recheck-IsBalanced (Exception.db_exception b) = search (balanced_rules)
  recheck-IsBalanced x = raise-IsBalanced _

  changed_endpoints-IsBalanced :
      (same : Bool) (endpoints : List Text) → IsBalanced (changed_endpoints juju same endpoints)
  unfolding changed_endpoints update_api_endpoints_db
  changed_endpoints-IsBalanced true endpoints = search (balanced_rules)
  changed_endpoints-IsBalanced false endpoints = record {
    at = λ s. record { controllers = (update.at _).controllers; models = (update.at _).models };
  }
    where
      update : IsBalanced (update_api_endpoints_db juju endpoints)
      update = search (balanced_rules, recheck-IsBalanced)

  keep_endpoints-IsBalanced : (endpoints : List Text) → IsBalanced (keep_endpoints juju endpoints)
  unfolding keep_endpoints
  keep_endpoints-IsBalanced endpoints = record {
    at = λ s. (changed_endpoints-IsBalanced _ endpoints).at s;
  }

  module _ (calm : (h : List Event) (e : Event) → juju.fails h e ≢ some Exception.cancelled) where
    recheck-IsUncancelled :
        (x : Exception) → x ≢ Exception.cancelled → IsUncancelled (recheck juju x)
    unfolding recheck
    recheck-IsUncancelled (Exception.db_exception b) n =
        bind-IsUncancelled (call_flag-IsUncancelled juju calm Event.db_get_one)
          (λ b. if-IsUncancelled b (pure-IsUncancelled tt) (raise-IsUncancelled _ n))
    recheck-IsUncancelled x n = raise-IsUncancelled _ n

    update-IsUncancelled :
        (endpoints : List Text) → IsUncancelled (update_api_endpoints_db juju endpoints)
    unfolding update_api_endpoints_db
    update-IsUncancelled endpoints =
        search (uncancelled_rules, catch-IsUncancelled recheck-IsUncancelled, calm)

    changed_endpoints-IsUncancelled :
        (same : Bool) (endpoints : List Text)
        → IsUncancelled (changed_endpoints juju same endpoints)
    unfolding changed_endpoints
    changed_endpoints-IsUncancelled true endpoints = pure-IsUncancelled tt
    changed_endpoints-IsUncancelled false endpoints = record {
      at = λ s. (update-IsUncancelled endpoints).at _;
    }

    keep_endpoints-IsUncancelled :
        (endpoints : List Text) → IsUncancelled (keep_endpoints juju endpoints)
    unfolding keep_endpoints
    keep_endpoints-IsUncancelled endpoints = record {
      at = λ s. (changed_endpoints-IsUncancelled _ endpoints).at s;
    }

  give_up-eq :
      (d : Lib (Unit {0})) (x : Exception)
      → x ≢ Exception.cancelled
      → give_up juju d x ≡ (d >> raise Exception.juju_controller_failed_connecting)
  unfolding give_up
  give_up-eq d Exception.cancelled n = absurd (n refl)
  give_up-eq d x n = refl

  failed_connect-Opens :
      (x : Exception) (s t : World) (k : Unit {0} → Lib (Unit {0}))
      → SameOpen s t
      → Opens s (continue (give_up juju (call juju Event.disconnect_controller) x t) k)
  unfolding give_up call
  failed_connect-Opens Exception.cancelled s t k h = h
  failed_connect-Opens x s t k h =
      elim (juju.fails t.history Event.disconnect_controller)
        as (λ o. Opens s (
          continue
            (continue (ends o tt, recorded Event.disconnect_controller t)
              (λ _. raise {A = Unit {0}} Exception.juju_controller_failed_connecting))
            k)) [ none ↦ h' | some y ↦ h' ]
    where
      h' : SameOpen s (recorded Event.disconnect_controller t)
      h' = record { controllers = h.controllers; models = h.models }

module _ (juju : Juju) (reliable : IsReliable juju) where
  failed_endpoints-Opens :
      (x : Exception) (s t : World)
      → x ≢ Exception.cancelled
      → SameOpen (opened s) t
      → Opens s (give_up juju (disconnect_controller_ juju) x t)
  unfolding disconnect_controller_ call
  failed_endpoints-Opens x s t n h = rw (give_up-eq juju (disconnect_controller_ juju) x n) (
      rw (reliable.closes_controller t.history)
        (record { controllers = omega (arith, h.controllers); models = h.models }))

  handled-Opens :
      (s : World) (r : Result Exception (Unit {0}) × World)
      → SameOpen (opened s) r.1
      → r.0 ≢ err Exception.cancelled
      → Opens s (handled r (give_up juju (disconnect_controller_ juju)))
  handled-Opens s (ok a, t) h n = h
  handled-Opens s (err x, t) h n = failed_endpoints-Opens x s t (λ e. n (ap err e)) h

  -- The endpoints are asked for and kept, once the controller is connected.
  unfoldable ask : Lib (Unit {0})
  ask = do endpoints ← call_names juju Event.api_endpoints; keep_endpoints juju endpoints

  asked-Opens :
      (s t : World)
      → SameOpen (opened s) t
      → Opens s ((ask catch give_up juju (disconnect_controller_ juju)) t)
  unfolding ask
  asked-Opens s t h = handled-Opens s (ask t) (SameOpen-trans h (balanced.at t)) (uncancelled.at t)
    where
      balanced : IsBalanced ask
      balanced = search (balanced_rules, keep_endpoints-IsBalanced)

      uncancelled : IsUncancelled ask
      uncancelled = search (uncancelled_rules, keep_endpoints-IsUncancelled, reliable.calm)

  -- With a library that closes what it is asked to close and no cancellation, `get_controller` has
  -- one controller more open where it returns, and none more where it raises. It opens no model.
  pub get_controller-Opens : (s : World) → Opens s (get_controller juju s)
  unfolding get_controller connect_controller call ask
  get_controller-Opens s =
      elim (juju.fails s.history Event.connect)
        as (λ o. Opens s (
          continue
            (handled (count_controller (ends o tt, recorded Event.connect s))
              (give_up juju (call juju Event.disconnect_controller)))
            (λ _. ask catch give_up juju (disconnect_controller_ juju)))) [
              | none ↦
                  asked-Opens s (opened (recorded Event.connect s))
                    (record { controllers = refl; models = refl })
              | some x ↦
                  failed_connect-Opens juju x s (recorded Event.connect s) _
                    (record { controllers = refl; models = refl })
            ]
