-- ===== src/Libjuju/Destroy/Follows.antt =====
-- `list_models` and `destroy_model` of n2vc/libjuju.py, where every call succeeds: what they return,
-- and which destructions they ask for.
use n2vc.Prelude.{
  ℕ, suc, ◌+◌, ◌≢◌, ◌≡◌, refl, ◌∙◌, Bool, true, false, not, Option, none, some, List, [], ◌∷◌, ◌++◌,
  keep, arith, ltb,
}
use n2vc.Prelude.Exec.{Result, ok, err}
use n2vc.Exception.{Exception}
use n2vc.Text.{Text}
use n2vc.Libjuju.Connection.{
  Juju, World, recorded, Event, call, call_names, call_flag, get_controller, get_model_,
  connect_controller, disconnect_controller_, disconnect_model_, update_api_endpoints_db,
  changed_endpoints, keep_endpoints, member,
}
use n2vc.Libjuju.Action.{list_models, is_listed}
use n2vc.Libjuju.Destroy.{
  destroy_machines, destroy_disconnected, destroy_model, forget, now, wait_destroyed, is_gone,
  or_hour,
}
use n2vc.Libjuju.Member.{member_self, member-append, member-keep}
use n2vc.Libjuju.Destroy.Steps.{destroy_machines-ok}
use n2vc.Libjuju.Destroy.Asked.{asked, asked-append, asked-silent, destroy_machines-IsSilent}
use n2vc.Libjuju.Destroy.Refines.{
  Skipped, Refines, IsSkip, bind-IsSkip, skip-Refines, bind-Refines, finally-Refines, pure-Refines,
  pure-IsSkip, if-IsSkip, catch-IsSkip,
}

-- The models that are left after some destructions.
abbrev pub left_after : List Text → List Text → List Text
left_after models l = keep (λ m. not (member m l)) models

-- Every call succeeds, and the library lists the models but those whose destruction it was asked
-- for.
pub record Obeys (juju : Juju) (models : List Text) : Type 0 where
  pub succeeds : (h : List Event) (e : Event) → juju.fails h e ≡ none
  pub lists : (h : List Event) → juju.names h Event.list_models ≡ left_after models (asked h)

module _ (juju : Juju) (succeeds : (h : List Event) (e : Event) → juju.fails h e ≡ none) where
  call-IsSkip : (e : Event) → asked (e ∷ []) ≡ [] → IsSkip (call juju e)
  unfolding call
  call-IsSkip e n = record { at = λ s. rw (succeeds s.history e) (asked-silent juju s.history e n) }

  call_names-IsSkip : (e : Event) → asked (e ∷ []) ≡ [] → IsSkip (call_names juju e)
  unfolding call_names
  call_names-IsSkip e n = record {
    at = λ s. rw (succeeds s.history e) (asked-silent juju s.history e n);
  }

  call_flag-IsSkip : (e : Event) → asked (e ∷ []) ≡ [] → IsSkip (call_flag juju e)
  unfolding call_flag
  call_flag-IsSkip e n = record {
    at = λ s. rw (succeeds s.history e) (asked-silent juju s.history e n);
  }

  connect_controller-IsSkip : IsSkip (connect_controller juju)
  unfolding connect_controller call
  connect_controller-IsSkip = record {
    at =
        λ s. rw (succeeds s.history Event.connect) (asked-silent juju s.history Event.connect refl);
  }

  pub disconnect_controller-IsSkip : IsSkip (disconnect_controller_ juju)
  unfolding disconnect_controller_ call
  disconnect_controller-IsSkip = record {
    at = λ s.
        rw (succeeds s.history Event.disconnect_controller)
          (asked-silent juju s.history Event.disconnect_controller refl);
  }

  disconnect_model-IsSkip : IsSkip (disconnect_model_ juju)
  unfolding disconnect_model_ call
  disconnect_model-IsSkip = record {
    at = λ s.
        rw (succeeds s.history Event.disconnect_model)
          (asked-silent juju s.history Event.disconnect_model refl);
  }

  get_model-IsSkip : (model_name : Text) → IsSkip (get_model_ juju model_name)
  unfolding get_model_ call
  get_model-IsSkip model_name = record {
    at = λ s.
        rw (succeeds s.history (Event.get_model model_name))
          (asked-silent juju s.history (Event.get_model model_name) refl);
  }

  ruleset skip_rules = (
    bind-IsSkip, pure-IsSkip, if-IsSkip, catch-IsSkip, call-IsSkip, call_names-IsSkip,
    call_flag-IsSkip, refl,
  )

  changed_endpoints-IsSkip :
      (same : Bool) (endpoints : List Text) → IsSkip (changed_endpoints juju same endpoints)
  unfolding changed_endpoints update_api_endpoints_db
  changed_endpoints-IsSkip true endpoints = record { at = λ s. refl }
  changed_endpoints-IsSkip false endpoints = record { at = λ s. update.at _ }
    where
      update : IsSkip (update_api_endpoints_db juju endpoints)
      update = search (skip_rules)

  keep_endpoints-IsSkip : (endpoints : List Text) → IsSkip (keep_endpoints juju endpoints)
  unfolding keep_endpoints
  keep_endpoints-IsSkip endpoints = record { at = λ s. (changed_endpoints-IsSkip _ endpoints).at s }

  get_controller-IsSkip : IsSkip (get_controller juju)
  unfolding get_controller
  get_controller-IsSkip =
      search (skip_rules, connect_controller-IsSkip, keep_endpoints-IsSkip) depth 16

  destroy_machines-IsSkip :
      (machines : List Text) (total_timeout : Option ℕ)
      → IsSkip (destroy_machines juju machines total_timeout)
  destroy_machines-IsSkip machines total_timeout = record {
    at = λ s.
        go s (destroy_machines juju machines total_timeout s)
          (destroy_machines-ok juju calm machines total_timeout s)
          ((destroy_machines-IsSilent juju machines total_timeout).at s);
  }
    where
      calm : (h : List Event) (e : Event) → juju.fails h e ≢ some Exception.cancelled
      calm h e q = ground (arith, succeeds h e)

      go :
          (s : World) (r : Result Exception (Unit {0}) × World)
          → r.0 ≡ ok tt
          → asked r.1.history ≡ asked s.history
          → Skipped s r
      go s (ok a, t) e e' = e'
      go s (err x, t) e e' = absurd (ground arith)

module _ (juju : Juju) (models : List Text) (obeys : Obeys juju models) where
  names-Refines : Refines (λ l. (left_after models l, l)) (call_names juju Event.list_models)
  unfolding call_names
  names-Refines = record {
    at = λ s.
        rw (obeys.succeeds s.history Event.list_models)
          (obeys.lists s.history, asked-silent juju s.history Event.list_models refl);
  }

  pub list_models-Refines :
      (contained : Option Text)
      → Refines
          (λ l. (keep (is_listed juju contained) (left_after models l), l))
          (list_models juju contained)
  unfolding list_models
  list_models-Refines contained = skip-Refines (get_controller-IsSkip juju obeys.succeeds) (λ _.
      finally-Refines
        (bind-Refines (λ ms l. (keep (is_listed juju contained) ms, l)) names-Refines
          (λ ms. pure-Refines _))
        (disconnect_controller-IsSkip juju obeys.succeeds))

  -- A model is gone as soon as its destruction has been asked for.
  gone_at_once :
      (m : Text) (h : List Event)
      → member m (left_after models (asked (h ++ Event.destroy_model m ∷ []))) ≡ false
  gone_at_once m h =
      rw
        (
          member-keep m (λ n. not (member n (asked (h ++ Event.destroy_model m ∷ [])))) models,
          asked-append h (Event.destroy_model m ∷ []),
          member-append m (asked h) (m ∷ []),
          member_self m [],
        )
        (ground arith)

  wait_gone :
      (m : Text) (n : ℕ) (s : World)
      → member m (left_after models (asked s.history)) ≡ false
      → wait_destroyed juju (suc n) m (juju.clock s.history + suc n) s
        ≡ (ok tt, recorded Event.list_models s)
  unfolding wait_destroyed now is_gone call_names
  wait_gone m n s gone =
      rw (before (juju.clock s.history)) (
        rw (obeys.succeeds s.history Event.list_models) (rw (obeys.lists s.history) (rw gone refl)))
    where
      before : (a : ℕ) → ltb a (a + suc n) ≡ true
      before a = ground arith

  destroy_disconnected-Refines :
      (m : Text) (total_timeout : Option ℕ) (n : ℕ)
      → or_hour juju total_timeout ≡ suc n
      → Refines (λ l. (tt, l ++ m ∷ [])) (destroy_disconnected juju m total_timeout)
  unfolding destroy_disconnected forget call now
  destroy_disconnected-Refines m total_timeout n positive = record {
    at = λ s. rw (obeys.succeeds s.history (Event.destroy_model m)) (
        rw positive (
          rw
            (wait_gone m n (recorded (Event.destroy_model m) (forget juju m s).1)
              (gone_at_once m s.history))
            (
              refl,
              asked-silent juju (s.history ++ Event.destroy_model m ∷ []) Event.list_models refl
                  ∙ asked-append s.history (Event.destroy_model m ∷ []),
            )));
  }

  pub destroy_model-Refines :
      (m : Text) (total_timeout : Option ℕ) (n : ℕ)
      → or_hour juju total_timeout ≡ suc n
      → Refines (λ l. (tt, l ++ m ∷ [])) (destroy_model juju m total_timeout)
  unfolding destroy_model
  destroy_model-Refines m total_timeout n positive =
      skip-Refines (get_controller-IsSkip juju obeys.succeeds) (λ _.
        skip-Refines (get_model-IsSkip juju obeys.succeeds m) (λ _.
          finally-Refines
            (skip-Refines (call_names-IsSkip juju obeys.succeeds Event.get_machines refl)
              (λ machines.
                skip-Refines (destroy_machines-IsSkip juju obeys.succeeds machines total_timeout)
                  (λ _.
                    skip-Refines (disconnect_model-IsSkip juju obeys.succeeds)
                      (λ _. destroy_disconnected-Refines m total_timeout n positive))))
            (disconnect_controller-IsSkip juju obeys.succeeds)))
