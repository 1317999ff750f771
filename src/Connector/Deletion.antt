-- ===== src/Connector/Deletion.antt =====
-- `delete_namespace` of n2vc/n2vc_juju_conn.py against its specification: of the models that juju
-- has, those stay whose name does not hold the id of the network service.
use n2vc.Prelude.{
  ℕ, suc, ◌≡◌, refl, sym, ap, ◌∙◌, Bool, true, not, ◌&&◌, Option, some, List, [], ◌∷◌, ◌++◌, keep,
  arith, append_assoc, append-nil,
}
use n2vc.Prelude.Exec.{Result, ok, err, raise, handled}
use n2vc.Exception.{Exception, n2vc_base}
use n2vc.Text.{Text, contains}
use n2vc.Libjuju.Connection.{Juju, World, Event, member}
use n2vc.Libjuju.Member.{member-append, member-keep, keep_agree, keep-keep}
use n2vc.Libjuju.Action.{is_listed}
use n2vc.Libjuju.Destroy.{or_hour}
use n2vc.Libjuju.Destroy.Asked.{asked}
use n2vc.Libjuju.Destroy.Refines.{Refines, Meets, bind-Refines}
use n2vc.Libjuju.Destroy.Follows.{Obeys, left_after, list_models-Refines, destroy_model-Refines}
use n2vc.Naming.Namespace.{Components, get_namespace_components}
use n2vc.Connector.{with_world, Connector, State, on_juju, namespace_components, instead}
use n2vc.Connector.Ending.{destroy_models, destroy_listed, delete_namespace}

-- What is left when all models that pass a test are destroyed.
left_after_kept :
    (models : List Text) (p : Text → Bool) (l : List Text)
    → left_after models (l ++ keep p (left_after models l))
      ≡ keep (λ m. not (p m)) (left_after models l)
left_after_kept models p l =
    keep_agree _ (λ m. not (member m l) && not (p m)) models agree
    ∙ sym (keep-keep (λ m. not (p m)) (λ m. not (member m l)) models)
  where
    agree :
        (m : Text)
        → member m models ≡ true
        → not (member m (l ++ keep p (left_after models l))) ≡ not (member m l) && not (p m)
    agree m h =
        rw
          (
            member-append m l (keep p (left_after models l)),
            member-keep m p (left_after models l),
            member-keep m (λ x. not (member x l)) models,
            h,
          )
          (ground arith)

module _ (juju : Juju) (models : List Text) (obeys : Obeys juju models) (total_timeout : Option ℕ)
    (n : ℕ) (positive : or_hour juju total_timeout ≡ suc n) where
  destroy_models-Refines :
      (ms : List Text) → Refines (λ l. (tt, l ++ ms)) (destroy_models juju ms total_timeout)
  unfolding destroy_models
  destroy_models-Refines [] = record { at = λ s. (refl, sym (append-nil (asked s.history))) }
  destroy_models-Refines (m ∷ ms) = record {
    at = λ s. rw (← append_assoc (asked s.history) (m ∷ []) ms) (
        (bind-Refines (λ _ l. (tt, l ++ ms))
            (destroy_model-Refines juju models obeys m total_timeout n positive)
            (λ _. destroy_models-Refines ms)).at
          s);
  }

  destroy_listed-Refines :
      (ns_id : Text)
      → Refines
          (λ l. (tt, l ++ keep (is_listed juju (some ns_id)) (left_after models l)))
          (destroy_listed juju ns_id total_timeout)
  unfolding destroy_listed
  destroy_listed-Refines ns_id =
      bind-Refines (λ ms l. (tt, l ++ ms)) (list_models-Refines juju models obeys (some ns_id))
        destroy_models-Refines

module _ (connector : Connector) (models : List Text) (obeys : Obeys connector.juju models) where
  -- The models that juju has, as it lists them.
  abbrev existing : State → List Text
  existing s = connector.juju.names s.world.history Event.list_models

  -- Where every call succeeds and a destroyed model is no longer listed, `delete_namespace` returns,
  -- and of the models that were listed those are listed then whose name does not hold the id of the
  -- network service. The timeout is not 0, and the namespace has an id.
  pub delete_namespace-Refines :
      (namespace : Option Text) (components : Components) (c : ℕ) (id : Text)
      (total_timeout : Option ℕ) (n : ℕ) (s : State)
      → get_namespace_components namespace ≡ some components
      → components.ns_id ≡ some (c ∷ id)
      → or_hour connector.juju total_timeout ≡ suc n
      → let (r, t) = delete_namespace connector namespace total_timeout s in
        (r ≡ ok tt) × (existing t ≡ keep (λ m. not (contains (c ∷ id) m)) (existing s))
  unfolding delete_namespace namespace_components on_juju instead is_listed
  delete_namespace-Refines namespace components c id total_timeout n s parsed has_id positive =
      rw parsed (
        rw has_id (
          go (destroy_listed connector.juju (c ∷ id) total_timeout s.world) (
            (destroy_listed-Refines connector.juju models obeys total_timeout n positive
                (c ∷ id)).at
              s.world)))
    where
      go :
          (r : Result Exception (Unit {0}) × World)
          → Meets
              (
                tt,
                asked s.world.history
                    ++ keep (contains (c ∷ id)) (left_after models (asked s.world.history)),
              )
              r
          → ((handled (with_world r s) (λ e. raise n2vc_base)).0 ≡ ok tt)
            × (existing (handled (with_world r s) (λ e. raise n2vc_base)).1
                ≡ keep (λ m. not (contains (c ∷ id) m)) (existing s))
      go (ok a, t) (e, e') = (
        ap ok e,
        obeys.lists t.history
            ∙ ap (left_after models) e'
            ∙ left_after_kept models (contains (c ∷ id)) (asked s.world.history)
            ∙ ap (keep (λ m. not (contains (c ∷ id) m))) (sym (obeys.lists s.world.history)),
      )
      go (err x, t) e = absurd e
