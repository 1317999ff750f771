-- ===== src/Watcher/Steps.antt =====
-- The parts of the watcher, against a database that accepts every call.
use n2vc.Prelude.{
  ◌+◌, refl, ◌∙◌, inl, inr, true, false, none, ltb, ◌=ₛ◌, if◌then◌else◌, ap, Bool-cases, [], ◌∷◌,
  some, append_assoc, append-nil, arith, ◌++◌, ◌≡◌, Option, List, String, Bool, ℕ,
}
use n2vc.Prelude.Exec.{ok, err, continue}
use n2vc.Exception
use n2vc.Status.{DeploymentStatus, EntityType, get_entity_from_delta}
use n2vc.Database.{Update, Call, set_one, on_update_db}
use n2vc.Database.N2vc
use n2vc.Text.{Text, codes}
use n2vc.Watcher.{
  Delta, Change, Watch, get_status, is_listened, id_of, listened, handle, handle_all, watch,
}
use n2vc.Watcher.Spec.{
  subject, told, told_message, told_vca, accepting, Writes, update_of, calls_of, write_of,
  writes_of, end_after, end_of,
}

if_apply {ℓ κ} :
    {A : Type ℓ} {B : Type κ} (b : Bool) (f g : A → B) (a : A)
    → (if b then f else g) a ≡ (if b then f a else g a)
if_apply true f g a = refl
if_apply false f g a = refl

-- The subject of a delta is what the code compares, for the kinds that it listens to.
pub subject_lem :
    (entity_type delta_entity : EntityType) (d : Delta)
    → subject entity_type delta_entity d ≡ (
        if is_listened entity_type delta_entity
        then some (id_of entity_type delta_entity d)
        else none)
unfolding subject is_listened id_of
subject_lem EntityType.machine EntityType.machine d = refl
subject_lem EntityType.machine EntityType.application d = refl
subject_lem EntityType.machine EntityType.action d = refl
subject_lem EntityType.machine EntityType.unit d = refl
subject_lem EntityType.application EntityType.machine d = refl
subject_lem EntityType.application EntityType.application d = refl
subject_lem EntityType.application EntityType.action d = refl
subject_lem EntityType.application EntityType.unit d = refl
subject_lem EntityType.action EntityType.machine d = refl
subject_lem EntityType.action EntityType.application d = refl
subject_lem EntityType.action EntityType.action d = refl
subject_lem EntityType.action EntityType.unit d = refl
subject_lem EntityType.unit EntityType.machine d = refl
subject_lem EntityType.unit EntityType.application d = refl
subject_lem EntityType.unit EntityType.action d = refl
subject_lem EntityType.unit EntityType.unit d = refl

get_status_lem :
    (d : Delta) (e : EntityType) → get_status d e ≡ (told e d, told_message e d, told_vca e d)
unfolding get_status told told_message told_vca
get_status_lem d EntityType.machine = refl
get_status_lem d EntityType.application = refl
get_status_lem d EntityType.action = refl
get_status_lem d EntityType.unit = refl

module _ (w : Watch) (t : String × String × Text) (to : Writes w t) where
  write_accepted :
      (status : DeploymentStatus) (message vca_status kind stamp : Text) (calls : List Call)
      → N2vc.write_app_status_to_db accepting w.has_callback w.db_dict status message vca_status
          kind stamp calls
        ≡ (ok tt, calls ++ calls_of w t (N2vc.status_update t status message vca_status kind stamp))
  unfolding N2vc.write_app_status_to_db
  write_accepted status message vca_status kind stamp calls =
      let (d, is_some, has_table, has_filter, p, has_path, with_dot) = to.target in
      ground (arith, append_assoc calls (set_one u ∷ []) (on_update_db u ∷ []))
    where
      u : Update
      u = N2vc.status_update t status message vca_status kind stamp

  handle_listened :
      (d : Delta) (e : EntityType) (calls : List Call)
      → listened accepting w d e calls ≡ (
        ok (d.at + w.timeout),
        calls
            ++ (if id_of w.entity_type e d =ₛ w.entity_id
                then calls_of w t (update_of w t d e)
                else []),
      )
  unfolding listened update_of
  handle_listened d e calls = elim (Bool-cases (id_of w.entity_type e d =ₛ w.entity_id)) [
    | inl same ↦
        rw (same, to.has_n2vc, listened, get_status_lem d e)
          (ap (λ m. continue m (λ _ s. (ok (d.at + w.timeout), s)))
            (write_accepted _ _ _ _ (codes d.stamp) calls))
    | inr differs ↦ rw (differs, listened, append-nil)
  ]

  handle_lem :
      (d : Delta) (e : Option EntityType) (end : ℕ) (calls : List Call)
      → handle accepting w d e end calls ≡ (ok (end_after w d e end), calls ++ write_of w t d e)
  unfolding handle
  handle_lem d none end calls = rw append-nil
  handle_lem d (some e) end calls = elim (Bool-cases (is_listened w.entity_type e)) [
    | inl heard ↦ rw (subject_lem w.entity_type e d, heard, handle) (handle_listened d e calls)
    | inr unheard ↦ rw (subject_lem w.entity_type e d, unheard, handle, append-nil)
  ]

  handle_all_lem :
      (ds : List Delta) (end : ℕ) (calls : List Call)
      → handle_all accepting w ds end calls ≡ (ok (end_of w ds end), calls ++ writes_of w t ds)
  unfolding handle_all writes_of end_of
  handle_all_lem [] end calls = rw append-nil
  handle_all_lem (d ∷ ds) end calls =
      ap (λ m. continue m (λ e. handle_all accepting w ds e)) (handle_lem d e end calls)
      ∙ handle_all_lem ds (end_after w d e end) (calls ++ write_of w t d e)
      ∙ rw append_assoc
    where
      e : Option EntityType
      e = get_entity_from_delta d.entity

  -- One round of the loop.
  pub watch_step :
      (c : Change) (cs : List Change) (end : ℕ) (calls : List Call)
      → watch accepting w (c ∷ cs) end calls ≡ (
          if ltb (end_of w c.deltas end) c.checked
          then (err Exception.timeout_error, calls ++ writes_of w t c.deltas)
          else watch accepting w cs (end_of w c.deltas end) (calls ++ writes_of w t c.deltas))
  unfolding watch
  watch_step c cs end calls =
      ap
        (λ m. continue m (λ e.
          if ltb e c.checked
          then (λ s. (err Exception.timeout_error, s))
          else watch accepting w cs e))
        (handle_all_lem c.deltas end calls)
      ∙ if_apply (ltb (end_of w c.deltas end) c.checked) _ _ (calls ++ writes_of w t c.deltas)
