-- ===== src/Watcher/Timeout.antt =====
-- When the watcher gives up, against a database that accepts every call.
use n2vc.Prelude.{
  ◌+◌, ◌≤◌, ◌<◌, refl, ap, ◌∙◌, inl, inr, true, false, some, [], ◌∷◌, ◌++◌, append_assoc,
  append-nil, arith, ltb, lt→ltb, Option-cases, All, String, List, ◌≡◌, ℕ,
}
use n2vc.Prelude.Exec.{ok, err}
use n2vc.Exception
use n2vc.Status.{EntityType, get_entity_from_delta}
use n2vc.Database.{Call}
use n2vc.Text.{Text}
use n2vc.Watcher.{Delta, Change, Watch, is_listened, watch, model_watcher}
use n2vc.Watcher.Spec.{accepting, Writes, writes_of, writes_of_changes, end_of}
use n2vc.Watcher.Steps.{subject_lem, watch_step}

-- The delta is of a kind that is listened to.
abbrev pub IsHeard : Watch → Delta → Type 0
IsHeard w d =
    (e : EntityType) × (get_entity_from_delta d.entity ≡ some e)
    × (is_listened w.entity_type e ≡ true)

abbrev pub IsUnheard : Watch → Delta → Type 0
IsUnheard w d =
    (e : EntityType) → get_entity_from_delta d.entity ≡ some e → is_listened w.entity_type e ≡ false

-- The last delta of the change is heard, and the check comes in time after it.
pub record IsActive (w : Watch) (c : Change) : Type 0 where
  pub earlier : List Delta
  pub last : Delta
  pub deltas : c.deltas ≡ earlier ++ last ∷ []
  pub heard : IsHeard w last
  pub soon : c.checked ≤ last.at + w.timeout

end_of-append :
    (w : Watch) (ds : List Delta) (d : Delta) (end : ℕ)
    → IsHeard w d
    → end_of w (ds ++ d ∷ []) end ≡ d.at + w.timeout
unfolding end_of
end_of-append w [] d end (e, known, heard) = rw (known, subject_lem w.entity_type e d, heard)
end_of-append w (x ∷ ds) d end h = end_of-append w ds d _ h

end_of_unheard :
    (w : Watch) (ds : List Delta) (end : ℕ) → All (IsUnheard w) ds → end_of w ds end ≡ end
unfolding end_of
end_of_unheard w [] end h = refl
end_of_unheard w (d ∷ ds) end h = elim (Option-cases (get_entity_from_delta d.entity)) [
  | inl unknown ↦ rw unknown (end_of_unheard w ds end h.1)
  | inr (e, known) ↦
      rw (known, subject_lem w.entity_type e d, h.0 e known) (end_of_unheard w ds end h.1)
]

writes_of_unheard :
    (w : Watch) (t : String × String × Text) (ds : List Delta)
    → All (IsUnheard w) ds
    → writes_of w t ds ≡ []
unfolding writes_of
writes_of_unheard w t [] h = refl
writes_of_unheard w t (d ∷ ds) h = elim (Option-cases (get_entity_from_delta d.entity)) [
  | inl unknown ↦ rw unknown (writes_of_unheard w t ds h.1)
  | inr (e, known) ↦
      rw (known, subject_lem w.entity_type e d, h.0 e known) (writes_of_unheard w t ds h.1)
]

in_time :
    (w : Watch) (c : Change) (end : ℕ)
    → IsActive w c
    → ltb (end_of w c.deltas end) c.checked ≡ false
in_time w c end a =
    let e : end_of w c.deltas end ≡ a.last.at + w.timeout =
      ap (λ ds. end_of w ds end) a.deltas ∙ end_of-append w a.earlier a.last end a.heard in
    rw e (let h : c.checked ≤ a.last.at + w.timeout = a.soon in ground arith)

module _ (w : Watch) (t : String × String × Text) (to : Writes w t) where
  watch_alive :
      (cs : List Change) (end : ℕ) (calls : List Call)
      → All (IsActive w) cs
      → watch accepting w cs end calls ≡ (ok tt, calls ++ writes_of_changes w t cs)
  watch_alive [] end calls h = unfold watch writes_of_changes in rw append-nil
  watch_alive (c ∷ cs) end calls h =
      watch_step w t to c cs end calls
      ∙ rw (in_time w c end h.0) (
          watch_alive cs (end_of w c.deltas end) (calls ++ writes_of w t c.deltas) h.1
          ∙ (unfold writes_of_changes in rw append_assoc))

  -- While every change ends in a delta of a kind that is listened to and is checked no later than the
  -- timeout after it, the watcher does not give up: it writes all changes and ends normally.
  pub model_watcher_alive :
      (now : ℕ) (changes : List Change) (calls : List Call)
      → All (IsActive w) changes
      → model_watcher accepting w now changes calls
        ≡ (ok tt, calls ++ writes_of_changes w t changes)
  unfolding model_watcher
  model_watcher_alive now changes calls h = watch_alive changes (now + w.timeout) calls h

  watch_late :
      (end : ℕ) (c : Change) (cs : List Change) (calls : List Call)
      → All (IsUnheard w) c.deltas
      → end < c.checked
      → watch accepting w (c ∷ cs) end calls ≡ (err Exception.timeout_error, calls)
  watch_late end c cs calls h late =
      watch_step w t to c cs end calls
      ∙ rw (
        end_of_unheard w c.deltas end h,
        writes_of_unheard w t c.deltas h,
        lt→ltb _ _ late,
        append-nil,
      )

  -- A first change that has no delta of a kind that is listened to, checked later than the timeout
  -- after the start, ends the watcher by TimeoutError with nothing written.
  model_watcher_late :
      (now : ℕ) (c : Change) (cs : List Change) (calls : List Call)
      → All (IsUnheard w) c.deltas
      → now + w.timeout < c.checked
      → model_watcher accepting w now (c ∷ cs) calls ≡ (err Exception.timeout_error, calls)
  unfolding model_watcher
  model_watcher_late now c cs calls h late = watch_late (now + w.timeout) c cs calls h late
