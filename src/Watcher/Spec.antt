-- ===== src/Watcher/Spec.antt =====
-- The writes that a watcher owes to a list of changes, and the end of its timeout after them.
use n2vc.Prelude.{
  ◌+◌, ◌=ₛ◌, if◌then◌else◌, ◌++◌, true, some, ◌∷◌, [], ◌≡◌, ◌≤◌, ◌<◌, List, Option, String, none, ℕ,
}
use n2vc.Status.{EntityType, type_name, get_entity_from_delta, osm_status}
use n2vc.Database.{DbDict, Update, Call, Answers, set_one, on_update_db, dotted}
use n2vc.Database.N2vc
use n2vc.Text.{Text, codes}
use n2vc.Watcher.{Delta, Change, Watch}

-- A database that accepts every call.
abbrev pub accepting : Answers
accepting calls c = none

-- A watcher with something to write to: the table, the filter, and the path with its final dot.
pub record Writes (w : Watch) (t : String × String × Text) : Type 0 where
  pub has_n2vc : w.has_n2vc ≡ true
  pub target :
      (d : DbDict) × (w.db_dict ≡ some d)
      × (d.collection ≡ some t.0)
      × (d.filter ≡ some t.1)
      × (p : Text) × (d.path ≡ some p)
      × (dotted p ≡ some t.2)

-- What a delta is of for a watcher of some kind of entity: the name or the id that says so, or none
-- for a kind that such a watcher passes over. An application is told of by its units, too.
unfoldable pub subject : EntityType → EntityType → Delta → Option String
subject EntityType.application EntityType.application d = some d.name
subject EntityType.application EntityType.unit d = some d.application
subject EntityType.machine EntityType.machine d = some d.id
subject EntityType.action EntityType.action d = some d.id
subject EntityType.unit EntityType.unit d = some d.id
subject _ _ d = none

-- The status that is translated, the message, and the status of the VCA.
unfoldable pub told : EntityType → Delta → String
told EntityType.machine d = d.agent_current
told EntityType.action d = d.status
told EntityType.application d = d.status_current
told EntityType.unit d = d.workload_current

unfoldable pub told_message : EntityType → Delta → String
told_message EntityType.machine d = d.instance_message
told_message EntityType.action d = d.status
told_message EntityType.application d = d.status_message
told_message EntityType.unit d = d.workload_message

-- That of a machine is the status of its instance, not of its agent.
unfoldable pub told_vca : EntityType → Delta → String
told_vca EntityType.machine d = d.instance_current
told_vca EntityType.action d = d.status
told_vca EntityType.application d = d.status_current
told_vca EntityType.unit d = d.workload_current

module _ (w : Watch) (t : String × String × Text) where
  -- The write for a delta, with its callback.
  unfoldable pub update_of : Delta → EntityType → Update
  update_of d delta_entity =
      N2vc.status_update t (osm_status delta_entity (told delta_entity d))
        (codes (told_message delta_entity d)) (codes (told_vca delta_entity d))
        (codes (type_name delta_entity)) (codes d.stamp)

  abbrev pub calls_of : Update → List Call
  calls_of u = set_one u ∷ (if w.has_callback then on_update_db u ∷ [] else [])

  abbrev pub write_for : Option String → List Call → List Call
  write_for none calls = []
  write_for (some name) calls = if name =ₛ w.entity_id then calls else []

  abbrev pub write_of : Delta → Option EntityType → List Call
  write_of d none = []
  write_of d (some delta_entity) =
      write_for (subject w.entity_type delta_entity d) (calls_of (update_of d delta_entity))

  -- The calls for some deltas: those of the entity alone, in their order.
  unfoldable pub writes_of : List Delta → List Call
  writes_of [] = []
  writes_of (d ∷ ds) = write_of d (get_entity_from_delta d.entity) ++ writes_of ds

  unfoldable pub writes_of_changes : List Change → List Call
  writes_of_changes [] = []
  writes_of_changes (c ∷ cs) = writes_of c.deltas ++ writes_of_changes cs

module _ (w : Watch) where
  abbrev pub end_for : Option String → ℕ → ℕ → ℕ
  end_for none later end = end
  end_for (some name) later end = later

  -- The end of the timeout after a delta of some kind.
  abbrev pub end_after : Delta → Option EntityType → ℕ → ℕ
  end_after d none end = end
  end_after d (some delta_entity) end =
      end_for (subject w.entity_type delta_entity d) (d.at + w.timeout) end

  unfoldable pub end_of : List Delta → ℕ → ℕ
  end_of [] end = end
  end_of (d ∷ ds) end = end_of ds (end_after d (get_entity_from_delta d.entity) end)

  -- Every change is checked before the timeout that stands then has passed.
  unfoldable pub OnTime : ℕ → List Change → Type 0
  unfolding end_of
  OnTime end [] = Unit
  OnTime end (c ∷ cs) = (c.checked ≤ end_of c.deltas end) × OnTime (end_of c.deltas end) cs

  -- The last change is the first that is checked later.
  unfoldable pub OverAtLast : ℕ → List Change → Type 0
  unfolding end_of
  OverAtLast end [] = ⊥
  OverAtLast end (c ∷ []) = end_of c.deltas end < c.checked
  OverAtLast end (c ∷ k ∷ cs) =
      (c.checked ≤ end_of c.deltas end) × OverAtLast (end_of c.deltas end) (k ∷ cs)
