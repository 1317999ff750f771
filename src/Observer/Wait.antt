-- ===== src/Observer/Wait.antt =====
-- Waiting for an entity: `wait_for_machine`, `wait_for_application`, `wait_for_action` and
-- `_wait_for_entity` of n2vc/juju_observer.py.
--
-- Times are whole numbers of one unit. What other tasks do while this one waits is a list of rounds:
-- what the attribute of the object reads at the loop's test, and after how long the event is set.
pub mod Returns
pub mod TotalTimeout
use n2vc.Prelude.{
  zero, ◌∙◌, ap, eq_iff, Option-cases, inr, inl, ◌++◌, Bool-cases, ℕ, suc, ◌+◌, ◌*◌, ◌≤◌, ◌<◌, min,
  String, ◌≡◌, ◌≢◌, refl, Bool, true, false, List, [], ◌∷◌, Option, none, some, leb, ◌==◌,
  if◌then◌else◌, arith, All, get_elem?, replicate, take, length,
}
use n2vc.Status
use n2vc.Status.{is_one_of}
use n2vc.Observer.{Observer}
use n2vc.Observer.Registry.{Kind, is_registered}

pub record Round : Type 0 where
  pub status : String
  -- `none`: the event is not set any more
  pub signal : Option ℕ

pub data Outcome : Type 0 where
  -- retries, time spent
  returned : ℕ → ℕ → Outcome
  -- N2VCTimeoutException: its `timeout`, time spent
  raised : String → ℕ → Outcome
  -- the rounds are used up, and the entity is still waited for
  waiting : Outcome

-- _wait_for_event_or_timeout: how long it took, if the event is set in time
unfoldable pub wait_for_event_or_timeout : Option ℕ → ℕ → Option ℕ
wait_for_event_or_timeout none timeout = none
wait_for_event_or_timeout (some after) timeout = if leb after timeout then some after else none

module _ (final_states_list : List String) (next_timeout : ℕ) where
  -- the `while` loop, with the retries and the time spent so far
  unfoldable pub wait_loop : List Round → ℕ → ℕ → Outcome
  unfolding wait_for_event_or_timeout is_one_of
  wait_loop [] retries spent = Outcome.waiting
  wait_loop (r ∷ rest) retries spent =
      if is_one_of r.status final_states_list
      then Outcome.returned retries spent
      else elim (wait_for_event_or_timeout r.signal next_timeout) [
        | none ↦ Outcome.raised "progress" (spent + next_timeout)
        | some after ↦ wait_loop rest (retries + 1) (spent + after)
      ]

abbrev pub or_hour : Option ℕ → ℕ
or_hour none = 3600
or_hour (some t) = t

-- _wait_for_entity; `now >= total_end` says that the total timeout is 0.
unfoldable pub wait_for_entity : List String → Option ℕ → Option ℕ → List Round → Outcome
unfolding wait_loop
wait_for_entity final_states_list progress_timeout total_timeout rounds =
    if or_hour total_timeout == 0
    then Outcome.raised "total" 0
    else wait_loop final_states_list (min (or_hour total_timeout) (or_hour progress_timeout)) rounds
        0 0

-- The attribute that is read, and its final values.
unfoldable pub awaited : Kind → String × List String
awaited Kind.machine = ("agent_status", "started" ∷ [])
awaited Kind.application = ("status", "active" ∷ "blocked" ∷ [])
awaited Kind.action = ("status", "completed" ∷ "failed" ∷ "cancelled" ∷ [])

-- wait_for_machine, wait_for_application, wait_for_action; `none` is Python's None, returned at once.
unfoldable pub wait_for :
    Kind → String → Option ℕ → Option ℕ → List Round → Observer → Option Outcome
unfolding wait_for_entity awaited
wait_for k id progress_timeout total_timeout rounds o =
    if is_registered k id o
    then some (wait_for_entity (awaited k).1 progress_timeout total_timeout rounds)
    else none

abbrev entity_type : Kind → Status.EntityType
entity_type Kind.machine = Status.EntityType.machine
entity_type Kind.application = Status.EntityType.application
entity_type Kind.action = Status.EntityType.action

-- The observer waits for the attribute and the states that the table FinalStatus has.
awaited-eq-final_status :
    (k : Kind)
    → Status.final_status (entity_type k)
      ≡ some (record { field = (awaited k).0; status = (awaited k).1 })
unfolding awaited Status.final_status
awaited-eq-final_status Kind.machine = refl
awaited-eq-final_status Kind.application = refl
awaited-eq-final_status Kind.action = refl
