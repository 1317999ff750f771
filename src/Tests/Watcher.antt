-- ===== src/Tests/Watcher.antt =====
-- A watcher of an application.
use n2vc.Prelude.{◌≡◌, refl, some, [], ◌∷◌, ◌++◌, true, List, String, ℕ, All, arith}
use n2vc.Prelude.Exec.{ok}
use n2vc.Text.{Text, codes}
use n2vc.Status.{EntityType, get_entity_from_delta}
use n2vc.Database.{DbDict, dotted}
use n2vc.Watcher.{Delta, Change, Watch, is_listened, model_watcher}
use n2vc.Watcher.Spec.{accepting, Writes, writes_of_changes}
use n2vc.Watcher.Writes.{Ends, model_watcher_writes}
use n2vc.Watcher.Timeout.{IsActive, IsUnheard, model_watcher_alive}

abbrev d : DbDict
d = record { collection = some "nsrs"; filter = some "_id=1"; path = some (codes "vca.0") }

abbrev to : String × String × Text
to = ("nsrs", "_id=1", codes "vca.0.")

abbrev app : Watch
app = record {
  entity_id = "mysql";
  entity_type = EntityType.application;
  timeout = 60;
  has_n2vc = true;
  has_callback = true;
  db_dict = some d;
}

app-Writes : Writes app to
unfolding dotted
app-Writes = record { has_n2vc = refl; target = (d, refl, refl, refl, codes "vca.0", refl, refl) }

abbrev delta : String → ℕ → Delta
delta entity at = record {
  entity = entity;
  name = "mysql";
  application = "mysql";
  id = "0";
  status = "running";
  status_current = "active";
  status_message = "ready";
  agent_current = "started";
  instance_current = "running";
  instance_message = "";
  workload_current = "active";
  workload_message = "ready";
  at = at;
  stamp = "10";
}

-- A delta of a machine, which is not listened to, and one of the application.
abbrev early : Change
early = record { deltas = delta "machine" 9 ∷ delta "application" 10 ∷ []; checked = 11 }

abbrev late : Change
late = record { deltas = delta "machine" 10 ∷ []; checked = 100 }

model_watcher_writes_example :
    (before after : List Change) × (early ∷ late ∷ [] ≡ before ++ after)
    × Ends app 60 to before after [] (model_watcher accepting app 0 (early ∷ late ∷ []) [])
model_watcher_writes_example = model_watcher_writes app to app-Writes 0 (early ∷ late ∷ []) []

early-IsActive : IsActive app early
unfolding get_entity_from_delta is_listened
early-IsActive = record {
  earlier = delta "machine" 9 ∷ [];
  last = delta "application" 10;
  deltas = refl;
  heard = (EntityType.application, refl, refl);
  soon = omega arith;
}

model_watcher_alive_example :
    model_watcher accepting app 0 (early ∷ []) []
    ≡ (ok tt, [] ++ writes_of_changes app to (early ∷ []))
model_watcher_alive_example =
    model_watcher_alive app to app-Writes 0 (early ∷ []) [] (early-IsActive, tt)

late-IsUnheard : All (IsUnheard app) late.deltas
unfolding get_entity_from_delta is_listened
late-IsUnheard = (λ e h. ground arith, tt)
