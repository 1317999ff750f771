-- ===== src/Database/K8s.antt =====
-- `K8sConnector.write_app_status_to_db` of n2vc/k8s_conn.py.
use n2vc.Prelude.{
  ◌≡◌, if◌then◌else◌, String, Bool, true, false, List, [], ◌∷◌, ◌++◌, Option, none, some,
}
use n2vc.Prelude.Exec.{ok, Exec, pure, ◌>>=◌, ◌>>◌, ◌catch◌}
use n2vc.Exception.{Exception}
use n2vc.Text.{Text, codes}
use n2vc.Database.{
  arith, set_one, on_update_db, dotted, DbDict, Update, Call, Answers, target, store,
}

unfoldable pub status_update : String × String × Text → Text → Text → Text → Text → Update
status_update (the_table, the_filter, the_path) operation status detailed_status now = record {
  table = the_table;
  q_filter = the_filter;
  the_path = the_path;
  update_dict =
      (the_path ++ codes "operation", operation)
      ∷ (the_path ++ codes "status", status)
      ∷ (the_path ++ codes "detailed-status", detailed_status)
      ∷ (the_path ++ codes "status-time", now)
      ∷ [];
}

-- `has_db`: there is a database object
unfoldable pub write_app_status_to_db :
    Answers
    → Bool
    → Bool
    → Option DbDict
    → Text
    → Text
    → Text
    → Text
    → Exec Exception (List Call) Bool
unfolding target store status_update
write_app_status_to_db env false has_callback db_dict status detailed_status operation now =
    pure false
write_app_status_to_db env true has_callback none status detailed_status operation now = pure false
write_app_status_to_db env true has_callback (some d) status detailed_status operation now =
    (do
      t ← target d
      store env has_callback (status_update t operation status detailed_status now)
      pure true)
    catch (λ e. pure false)

-- The exception that a stored update ends in, if any: that of `set_one`, else the callback's.
abbrev pub store_outcome : Answers → Bool → Update → List Call → Option Exception
store_outcome env has_callback u calls = elim (env calls (set_one u)) [
  | some e ↦ some e
  | none ↦ if has_callback then env (calls ++ set_one u ∷ []) (on_update_db u) else none
]

abbrev pub is_none {ℓ} : {A : Type ℓ} → Option A → Bool
is_none none = true
is_none (some a) = false

abbrev pub store_calls : Answers → Bool → Update → List Call → List Call
store_calls env has_callback u calls = elim (env calls (set_one u)) [
  | some e ↦ calls ++ set_one u ∷ []
  | none ↦
      if has_callback
      then (calls ++ set_one u ∷ []) ++ on_update_db u ∷ []
      else calls ++ set_one u ∷ []
]

module _ (env : Answers) (has_callback : Bool) (d : DbDict) (table filter : String)
    (path the_path status detailed_status operation now : Text) where
  abbrev written : Update
  written = status_update (table, filter, the_path) operation status detailed_status now

  -- With a database object and a complete `db_dict` the method never raises. It calls `set_one` with
  -- the update and then, if that succeeds, the callback; and it returns True exactly when neither
  -- of the two raises.
  write_app_status_to_db_lem :
      (calls : List Call)
      → d.collection ≡ some table
      → d.filter ≡ some filter
      → d.path ≡ some path
      → dotted path ≡ some the_path
      → write_app_status_to_db env true has_callback
          (some d)
          status
          detailed_status
          operation
          now
          calls
        ≡ (
          ok (is_none (store_outcome env has_callback written calls)),
          store_calls env has_callback written calls,
        )
  unfolding write_app_status_to_db
  write_app_status_to_db_lem calls hc hf hp hd = ground arith
