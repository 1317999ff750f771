-- ===== src/Database/N2vc.antt =====
-- `N2VCConnector.write_app_status_to_db` of n2vc/n2vc_conn.py, and `_write_ee_id_db` of
-- n2vc/n2vc_juju_conn.py.
use n2vc.Prelude.{◌≡◌, String, Bool, List, [], ◌∷◌, ◌++◌, Option, none, some}
use n2vc.Prelude.Exec.{Exec, pure, raise, ◌>>=◌, ◌catch◌}
use n2vc.Exception.{Exception}
use n2vc.Status.{DeploymentStatus, status_value}
use n2vc.Text.{Text, codes}
use n2vc.Database.{
  arith, dotted, dotted-dotted, DbDict, Update, Call, Answers, target, store, call, set_one,
}

unfoldable pub status_update :
    String × String × Text → DeploymentStatus → Text → Text → Text → Text → Update
unfolding status_value
status_update (the_table, the_filter, the_path) status detailed_status vca_status entity_type now =
    record {
      table = the_table;
      q_filter = the_filter;
      the_path = the_path;
      update_dict =
          (the_path ++ codes "status", codes (status_value status))
          ∷ (the_path ++ codes "detailed-status", detailed_status)
          ∷ (the_path ++ codes "VCA-status", vca_status)
          ∷ (the_path ++ codes "entity-type", entity_type)
          ∷ (the_path ++ codes "status-time", now)
          ∷ [];
    }

-- `except DbException`: logged, not raised again
unfoldable pub log_db_exception : {S : Type 0} → Exception → Exec Exception S (Unit {0})
log_db_exception (Exception.db_exception not_found) = pure tt
log_db_exception e = raise e

-- `now` is the time as `str(time.time())` writes it.
unfoldable pub write_app_status_to_db :
    Answers
    → Bool
    → Option DbDict
    → DeploymentStatus
    → Text
    → Text
    → Text
    → Text
    → Exec Exception (List Call) (Unit {0})
unfolding target store status_update log_db_exception
write_app_status_to_db env has_callback none status detailed_status vca_status entity_type now =
    pure tt
write_app_status_to_db env has_callback (some d) status detailed_status vca_status entity_type now =
    (do
      t ← target d
      store env has_callback (status_update t status detailed_status vca_status entity_type now))
    catch log_db_exception

unfoldable pub ee_id_update : String × String × Text → Text → Update
ee_id_update (the_table, the_filter, the_path) ee_id = record {
  table = the_table;
  q_filter = the_filter;
  the_path = the_path;
  update_dict = (the_path ++ codes "ee_id", ee_id) ∷ [];
}

-- `except asyncio.CancelledError: raise`, `except Exception`: logged
unfoldable pub log_unless_cancelled : {S : Type 0} → Exception → Exec Exception S (Unit {0})
log_unless_cancelled Exception.cancelled = raise Exception.cancelled
log_unless_cancelled e = pure tt

unfoldable pub write_ee_id_db : Answers → DbDict → Text → Exec Exception (List Call) (Unit {0})
unfolding target call ee_id_update log_unless_cancelled
write_ee_id_db env d ee_id =
    (do t ← target d; call env (set_one (ee_id_update t ee_id))) catch log_unless_cancelled

-- A path with its final dot and without gives the same calls and the same result.
write_app_status_to_db-dotted :
    (env : Answers) (has_callback : Bool) (d : DbDict) (path path' : Text)
    (status : DeploymentStatus) (detailed_status vca_status entity_type now : Text)
    (calls : List Call)
    → d.path ≡ some path
    → dotted path ≡ some path'
    → write_app_status_to_db env has_callback
        (some (record d { path = some path' }))
        status
        detailed_status
        vca_status
        entity_type
        now
        calls
      ≡ write_app_status_to_db env has_callback
          (some d)
          status
          detailed_status
          vca_status
          entity_type
          now
          calls
unfolding write_app_status_to_db
write_app_status_to_db-dotted env has_callback d path path' status detailed_status vca_status
      entity_type now calls hp hd =
    ground (arith, dotted-dotted path path' hd)
