-- ===== src/Connector.antt =====
-- n2vc/n2vc_juju_conn.py: the operations of `N2VCJujuConnector` that OSM calls, on the operations of
-- n2vc/libjuju.py. Timeouts other than that of a destruction, `config` values and log lines are left
-- out. The program runs on the Python 3.6 of its Dockerfile, where `except Exception` takes a
-- CancelledError too.
pub mod Environments
pub mod Charms
pub mod Primitives
pub mod Ending
pub mod Refusals
pub mod Raises
pub mod Balance
pub mod Steps
pub mod Connections
pub mod Handover
pub mod Deletion
use n2vc.Prelude.{Bool, Option, none, some, List, [], ◌∷◌}
use n2vc.Prelude.Exec.{Exec, Result, ok, err, pure, raise, ◌>>=◌, ◌catch◌}
use n2vc.Exception.{Exception, index_error, type_error, n2vc_base, n2vc_bad_arguments}
use n2vc.Text.{Text, codes}
use n2vc.Database.{Answers, Call, DbDict}
use n2vc.Database.N2vc.{write_ee_id_db, log_unless_cancelled}
use n2vc.Libjuju.Connection.{Juju, World, Lib}
use n2vc.Naming.EeId.{get_ee_id_components}
use n2vc.Naming.Namespace.{Components, get_namespace_components}

-- The attributes of the object, and what the file storage and the outputs of actions answer.
pub record Connector : Type 0 where
  pub juju : Juju
  pub answers : Answers
  -- self.fs.file_exists(path, mode="dir"), self.fs.path
  pub file_exists : Text → Result Exception Bool
  pub fs_path : Text
  -- an entry of the output of an action
  pub output_item : Text → Text → Option Text
  pub cloud : Option Text
  pub k8s_cloud : Option Text
  pub api_proxy : Option Text
  pub private_key_path : Text

-- What the operations change: the connections of libjuju, and the calls of the database.
pub record State : Type 0 where
  pub world : World
  pub calls : List Call

abbrev pub Op : Type 0 → Type 0
Op A = Exec Exception State A

module _ {A : Type 0} where
  abbrev pub with_world : Result Exception A × World → State → Result Exception A × State
  with_world (r, w) s = (r, record s { world = w })

  abbrev pub with_calls : Result Exception A × List Call → State → Result Exception A × State
  with_calls (r, c) s = (r, record s { calls = c })

  -- An operation of `self.libjuju`, and one of the database.
  unfoldable pub on_juju : Lib A → Op A
  on_juju m s = with_world (m s.world) s

  unfoldable pub on_db : Exec Exception (List Call) A → Op A
  on_db m s = with_calls (m s.calls) s

-- None where a name is expected, as libjuju compares it with names: a text that no `str` equals,
-- since its only character is beyond the last code point.
abbrev pub no_name : Text
no_name = 1114112 ∷ []

abbrev pub named : Option Text → Text
named none = no_name
named (some name) = name

abbrev pub or_raise : {A : Type 0} → Exception → Option A → Op A
or_raise x none = raise x
or_raise x (some a) = pure a

-- `if not x`, or `x is None or len(x) == 0`: raise N2VCBadArgumentsException
unfoldable pub given : Option Text → Op Text
given none = raise n2vc_bad_arguments
given (some []) = raise n2vc_bad_arguments
given (some (c ∷ s)) = pure (c ∷ s)

unfoldable pub namespace_components : Option Text → Op Components
unfolding get_namespace_components
namespace_components namespace = or_raise n2vc_bad_arguments (get_namespace_components namespace)

unfoldable pub ee_id_components : Option Text → Op (Option Text × Option Text × Option Text)
unfolding get_ee_id_components
ee_id_components ee_id = or_raise index_error (get_ee_id_components ee_id)

-- except Exception: raise the exception that is given
unfoldable pub instead : {A : Type 0} → Exception → Exception → Op A
instead x e = raise x

-- `try: _get_ee_id_components  except Exception: raise N2VCBadArgumentsException`
unfoldable pub valid_components : Text → Op (Option Text × Option Text × Option Text)
unfolding ee_id_components instead
valid_components ee_id = ee_id_components (some ee_id) catch instead n2vc_bad_arguments

-- `_write_ee_id_db`; None["collection"] is a TypeError.
unfoldable pub write_ee_id : Answers → Option DbDict → Text → Op (Unit {0})
unfolding on_db write_ee_id_db log_unless_cancelled
write_ee_id answers none ee_id = raise type_error catch log_unless_cancelled
write_ee_id answers (some db_dict) ee_id = on_db (write_ee_id_db answers db_dict ee_id)
