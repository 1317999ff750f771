-- ===== src/Exception.antt =====
-- The exceptions of n2vc/exceptions.py that the modelled code raises, and those that it meets in
-- Python and in its libraries. Messages are not modelled.
use n2vc.Prelude.{Bool}

pub data Exception : Type 0 where
  -- n2vc/exceptions.py
  juju_controller_failed_connecting : Exception
  juju_model_already_exists : Exception
  juju_application_exists : Exception
  juju_application_not_found : Exception
  juju_machine_not_found : Exception
  juju_k8s_proxycharm_not_supported : Exception
  method_not_implemented : Exception
  n2vc_base n2vc_bad_arguments n2vc_connection n2vc_timeout n2vc_execution n2vc_invalid_certificate
        n2vc_not_found :
      Exception
  k8s : Exception
  -- asyncio
  cancelled : Exception
  timeout_error : Exception
  -- osm_common: whether the code is NOT_FOUND
  db_exception : Bool → Exception
  -- libjuju: whether the message holds "not found" or "already exists"
  juju_api : Bool → Exception
  -- Python
  key_error index_error type_error attribute_error unbound_local value_error : Exception
  called_process file_not_found : Exception
  -- any other exception of a library
  other : Exception
