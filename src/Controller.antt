-- ===== src/Controller.antt =====
-- src/common/carrot_controller.h: the outcome of a call and where it is sent. The callback of
-- NotifyOnCancel is an address that nothing reads.
pub mod Consistent
use carrot_rpc.Prelude.{ℕ, Bool, true, false, Option, none, some, [], Bytes}

pub data ErrorCode : Type 0 where
  ec_success ec_error ec_failed ec_connection_failed ec_oom ec_serialization_error : ErrorCode
  ec_transport_error ec_invalid_internal_state ec_method_not_found ec_rpc_timeout : ErrorCode

abbrev pub timeout_never : ℕ
timeout_never = 0

pub record Controller : Type 0 where
  pub failed : Bool
  pub cancelled : Bool
  pub error_text : Bytes
  pub cancel_callback : ℕ
  pub code : ErrorCode
  pub host : Bytes
  pub service : Bytes
  pub timeout : ℕ

-- The constructor with three arguments; `callback` is what the memory of the callback holds, which
-- it leaves uninitialised.
unfoldable pub new_controller_for : ℕ → Bytes → Bytes → ℕ → Controller
new_controller_for callback host service timeout = record {
  failed = false;
  cancelled = false;
  error_text = [];
  cancel_callback = callback;
  code = ec_success;
  host = host;
  service = service;
  timeout = timeout;
}

-- The default constructor, which leaves the timeout uninitialised too: the memory holds `garbage`.
unfoldable pub new_controller : ℕ → ℕ → Controller
unfolding new_controller_for
new_controller callback garbage = new_controller_for callback [] [] garbage

-- SetFailed with one argument and with two.
unfoldable pub set_failed : Controller → Bytes → Controller
set_failed c reason = record c { error_text = reason; failed = true; code = ec_failed }

unfoldable pub set_failed_with : Controller → Bytes → ErrorCode → Controller
unfolding set_failed
set_failed_with c reason ec = record (set_failed c reason) { code = ec }

unfoldable pub reset : Controller → Controller
reset c = record c { error_text = []; cancelled = false; failed = false; code = ec_success }

unfoldable pub start_cancel : Controller → Controller
start_cancel c = record c { cancelled = true }

unfoldable pub notify_on_cancel : Controller → ℕ → Controller
notify_on_cancel c callback = record c { cancel_callback = callback }

-- The setters host, service and timeout.
unfoldable pub set_host : Controller → Bytes → Controller
set_host c host = record c { host = host }

unfoldable pub set_service : Controller → Bytes → Controller
set_service c service = record c { service = service }

unfoldable pub set_timeout : Controller → ℕ → Controller
set_timeout c timeout = record c { timeout = timeout }
