-- ===== src/Controller/Consistent.antt =====
-- A controller that has not failed reports no error.
use carrot_rpc.Prelude.{ℕ, ◌≡◌, refl, ◌⊎◌, inr, true, [], Bytes, arith}
use carrot_rpc.Controller.{
  Controller, ErrorCode, ec_success, new_controller_for, set_failed, set_failed_with, reset,
  start_cancel, notify_on_cancel,
}

pub data Op : Type 0 where
  fails : Bytes → Op
  fails_with : Bytes → ErrorCode → Op
  resets cancels : Op
  notifies : ℕ → Op

pub step : Controller → Op → Controller
step c (fails reason) = set_failed c reason
step c (fails_with reason ec) = set_failed_with c reason ec
step c resets = reset c
step c cancels = start_cancel c
step c (notifies callback) = notify_on_cancel c callback

-- Failed() is true, or the error text is empty and the code is EC_SUCCESS.
abbrev pub IsConsistent : Controller → Type 0
IsConsistent c = (c.failed ≡ true) ⊎ (c.error_text ≡ []) × (c.code ≡ ec_success)

pub new_controller_for-IsConsistent :
    (callback timeout : ℕ) (host service : Bytes)
    → IsConsistent (new_controller_for callback host service timeout)
unfolding new_controller_for
new_controller_for-IsConsistent callback timeout host service = inr (refl, refl)

-- Every operation keeps a controller consistent, and none changes where a call is sent or its timeout: a
-- controller that says it has not failed has an empty error text and the code EC_SUCCESS.
pub step-IsConsistent :
    (c : Controller) (o : Op)
    → IsConsistent c
    → IsConsistent (step c o)
      × ((step c o).host ≡ c.host)
      × ((step c o).service ≡ c.service)
      × ((step c o).timeout ≡ c.timeout)
unfolding step set_failed set_failed_with reset start_cancel notify_on_cancel
step-IsConsistent c (fails reason) i = ground arith
step-IsConsistent c (fails_with reason ec) i = ground arith
step-IsConsistent c resets i = ground arith
step-IsConsistent c cancels i = ground arith
step-IsConsistent c (notifies callback) i = ground arith
