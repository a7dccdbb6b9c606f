-- ===== src/Client/Fallback.antt =====
-- When a second transport is tried.
use beamd.Prelude.{◌≡◌, Bool, true, false, ◌&&◌, arith, list_eq, nat_eq}
use beamd.Client.{
  CandidateError, CloseInfo, hello_rejection_from_close_info, hello_failure_from_close_info,
  fail_candidate,
}

-- A failed candidate stays eligible only if its cleanup ended in time and its peer did not close the
-- session with an application code: an explicit rejection is never retried on the other transport.
pub fail_candidate-eligible :
    (cleaned : Bool) (info : CloseInfo) (failure : CandidateError)
    → (fail_candidate cleaned info failure).eligible ≡ true
    → (cleaned ≡ true) × ((info.code_valid && info.remote) ≡ false)
unfolding fail_candidate hello_failure_from_close_info hello_rejection_from_close_info
fail_candidate-eligible cleaned info failure h = ground (arith, h)
