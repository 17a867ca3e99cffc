-- ===== src/Api/Interleaved/Tests.antt =====
-- The message of before, sent twice at a time.
use dlc_stack.Base.{some}
use dlc_stack.Api.Http.{Request, state_of}
use dlc_stack.Api.Router.{svc_call}
use dlc_stack.Api.Router.Effects.{IsSpent}
use dlc_stack.Api.Interleaved.{Runs}
use dlc_stack.Api.Interleaved.Replayed.{idle, both, replayed-IsServed}
use dlc_stack.Api.Auth.Refusals.{up}
use dlc_stack.Api.Tests.{
  toy, posting, start, message, body, signed_request, body_parses, body-IsAuthentic, n3_ne_n1,
}

abbrev once : Request
once = record (posting "n1" "n1") { payload = some (message "n1") }

replayed-IsServed_example :
    IsSpent "n1" (state_of (svc_call (up "n3") once start)).nonces
    × Runs toy (idle start) (
        both
          (svc_call (up "n3") once start)
          (svc_call (up "n4") once (state_of (svc_call (up "n3") once start))))
replayed-IsServed_example =
    replayed-IsServed toy (up "n3") (up "n4") "n1" (posting "n1" "n1") start body signed_request
      body_parses body-IsAuthentic n3_ne_n1
