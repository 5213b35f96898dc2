-- ===== src/Service/Admission.antt =====
-- What an HTTP answer of `ServeHTTP` of pkg/service/auth.go that lets a request through rests on.
use authorino.Common.{Bytes, Bool, Option, some, ◌≡◌}
use authorino.RadixTree.{found}
use authorino.Evaluators.{StringMap}
use authorino.Pipeline.Phases.{Schedule}
use authorino.Service.{Request, ok_response, Server, check}
use authorino.Service.Http.{HttpResponse, plain, review_allowed, review_denied}

-- The answer has the status 200, or is an allowed review.
abbrev pub Admits : HttpResponse → Type 0
Admits (plain st hs body) = st ≡ 200
Admits review_allowed = Unit
Admits (review_denied st reason) = ⊥

module _ {O M : Type 0} (server : Server O M) where
  -- The OK response that `Check` gave for a request.
  abbrev pub CheckOk : Request → Schedule O → Bool → Bool → Type 0
  CheckOk req schedule late_check expired =
      (hs : StringMap Bytes) × (m : Option M) × (check server req schedule late_check expired
        ≡ found (some (ok_response hs m)))
