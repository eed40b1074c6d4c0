-- ===== src/Observability/Tests.antt =====
-- The middleware over a registry that keeps what was written to each series.
use sentinel_content_safety.Base.{ℕ, ◌≡◌, refl, String, [], ◌∷◌, some}
use sentinel_content_safety.Base.Action.{ok}
use sentinel_content_safety.Base.Dict.{insert}
use sentinel_content_safety.Core.Trie.{Text}
use sentinel_content_safety.Observability.Metrics.{Registry, prometheus_of_functions as prometheus}
use sentinel_content_safety.Observability.Middleware.{
  is_request_id, request_id_of, Request, Exchange, begin, finish, dispatch,
}
use sentinel_content_safety.Observability.Requests.{
  inflight, handled, dispatch_lem, Serving, begins, finishes, over, and_then, inflight-Run,
}

abbrev str : ℕ → String
str n = "200"

abbrev empty : Registry
empty m ls = 0

abbrev request : Request
request = record { method = "GET"; x_request_id = b'a' ∷ [] }

abbrev call_next : Text → Registry → Exchange String × Registry
call_next id r = ((ok (record { status_code = 200; headers = [] }), some "/health"), r)

dispatch_run :
    (dispatch prometheus str request call_next (b'u' ∷ []) 5 empty).0
    ≡ ok (record { status_code = 200; headers = ("X-Request-ID", b'a' ∷ []) ∷ [] })
unfolding dispatch request_id_of is_request_id insert
dispatch_run = refl

dispatch_lem_example :
    let after = dispatch prometheus str request call_next (b'u' ∷ []) 5 empty in
    (inflight prometheus after.1 ≡ 0)
    × ((after.0 ≡ ok (record { status_code = 200; headers = ("X-Request-ID", b'a' ∷ []) ∷ [] }))
        × (handled prometheus str after.1 "GET" "/health" 200 ≡ 1))
unfolding insert
dispatch_lem_example =
    dispatch_lem prometheus str request call_next (b'u' ∷ []) 5 empty (λ id s. refl)
      (λ id s ls. refl)

abbrev one_active : Serving Registry
one_active = record { active = request ∷ []; registry = begin prometheus empty }

-- Two requests overlap, and the first one finishes.
inflight-Run_example :
    inflight prometheus (
      finish {E = String} prometheus str request
        (call_next [] empty).0
        5
        (begin prometheus (begin prometheus empty)))
    ≡ 1
inflight-Run_example =
    inflight-Run String prometheus str {s = record { active = []; registry = empty }}
      {t = record {
        active = request ∷ [];
        registry =
            finish {E = String} prometheus str request (call_next [] empty).0 5
              (begin prometheus (begin prometheus empty));
      }}
      (and_then (begins request _) (
        and_then (begins request one_active)
          (and_then (finishes (request ∷ []) [] request (call_next [] empty).0 5 _) over)))
      refl
