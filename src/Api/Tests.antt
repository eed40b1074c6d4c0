-- ===== src/Api/Tests.antt =====
-- The handlers at a concrete review case, over the in-memory repository.
use mathlib.Core.Bool.{false≢true}
use sentinel_content_safety.Core.Engine.{ToxicityModel, Stamp, default, moderate}
use sentinel_content_safety.Core.Normalization.{Unicode}
use sentinel_content_safety.Review.Service.{requires_review}
use sentinel_content_safety.Review.Repository.Memory
use sentinel_content_safety.Distributed.Service.{Naming, Readings as JobReadings, new_job}
use sentinel_content_safety.Distributed.Protocols.{EventPublisher}
use sentinel_content_safety.Distributed.Adapters.{Jobs, memory_store}
use sentinel_content_safety.Distributed.Adapters
use sentinel_content_safety.Base.Dict.{lookup}
use sentinel_content_safety.Schemas.{StoredModerationJob}
use sentinel_content_safety.Api.Routes.{
  moderate_text, JobsServed, submit_moderation_job, get_moderation_job,
}
use sentinel_content_safety.Api.Jobs.{submissions, submit_moderation_job-IsReadable}
use sentinel_content_safety.Base.{if◌then◌else◌, ◌==◌, ◌⊎◌, ◌+◌, str_eq, eq_iff, arith}
use sentinel_content_safety.Base.{
  ℕ, ◌≡◌, refl, String, Option, none, some, List, [], ◌∷◌, Bool, true, false,
}
use sentinel_content_safety.Base.Action.{Result, ok, raised}
use sentinel_content_safety.Core.Trie.{Text}
use sentinel_content_safety.Schemas.{ModerationRequest, ModerationResponse}
use sentinel_content_safety.Review.Models.{ReviewerRole, ReviewPrincipal, ReviewCase, Platform}
use sentinel_content_safety.Review.Repository.Memory.{Memory}
use sentinel_content_safety.Review.Service.{Readings}
use sentinel_content_safety.Review.Durable.{memory_repository}
use sentinel_content_safety.Observability.Metrics.{Registry, prometheus_of_functions as prometheus}
use sentinel_content_safety.Api.Http.{HttpError, http, Served, ReviewApp, Texts}
use sentinel_content_safety.Api.Reviews.{authorized}
use sentinel_content_safety.Api.Guard.{claim, handle, service_call, translated, handle_lem}
use sentinel_content_safety.Api.Refusal.{is_refusal, handle-is_refusal}
use sentinel_content_safety.Api.Queue.{moderate_text-queued}

abbrev platform : Platform
platform = record { sha256 = λ s. s; dumps = λ payload. "json"; uuid5 = λ s. "case" }

abbrev texts : Texts
texts = record { lower = λ t. t; string_of = λ t. "token"; sha256 = λ s. s }

abbrev rose : ReviewPrincipal
rose = record { reviewer_id = "rose"; role = ReviewerRole.reviewer }

abbrev app : ReviewApp Memory
app = record {
  review_service = some memory_repository;
  review_authorizer = some (("token", rose) ∷ []);
}

-- "bearer t"
abbrev header : Text
header = b'b' ∷ b'e' ∷ b'a' ∷ b'r' ∷ b'e' ∷ b'r' ∷ b' ' ∷ b't' ∷ []

abbrev no_series : Registry
no_series m ls = 0

abbrev empty : Served Memory Registry
empty = record {
  repository = record { cases = []; request_index = []; events = [] };
  registry = no_series;
}

abbrev t : Readings
t = record { now = 1; updated_at = 2; occurred_at = 3; event_id = "e" }

-- A case that is not there is answered with 404, as the service says.
handle_lem_example :
    let out = handle platform prometheus texts app (claim t "case") header empty in
    let call = service_call platform memory_repository rose (claim t "case") empty.repository in
    (out.0 ≡ translated call.0) × (out.1.repository ≡ call.1)
unfolding authorized sentinel_content_safety.Api.Reviews.components
    sentinel_content_safety.Api.Reviews.principal_of
    sentinel_content_safety.Review.Auth.authenticate
handle_lem_example =
    handle_lem platform prometheus texts app header empty {service = memory_repository}
      {principal = rose} refl (claim t "case")

-- A request with no token.
handle-is_refusal_example :
    (is_refusal (http 401 "reviewer bearer token is required") ≡ true)
    × ((handle platform prometheus texts app (claim t "case") [] empty).1.repository
        ≡ empty.repository)
unfolding sentinel_content_safety.Api.Reviews.claim_review_case
    sentinel_content_safety.Base.Action.◌>>=◌ sentinel_content_safety.Api.Http.returns authorized
    sentinel_content_safety.Api.Reviews.components sentinel_content_safety.Api.Reviews.principal_of
handle-is_refusal_example =
    handle-is_refusal platform prometheus texts app [] empty (claim t "case") refl

abbrev not_space : ℕ → Bool
not_space c = if c == b' ' then false else true

abbrev ascii : Unicode
ascii = record {
  nfkc = λ t. t;
  casefold = λ t. t;
  is_word = not_space;
  is_letter = not_space;
  is_space = λ c. c == b' ';
}

abbrev stamp : Stamp
stamp = record { threat_id = "t"; response_id = "u"; now = 7 }

abbrev payload : ModerationRequest
payload = record { text = b'h' ∷ b'i' ∷ []; request_id = some "r1" }

-- A model whose score of every text asks for review.
abbrev doubtful : ToxicityModel
doubtful = record { version = "v"; predict_score = λ text. 0x3fe4cccccccccccd }

moderate_text-queued_example :
    let out =
      moderate_text platform prometheus
        (moderate ascii (default {V = Unit {0}} (some doubtful) none) stamp)
        (some memory_repository)
        t
        9
        payload
        tt
        empty in
    (response : ModerationResponse) × (store' : Unit {0}) × (moderate ascii
        (default {V = Unit {0}} (some doubtful) none)
        stamp
        payload
        tt
      ≡ some (response, store'))
    × (out.0.0 ≡ ok response)
    × ((requires_review response ≡ false) × (out.0.1.repository ≡ empty.repository)
        ⊎ (c : ReviewCase) × (Memory.find_by_request_id out.0.1.repository response.request_id
            ≡ some c))
unfolding sentinel_content_safety.Review.Service.case_id_of
moderate_text-queued_example =
    moderate_text-queued platform prometheus {V = Unit {0}} ascii (some doubtful) none stamp t 9
      payload tt empty (λ r e. false≢true ((eq_iff "case" "").1 e))

abbrev naming : Naming
naming = record { sha256 = λ s. s; dump_json = λ r. "json"; uuid5 = λ s. s }

abbrev keys : EventPublisher (List String)
keys = record { publish = λ sent e. (true, e.key ∷ sent) }

abbrev first : JobReadings
first = record { uuid4 = "u1"; now = 10; later = 11 }

abbrev jobs_served : JobsServed Jobs (List String) Registry
jobs_served = record { pipeline = record { store = []; broker = [] }; registry = no_series }

none_held : {A : Type 0} (id : String) (j : StoredModerationJob) → lookup id [] ≡ some j → A
unfolding lookup
none_held id j e = ground arith

submit_moderation_job-IsReadable_example :
    let after =
      submit_moderation_job prometheus naming "in"
        (some (memory_store, keys))
        first
        payload
        jobs_served in
    ((outcome : String)
      → submissions prometheus after.1.registry outcome
        ≡ 0 + (if str_eq "accepted" outcome then 1 else 0))
    × (get_moderation_job prometheus naming "in" (some (memory_store, keys)) "sentinel:r1" after.1
        ≡ ok (new_job naming first payload).job)
unfolding Adapters.get lookup submit_moderation_job
    sentinel_content_safety.Distributed.Service.submit Adapters.create
    sentinel_content_safety.Base.Action.◌>>=◌
    sentinel_content_safety.Distributed.Service.publish_or_fail new_job
    sentinel_content_safety.Api.Routes.submitted
submit_moderation_job-IsReadable_example =
    submit_moderation_job-IsReadable prometheus naming "in" first payload
      (some (memory_store, keys)) jobs_served (λ id j e. none_held id j e)
