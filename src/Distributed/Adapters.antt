-- ===== src/Distributed/Adapters.antt =====
-- src/sentinel/distributed/adapters.py: the in-memory store, the recording publisher, the Redis
-- store over a client that offers `SET` with NX and XX, and the Kafka publisher over a producer.
use Prim.Native.String.{◌++◌ as str_append}
use mathlib.Core.Bool.{false≢true}
use text.Mathlib.TextLemmas.{append_cancel_left}
use sentinel_content_safety.Base.{
  ap, sym, ◌∙◌, inl, inr, Bool-cases, ℕ, ◌≡◌, String, Option, none, some, List, [], ◌∷◌, ◌++◌, Bool,
  true, false, not, ◌&&◌, str_eq, eq_iff, arith, is_some, if◌then◌else◌, ◌==◌,
}
use sentinel_content_safety.Base.Dict.{Dict, lookup, insert, lookup-insert}
use sentinel_content_safety.Schemas.{StoredModerationJob}
use sentinel_content_safety.Distributed.Protocols.{JobStore, EventPublisher, Event}

abbrev pub Jobs : Type 0
Jobs = Dict StoredModerationJob

-- `InMemoryJobStore.create`, `get` and `save`
unfoldable pub create : Jobs → StoredModerationJob → Bool × Jobs
create jobs j =
    if is_some (lookup j.job.job_id jobs) then (false, jobs) else (true, insert j.job.job_id j jobs)

unfoldable pub get : Jobs → String → Option StoredModerationJob
get jobs job_id = lookup job_id jobs

unfoldable pub save : Jobs → StoredModerationJob → Jobs
save jobs j = insert j.job.job_id j jobs

pub create-absent :
    (jobs : Jobs) (j : StoredModerationJob)
    → (create jobs j).0 ≡ not (is_some (get jobs j.job.job_id))
unfolding create get
create-absent jobs j = ground arith

pub get-create :
    (jobs : Jobs) (j : StoredModerationJob) (id : String)
    → get (create jobs j).1 id ≡ (
        if str_eq j.job.job_id id
        then (elim (get jobs j.job.job_id) [ none ↦ some j | some old ↦ some old ])
        else get jobs id)
unfolding create get
get-create jobs j id = ground (arith, lookup-insert j.job.job_id id j jobs, eq_iff j.job.job_id id)

pub create-present :
    (jobs : Jobs) (j : StoredModerationJob)
    → is_some (get jobs j.job.job_id) ≡ true
    → (create jobs j).1 ≡ jobs
unfolding create get
create-present jobs j h = rw h

pub get-save :
    (jobs : Jobs) (j : StoredModerationJob) (id : String)
    → is_some (get jobs j.job.job_id) ≡ true
    → get (save jobs j) id ≡ (if str_eq j.job.job_id id then some j else get jobs id)
unfolding get save
get-save jobs j id h = lookup-insert j.job.job_id id j jobs

abbrev pub memory_store : JobStore Jobs
memory_store = record {
  create = create;
  get = get;
  save = save;
  create-absent = create-absent;
  get-create = get-create;
  create-present = create-present;
  get-save = get-save;
}

-- `RecordingEventPublisher`: it fails always or never.
pub record Recorder : Type 0 where
  pub events : List Event
  pub fails : Bool

unfoldable pub publish : Recorder → Event → Bool × Recorder
publish r e = if r.fails then (false, r) else (true, record r { events = r.events ++ e ∷ [] })

abbrev pub recorder : EventPublisher Recorder
recorder = record { publish = publish }

-- What a Redis client documents of `SET key value NX`, `SET key value XX` and `GET`, over the texts
-- that it holds.
pub record RedisClient (C : Type 0) : Type 0 where
  pub set_nx : C → String → StoredModerationJob → Bool × C
  pub set_xx : C → String → StoredModerationJob → C
  pub get : C → String → Option StoredModerationJob
  pub nx_lem :
      (c : C) (k : String) (v : StoredModerationJob) → (set_nx c k v).0 ≡ not (is_some (get c k))
  pub get-nx :
      (c : C) (k j : String) (v : StoredModerationJob)
      → get (set_nx c k v).1 j
        ≡ (if str_eq k j then (elim (get c k) [ none ↦ some v | some old ↦ some old ]) else get c j)
  pub nx_present :
      (c : C) (k : String) (v : StoredModerationJob)
      → is_some (get c k) ≡ true
      → (set_nx c k v).1 ≡ c
  pub get-xx :
      (c : C) (k j : String) (v : StoredModerationJob)
      → is_some (get c k) ≡ true
      → get (set_xx c k v) j ≡ (if str_eq k j then some v else get c j)

-- f"sentinel:moderation:job:{job_id}"
abbrev key : String → String
key job_id = str_append "sentinel:moderation:job:" job_id

key-injective : (a b : String) → str_eq (key a) (key b) ≡ str_eq a b
key-injective a b = elim (Bool-cases (str_eq a b)) [
  | inl same ↦ (eq_iff (key a) (key b)).1 (ap key ((eq_iff a b).0 same)) ∙ sym same
  | inr other ↦ elim (Bool-cases (str_eq (key a) (key b))) [
    | inr different ↦ different ∙ sym other
    | inl e ↦ absurd (
        false≢true (
          sym other
          ∙ (eq_iff a b).1
              (append_cancel_left "sentinel:moderation:job:" a b ((eq_iff (key a) (key b)).0 e))))
  ]
]

module _ {C : Type 0} (client : RedisClient C) where
  -- `RedisJobStore.create`, `get` and `save`; the time to live is the client's matter.
  unfoldable pub redis_create : C → StoredModerationJob → Bool × C
  redis_create c j = client.set_nx c (key j.job.job_id) j

  unfoldable pub redis_get : C → String → Option StoredModerationJob
  redis_get c job_id = client.get c (key job_id)

  unfoldable pub redis_save : C → StoredModerationJob → C
  redis_save c j = client.set_xx c (key j.job.job_id) j

  -- A job store over Redis keeps the contract of `JobStore`.
  pub redis_store : JobStore C
  unfolding redis_create redis_get redis_save
  redis_store = record {
    create = redis_create;
    get = redis_get;
    save = redis_save;
    create-absent = λ c j. client.nx_lem c (key j.job.job_id) j;
    get-create = λ c j id.
        rw (← key-injective j.job.job_id id) (client.get-nx c (key j.job.job_id) (key id) j);
    create-present = λ c j h. client.nx_present c (key j.job.job_id) j h;
    get-save = λ c j id h.
        rw (← key-injective j.job.job_id id) (client.get-xx c (key j.job.job_id) (key id) j h);
  }

-- What a Kafka producer reports of one `produce` and `flush`: a delivery error, and the number of
-- events that are still not acknowledged.
pub record Delivery : Type 0 where
  pub failed : Bool
  pub remaining : ℕ

-- `KafkaEventPublisher.publish` raises on an error and on a missing acknowledgement.
unfoldable pub kafka_publish : {C : Type 0} → (C → Event → Delivery × C) → C → Event → Bool × C
kafka_publish produce c e = let (d, c') = produce c e in (not d.failed && d.remaining == 0, c')
