-- ===== src/Jobs/Contracts.antt =====
-- jobs/contracts.py: what the API, the queue and the worker exchange.
use agentic_alpha_engine.Prelude.{
  ℕ, String, ◌≡◌, refl, Bool, true, false, Option, none, some, ◌&&◌, arith, if◌then◌else◌,
}
use agentic_alpha_engine.Effects.{Result, ok, err, value_error}

-- An instant in UTC.
abbrev pub Time : Type 0
Time = ℕ

-- What the jobs take from Python's runtime and its library: the JSON payloads and their sha256, the
-- queue's message encoding, floats, `str.strip`, the formatting of a float and of an exception, and
-- the clock by the number of its reading.
pub record Platform : Type 1 where
  pub Payload : Type 0
  pub empty_payload : Payload
  pub sha256_of : Payload → String
  pub encode : String → String → Payload → Result String
  pub decode : String → Result (String × String × Payload)
  pub Float : Type 0
  pub float_le : Float → Float → Bool
  pub zero_float : Float
  pub one_float : Float
  pub zero-le-zero : float_le zero_float zero_float ≡ true
  pub zero-le-one : float_le zero_float one_float ≡ true
  pub one-le-one : float_le one_float one_float ≡ true
  pub fixed_12 : Float → String
  pub is_blank : String → Bool
  pub describe : String → String → String
  pub clock : ℕ → Time

-- A `datetime` as a caller may give it, without a zone or with one (then by its instant).
pub data DateTime : Type 0 where
  naive : Time → DateTime
  aware : Time → DateTime

-- `_ensure_utc`: a naive value is taken as UTC.
unfoldable pub ensure_utc : DateTime → Time
ensure_utc (naive t) = t
ensure_utc (aware t) = t

-- `CANCELLED` is an alias of `CANCELED`, with the same value.
pub data JobStatus : Type 0 where
  queued running succeeded failed canceled : JobStatus

pub data JobEventType : Type 0 where
  queued started progress completed failed canceled recovered : JobEventType

-- the enum's value, which is also its text
unfoldable pub status_value : JobStatus → String
status_value JobStatus.queued = "queued"
status_value JobStatus.running = "running"
status_value JobStatus.succeeded = "succeeded"
status_value JobStatus.failed = "failed"
status_value JobStatus.canceled = "cancelled"

abbrev pub status_eqb : JobStatus → JobStatus → Bool
status_eqb JobStatus.queued JobStatus.queued = true
status_eqb JobStatus.running JobStatus.running = true
status_eqb JobStatus.succeeded JobStatus.succeeded = true
status_eqb JobStatus.failed JobStatus.failed = true
status_eqb JobStatus.canceled JobStatus.canceled = true
status_eqb _ _ = false

-- `status in _TERMINAL`
abbrev pub is_terminal : JobStatus → Bool
is_terminal JobStatus.queued = false
is_terminal JobStatus.running = false
is_terminal _ = true

pub status_eqb→eq : (a b : JobStatus) → status_eqb a b ≡ true → a ≡ b
status_eqb→eq JobStatus.queued JobStatus.queued h = refl
status_eqb→eq JobStatus.running JobStatus.running h = refl
status_eqb→eq JobStatus.succeeded JobStatus.succeeded h = refl
status_eqb→eq JobStatus.failed JobStatus.failed h = refl
status_eqb→eq JobStatus.canceled JobStatus.canceled h = refl
status_eqb→eq a b h = ground arith

pub status_eqb_self : (a : JobStatus) → status_eqb a a ≡ true
status_eqb_self a = ground arith

module _ (w : Platform) where
  pub record JobRequest : Type 0 where
    pub kind : String
    pub payload : w.Payload
    pub idempotency_key : String
    pub job_id : String

  pub record JobReceipt : Type 0 where
    pub id : String
    pub kind : String
    pub status : JobStatus
    pub idempotency_key : String
    pub payload_digest : String
    pub created_at : Time
    pub started_at : Option Time
    pub finished_at : Option Time
    pub progress : w.Float
    pub message : Option String
    pub cancel_requested : Bool

  pub record JobEvent : Type 0 where
    pub job_id : String
    pub event_type : JobEventType
    pub event_key : String
    pub created_at : Time
    pub progress : Option w.Float
    pub message : Option String
    pub metadata : w.Payload

  -- `JobRequest.__post_init__`
  unfoldable pub make_request : String → w.Payload → String → String → Result JobRequest
  make_request kind payload idempotency_key job_id =
      if w.is_blank kind
      then err (value_error "job kind must not be empty")
      else if w.is_blank idempotency_key
      then err (value_error "idempotency_key must not be empty")
      else ok (record {
        kind = kind;
        payload = payload;
        idempotency_key = idempotency_key;
        job_id = job_id;
      })

  -- `JobRequest.payload_digest`
  unfoldable pub payload_digest : JobRequest → String
  payload_digest request = w.sha256_of request.payload

  -- `0.0 <= p <= 1.0`
  unfoldable pub in_unit : w.Float → Bool
  in_unit p = w.float_le w.zero_float p && w.float_le p w.one_float

  -- `JobReceipt.__post_init__`
  unfoldable pub check_receipt : JobReceipt → Result JobReceipt
  unfolding in_unit
  check_receipt receipt =
      if in_unit receipt.progress
      then ok receipt
      else err (value_error "job progress must be between 0 and 1")

  -- `JobEvent.__post_init__`
  unfoldable pub check_event : JobEvent → Result JobEvent
  unfolding in_unit
  check_event event = elim event.progress [
    | none ↦ ok event
    | some p ↦
        if in_unit p then ok event else err (value_error "event progress must be between 0 and 1")
  ]
