-- ===== src/Store.antt =====
-- The tables of migrations/*.sql that the handlers read and write, one record for a row, and the
-- payloads and responses that are stored in them. A key made by `uuid4()` is a number that no row
-- has yet: `next_id` counts them. Timestamps that only the database writes are left out.
pub mod Action
pub mod Keeps
pub mod Steady
pub mod Atomic
use capital_os.Base.{ℕ, String, Bool, Option, List}
use capital_os.Int.{ℤ}
use capital_os.Money.{Decimal, Posting}
use capital_os.Calendar.{Date, Instant}
use capital_os.Json.{Members}

abbrev pub default_entity_id : String
default_entity_id = "entity-default"

pub record Account : Type 0 where
  pub account_id : String
  pub code : String
  pub name : String
  pub account_type : String
  pub parent_account_id : Option String
  pub metadata : Members
  pub entity_id : String

-- RecordTransactionBundleIn, as `record_transaction_bundle` gets it
pub record BundlePayload : Type 0 where
  pub source_system : String
  pub external_id : String
  pub date : Instant
  pub description : String
  pub postings : List Posting
  pub entity_id : Option String
  pub transaction_category : Option String
  pub risk_band : Option String
  pub is_adjusting_entry : Bool
  pub adjusting_reason_code : Option String
  pub override_period_lock : Bool
  pub correlation_id : String

pub record PostingRow : Type 0 where
  pub posting_id : ℕ
  pub transaction_id : ℕ
  pub account_id : String
  pub amount : ℤ
  pub currency : String
  pub memo : Option String

-- a posting of `proposed_transaction` in a response
pub record ProposedPosting : Type 0 where
  pub account_id : String
  pub amount : ℤ
  pub currency : String
  pub memo : Option String

pub record ProposedTransaction : Type 0 where
  pub source_system : String
  pub external_id : String
  pub date : Instant
  pub description : String
  pub entity_id : String
  pub postings : List ProposedPosting

pub record MatchedTransaction : Type 0 where
  pub transaction_id : ℕ
  pub source_system : String
  pub external_id : String
  pub date : Instant
  pub description : String
  pub correlation_id : String
  pub entity_id : String
  pub postings : List PostingRow

pub record DuplicateContext : Type 0 where
  pub proposed_transaction : ProposedTransaction
  pub matched_transactions : List MatchedTransaction

pub data Status : Type 0 where
  committed idempotent_replay proposed rejected : Status

-- A response is a dict: a key that it lacks is `none`, and a list that it lacks is empty.
pub record Response : Type 0 where
  pub status : Status
  pub transaction_id : Option ℕ
  pub posting_ids : List ℕ
  pub proposal_id : Option ℕ
  pub approval_threshold_amount : Option ℤ
  pub impact_amount : Option ℤ
  pub matched_rule_id : Option String
  pub required_approvals : Option ℕ
  pub approvals_received : Option ℕ
  pub duplicate_context : Option DuplicateContext
  pub reason : Option String
  pub correlation_id : String
  pub output_hash : Option String

pub record TransactionRow : Type 0 where
  pub transaction_id : ℕ
  pub source_system : String
  pub external_id : String
  pub transaction_date : Instant
  pub description : String
  pub correlation_id : String
  pub input_hash : String
  pub entity_id : String
  pub is_adjusting_entry : Bool
  pub adjusting_reason_code : Option String
  pub response_payload : Option Response
  pub output_hash : Option String

-- the request of a proposal: a bundle, or the payload of another tool
pub data Request : Type 0 where
  bundle : BundlePayload → Request
  other : Request

pub record Proposal : Type 0 where
  pub proposal_id : ℕ
  pub tool_name : String
  pub source_system : String
  pub external_id : String
  pub correlation_id : String
  pub input_hash : String
  pub policy_threshold_amount : ℤ
  pub impact_amount : ℤ
  pub request_payload : Request
  pub status : Status
  pub entity_id : String
  pub matched_rule_id : Option String
  pub required_approvals : ℕ
  pub decision_reason : Option String
  pub approved_transaction_id : Option ℕ
  pub response_payload : Option Response
  pub output_hash : Option String

pub data Decided : Type 0 where
  approve reject : Decided

pub record Decision : Type 0 where
  pub decision_id : ℕ
  pub proposal_id : ℕ
  pub action : Decided
  pub correlation_id : String
  pub reason : Option String
  pub approver_id : Option String

pub record Snapshot : Type 0 where
  pub snapshot_id : ℕ
  pub source_system : String
  pub account_id : String
  pub snapshot_date : Date
  pub balance : ℤ
  pub currency : String
  pub source_artifact_id : Option String
  pub entity_id : String

pub record Obligation : Type 0 where
  pub obligation_id : ℕ
  pub source_system : String
  pub name : String
  pub account_id : String
  pub cadence : String
  pub expected_amount : ℤ
  pub variability_flag : Bool
  pub next_due_date : Date
  pub metadata : Members
  pub active : Bool
  pub entity_id : String
  pub fulfilled_by_transaction_id : Option String
  pub fulfilled_at : Option String

pub data PeriodStatus : Type 0 where
  opened closed locked : PeriodStatus

pub record Period : Type 0 where
  pub period_id : ℕ
  pub period_key : ℕ × ℕ
  pub entity_id : String
  pub status : PeriodStatus
  pub actor_id : Option String
  pub correlation_id : String
  pub closed_at : Option String
  pub locked_at : Option String

pub record RuleRow : Type 0 where
  pub rule_id : String
  pub priority : ℤ
  pub tool_name : Option String
  pub entity_id : Option String
  pub transaction_category : Option String
  pub risk_band : Option String
  pub velocity_limit_count : Option ℕ
  pub velocity_window_seconds : Option ℕ
  pub threshold_amount : Decimal
  pub required_approvals : ℕ
  pub active : Bool

pub record Event : Type 0 where
  pub event_id : ℕ
  pub tool_name : String
  pub correlation_id : String
  pub input_hash : String
  pub output_hash : String
  pub status : String
  pub error_code : Option String
  pub actor_id : Option String
  pub authn_method : Option String
  pub authorization_result : Option String

pub record Database : Type 0 where
  pub entities : List String
  pub accounts : List Account
  pub transactions : List TransactionRow
  pub postings : List PostingRow
  pub proposals : List Proposal
  pub decisions : List Decision
  pub periods : List Period
  pub rules : List RuleRow
  pub snapshots : List Snapshot
  pub obligations : List Obligation
  pub event_log : List Event
  pub next_id : ℕ

-- What is hashed: the payloads and the responses, by the handler that hashes them.
pub record ApprovalPayload : Type 0 where
  pub proposal_id : ℕ
  pub approver_id : Option String
  pub reason : Option String
  pub correlation_id : String

pub record PeriodPayload : Type 0 where
  pub period_key : ℕ × ℕ
  pub entity_id : Option String
  pub actor_id : Option String
  pub correlation_id : String

pub record PeriodResponse : Type 0 where
  pub status : String
  pub period_key : ℕ × ℕ
  pub entity_id : String
  pub state : PeriodStatus
  pub closed_at : Option String
  pub locked_at : Option String
  pub correlation_id : String
  pub output_hash : Option String

pub record SnapshotPayload : Type 0 where
  pub source_system : String
  pub account_id : String
  pub snapshot_date : Date
  pub balance : Decimal
  pub currency : String
  pub source_artifact_id : Option String
  pub entity_id : String
  pub correlation_id : String

pub record SnapshotResponse : Type 0 where
  pub status : String
  pub snapshot_id : ℕ
  pub account_id : String
  pub snapshot_date : Date
  pub correlation_id : String
  pub output_hash : Option String

pub record ObligationPayload : Type 0 where
  pub source_system : String
  pub name : String
  pub account_id : String
  pub cadence : String
  pub expected_amount : Decimal
  pub variability_flag : Bool
  pub next_due_date : Date
  pub metadata : Members
  pub active : Bool
  pub entity_id : String
  pub correlation_id : String

pub record ObligationResponse : Type 0 where
  pub status : String
  pub obligation_id : ℕ
  pub active : Bool
  pub correlation_id : String
  pub output_hash : Option String

-- `fulfilled_at` as the text of its ISO form
pub record FulfillPayload : Type 0 where
  pub obligation_id : ℕ
  pub fulfilled_by_transaction_id : Option String
  pub fulfilled_at : Option String
  pub correlation_id : String

pub record FulfillResponse : Type 0 where
  pub status : String
  pub obligation_id : ℕ
  pub fulfilled_by_transaction_id : Option String
  pub fulfilled_at : Option String
  pub correlation_id : String
  pub output_hash : Option String

pub record AccountPayload : Type 0 where
  pub code : String
  pub name : String
  pub account_type : String
  pub parent_account_id : Option String
  pub entity_id : String
  pub metadata : Members
  pub correlation_id : String

pub record AccountResponse : Type 0 where
  pub account_id : String
  pub status : Status
  pub correlation_id : String
  pub output_hash : Option String

pub record MetadataPayload : Type 0 where
  pub account_id : String
  pub metadata : Members
  pub correlation_id : String

pub record MetadataResponse : Type 0 where
  pub account_id : String
  pub metadata : Members
  pub status : Status
  pub correlation_id : String
  pub output_hash : Option String

pub data Hashed : Type 0 where
  bundle : BundlePayload → Hashed
  approval : ApprovalPayload → Hashed
  period : PeriodPayload → Hashed
  response : Response → Hashed
  period_response : PeriodResponse → Hashed
  snapshot : SnapshotPayload → Hashed
  snapshot_response : SnapshotResponse → Hashed
  obligation : ObligationPayload → Hashed
  obligation_response : ObligationResponse → Hashed
  fulfill : FulfillPayload → Hashed
  fulfill_response : FulfillResponse → Hashed
  account : AccountPayload → Hashed
  account_response : AccountResponse → Hashed
  metadata : MetadataPayload → Hashed
  metadata_response : MetadataResponse → Hashed
  json : Members → Hashed

pub record SecurityContext : Type 0 where
  pub actor_id : String
  pub authn_method : String
  pub authorization_result : String

-- What a handler takes from outside: the hash of a canonical payload, the clock, the configured
-- approval threshold, and the security context of the request.
pub record Env : Type 0 where
  pub payload_hash : Hashed → String
  pub now : String
  pub approval_threshold_amount : Decimal
  pub context : Option SecurityContext
