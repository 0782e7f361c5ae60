-- ===== src/Fixtures.antt =====
-- A database of two accounts and one proposal, and payloads for it.
use capital_os.Base.{String, none, some, false, List, [], ◌∷◌}
use capital_os.Int.{ℤ, pos, negsuc}
use capital_os.Money.{Posting}
use capital_os.Json.{no_member}
use capital_os.Store.{
  Account, BundlePayload, ApprovalPayload, PeriodPayload, Database, Env, Proposal, Request,
  proposed,
}

abbrev pub env : Env
env = record {
  payload_hash = λ _. "hash";
  now = "2026-01-31T00:00:00Z";
  approval_threshold_amount = record { coef = pos 1000; places = 0 };
  context = none;
}

abbrev pub posting : String → ℤ → Posting
posting account amount = record {
  account_id = account;
  amount = record { coef = amount; places = 2 };
  currency = "USD";
  memo = none;
}

abbrev pub bundle : String → List Posting → BundlePayload
bundle key postings = record {
  source_system = "bank";
  external_id = key;
  date = record { date = record { year = 2026; month = 1; day = 15 }; second = 0 };
  description = "rent";
  postings = postings;
  entity_id = none;
  transaction_category = none;
  risk_band = none;
  is_adjusting_entry = false;
  adjusting_reason_code = none;
  override_period_lock = false;
  correlation_id = "c1";
}

-- 25.00 from one account to the other
abbrev pub rent : BundlePayload
rent = bundle "t1" (posting "cash" (negsuc 2499) ∷ posting "home" (pos 2500) ∷ [])

-- an account that is not there
abbrev pub astray : BundlePayload
astray = bundle "t2" (posting "cash" (negsuc 2499) ∷ posting "car" (pos 2500) ∷ [])

abbrev account : String → Account
account key = record {
  account_id = key;
  code = key;
  name = key;
  account_type = "asset";
  parent_account_id = none;
  metadata = no_member;
  entity_id = "entity-default";
}

-- the rent, which waits for one approval
abbrev pub waiting : Proposal
waiting = record {
  proposal_id = 7;
  tool_name = "record_transaction_bundle";
  source_system = "bank";
  external_id = "t1";
  correlation_id = "c0";
  input_hash = "hash";
  policy_threshold_amount = pos 100000;
  impact_amount = pos 250000;
  request_payload = Request.bundle rent;
  status = proposed;
  entity_id = "entity-default";
  matched_rule_id = none;
  required_approvals = 1;
  decision_reason = none;
  approved_transaction_id = none;
  response_payload = none;
  output_hash = none;
}

abbrev pub empty_books : Database
empty_books = record {
  entities = "entity-default" ∷ [];
  accounts = account "cash" ∷ account "home" ∷ [];
  transactions = [];
  postings = [];
  proposals = [];
  decisions = [];
  periods = [];
  rules = [];
  snapshots = [];
  obligations = [];
  event_log = [];
  next_id = 100;
}

abbrev pub waiting_books : Database
waiting_books = record empty_books { proposals = waiting ∷ [] }

abbrev pub approval : ApprovalPayload
approval = record {
  proposal_id = 7;
  approver_id = some "ann";
  reason = none;
  correlation_id = "c2";
}

abbrev pub lock_january : PeriodPayload
lock_january = record {
  period_key = (2026, 1);
  entity_id = none;
  actor_id = some "ann";
  correlation_id = "c3";
}
