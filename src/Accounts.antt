-- ===== src/Accounts.antt =====
-- src/capital_os/domain/accounts/service.py: creating an account and patching its metadata, with
-- `create_account` of src/capital_os/domain/ledger/repository.py. A stored dict is kept as it is:
-- the order of its keys means nothing.
pub mod Metadata
pub mod Chart
use capital_os.Base.{
  ℕ, String, str_eq, Bool, true, false, ◌||◌, not, Option, none, some, [], ◌∷◌, ◌++◌, any, find,
  update, if◌then◌else◌,
}
use capital_os.Exec.{Error}
use capital_os.Text.{Text, text_eq}
use capital_os.Json.{Json, null, Members, no_member, member}
use capital_os.Store.{
  Database, Env, Account, AccountPayload, AccountResponse, MetadataPayload, MetadataResponse,
  Hashed, committed, default_entity_id,
}
use capital_os.Store.Action.{
  Action, pure, raise, raise_if, gets, modify, fresh_id, transaction, on_integrity_error,
  match_option, ◌>>=◌, ◌>>◌,
}
use capital_os.Ledger.Repository.{entity_exists, account_exists}
use capital_os.EventLog.{log_event, ok_event}

abbrev is_account_type : String → Bool
is_account_type t =
    str_eq t "asset"
    || (str_eq t "liability" || (str_eq t "equity" || (str_eq t "income" || str_eq t "expense")))

-- the parent of an account is an account
abbrev pub parent_exists : Option String → Database → Bool
parent_exists none db = true
parent_exists (some p) db = account_exists p db

-- what the table asks of a row
unfoldable pub check_account : String → AccountPayload → Action (Unit {0})
check_account account_id payload = do
  raise_if (not (is_account_type payload.account_type)) (Error.integrity "CHECK constraint failed")
  taken ← gets (account_exists account_id)
  raise_if taken (Error.integrity "UNIQUE constraint failed: accounts.account_id")
  used ← gets (λ db. any (λ a. str_eq a.code payload.code) db.accounts)
  raise_if used (Error.integrity "UNIQUE constraint failed: accounts.code")
  parent ← gets (parent_exists payload.parent_account_id)
  raise_if (not parent) (Error.integrity "FOREIGN KEY constraint failed")
  known ← gets (entity_exists payload.entity_id)
  raise_if (not known) (Error.integrity "FOREIGN KEY constraint failed")

unfoldable pub add_account : String → AccountPayload → Action (Unit {0})
add_account account_id payload = modify (λ db. record db {
  accounts =
      db.accounts
      ++ record {
        account_id = account_id;
        code = payload.code;
        name = payload.name;
        account_type = payload.account_type;
        parent_account_id = payload.parent_account_id;
        metadata = payload.metadata;
        entity_id = payload.entity_id;
      }
        ∷ [];
})

unfoldable pub insert_account : String → AccountPayload → Action (Unit {0})
insert_account account_id payload = do
  check_account account_id payload
  add_account account_id payload

-- `except sqlite3.IntegrityError as exc:`
unfoldable pub account_error : Error → Action AccountResponse
account_error (Error.integrity message) = raise (
    Error.value (
      if str_eq message "UNIQUE constraint failed: accounts.code"
      then "account code already exists"
      else message))
account_error other = raise other

-- `current.pop(key, None)`
unfoldable pub pop : Text → Members → Members
pop key no_member = no_member
pop key (member k v rest) =
    let less = pop key rest in if text_eq k key then less else member k v less

-- `current[key] = value`
unfoldable pub set : Text → Json → Members → Members
set key v no_member = member key v no_member
set key v (member k w rest) =
    let more = set key v rest in if text_eq k key then member k v rest else member k w more

-- one entry of a merge patch
unfoldable pub patch_entry : Text → Json → Members → Members
patch_entry key null current = pop key current
patch_entry key v current = set key v current

-- `for key, value in patch.items():`
unfoldable pub merge_patch : Members → Members → Members
merge_patch no_member current = current
merge_patch (member key v rest) current = merge_patch rest (patch_entry key v current)

abbrev pub has_account_id : String → Account → Bool
has_account_id account_id a = str_eq a.account_id account_id

module _ (env : Env) (uuid : ℕ → String) where
  unfoldable pub report_account : AccountPayload → String → Action AccountResponse
  report_account payload account_id = do
    let body : AccountResponse = record {
      account_id = account_id;
      status = committed;
      correlation_id = payload.correlation_id;
      output_hash = none;
    }
    let output_hash = env.payload_hash (Hashed.account_response body)
    log_event env (
        ok_event "create_account" payload.correlation_id (env.payload_hash (Hashed.account payload))
          output_hash)
    pure (record body { output_hash = some output_hash })

  -- `create_account` of the repository
  unfoldable pub create_account : AccountPayload → Action String
  create_account payload = do n ← fresh_id; insert_account (uuid n) payload; pure (uuid n)

  unfoldable pub create_block : AccountPayload → Action AccountResponse
  create_block payload = do
    parent ← gets (parent_exists payload.parent_account_id)
    raise_if (not parent) (Error.value "parent_account_id does not exist")
    known ← gets (entity_exists payload.entity_id)
    raise_if (if str_eq payload.entity_id default_entity_id then false else not known)
        (Error.value "entity_id does not exist")
    account_id ← create_account payload
    report_account payload account_id

  unfoldable pub create_account_entry : AccountPayload → Action AccountResponse
  create_account_entry payload =
      on_integrity_error (transaction (create_block payload)) account_error

module _ (env : Env) where
  unfoldable pub write_metadata : MetadataPayload → Account → Action MetadataResponse
  write_metadata payload row = do
    let current = merge_patch payload.metadata row.metadata
    modify (λ db. record db {
      accounts =
          update (has_account_id payload.account_id) (λ a. record a { metadata = current })
            db.accounts;
    })
    let body : MetadataResponse = record {
      account_id = payload.account_id;
      metadata = current;
      status = committed;
      correlation_id = payload.correlation_id;
      output_hash = none;
    }
    let output_hash = env.payload_hash (Hashed.metadata_response body)
    log_event env (
        ok_event "update_account_metadata" payload.correlation_id
          (env.payload_hash (Hashed.metadata payload)) output_hash)
    pure (record body { output_hash = some output_hash })

  unfoldable pub metadata_block : MetadataPayload → Action MetadataResponse
  metadata_block payload = do
    row ← gets (λ db. find (has_account_id payload.account_id) db.accounts)
    match_option row (raise (Error.value "account_id does not exist")) (write_metadata payload)

  unfoldable pub update_account_metadata : MetadataPayload → Action MetadataResponse
  update_account_metadata payload = transaction (metadata_block payload)
