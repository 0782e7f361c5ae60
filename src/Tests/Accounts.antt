-- ===== src/Tests/Accounts.antt =====
-- The theorems on accounts at concrete inputs.
use capital_os.Base.{◌≡◌, ◌≢◌, refl, String, str_eq, eq_iff, false, none, some, [], ◌∷◌, find}
use capital_os.Text.{codes}
use capital_os.Json.{null, string, no_member, member, get}
use capital_os.Store.{Database, Account, AccountPayload, MetadataPayload}
use capital_os.Store.Keeps.{Returns}
use capital_os.Accounts.{has_account_id, create_account_entry, update_account_metadata}
use capital_os.Accounts.Metadata.{patched, update_account_metadata-patched}
use capital_os.Accounts.Chart.{IsChart, create_account_entry-IsChart}
use capital_os.Fixtures.{env, empty_books}

two_texts : (a b : String) → str_eq a b ≡ false → a ≢ b
two_texts a b h e = let same = (eq_iff a b).1 e in cc

abbrev savings : AccountPayload
savings = record {
  code = "savings";
  name = "Savings";
  account_type = "asset";
  parent_account_id = some "cash";
  entity_id = "entity-default";
  metadata = no_member;
  correlation_id = "c";
}

create_account_entry-IsChart_example :
    IsChart (create_account_entry env (λ _. "new") savings empty_books).1.accounts
create_account_entry-IsChart_example =
    create_account_entry-IsChart env (λ _. "new") savings empty_books
      (record {
        codes = ((two_texts "cash" "home" refl, tt), (tt, tt));
        keys = ((two_texts "cash" "home" refl, tt), (tt, tt));
        parents = (refl, (refl, tt));
      })

abbrev wallet : Account
wallet = record {
  account_id = "wallet";
  code = "wallet";
  name = "Wallet";
  account_type = "asset";
  parent_account_id = none;
  metadata = member (codes "bank") (string (codes "first")) no_member;
  entity_id = "entity-default";
}

abbrev one_account : Database
one_account = record empty_books { accounts = wallet ∷ [] }

-- removes the bank
abbrev patch : MetadataPayload
patch = record {
  account_id = "wallet";
  metadata = member (codes "bank") null no_member;
  correlation_id = "c";
}

update_account_metadata-patched_example :
    Returns
      (λ r d.
        (get (codes "bank") r.metadata
          ≡ patched (get (codes "bank") patch.metadata) (get (codes "bank") wallet.metadata))
        × (find (has_account_id "wallet") d.accounts
            ≡ some (record wallet { metadata = r.metadata })))
      (update_account_metadata env patch one_account)
unfolding get
update_account_metadata-patched_example =
    update_account_metadata-patched env patch wallet one_account (codes "bank") (refl, tt) refl
