-- ===== src/Accounts/Metadata.antt =====
-- A merge patch: keys with a value are set, keys with null are removed, and the others stay.
use capital_os.Base.{
  ◌≡◌, refl, ap, ◌∙◌, inl, inr, true, false, Option, none, some, arith, Bool-cases, find,
  find-update, find-true, if◌then◌else◌,
}
use capital_os.Text.{Text, text_eq}
use capital_os.Json.{
  Json, null, bool, number, string, array, object, Members, no_member, member, get,
}
use capital_os.Store.{Database, Env, Account, MetadataPayload}
use capital_os.Store.Keeps.{Returns, Returns-transaction}
use capital_os.EventLog.{log_event}
use capital_os.Query.Order.{text_order, text_order-OrderLaws}
use capital_os.Accounts.{
  pop, set, patch_entry, merge_patch, has_account_id, write_metadata, metadata_block,
  update_account_metadata,
}

-- The value of a key after a patch that has the first value, where it had the second.
abbrev pub patched : Option Json → Option Json → Option Json
patched none before = before
patched (some null) before = none
patched (some v) before = some v

-- No key of the dict comes again in it.
abbrev pub OnceEach : Members → Type 0
OnceEach no_member = Unit
OnceEach (member key v rest) = (get key rest ≡ none) × OnceEach rest

same_text : (a b : Text) → text_eq a b ≡ true → a ≡ b
unfolding text_order
same_text a b h = text_order-OrderLaws.eq_sound a b h

text_eq_same : (a : Text) → text_eq a a ≡ true
unfolding text_order
text_eq_same a = text_order-OrderLaws.eq_refl a

get-pop : (key : Text) (m : Members) → get key (pop key m) ≡ none
unfolding get pop
get-pop key no_member = refl
get-pop key (member k v rest) = ground (arith, get-pop key rest)

get-pop_other :
    (key other : Text) (m : Members)
    → text_eq key other ≡ false
    → get other (pop key m) ≡ get other m
unfolding get pop
get-pop_other key other no_member h = refl
get-pop_other key other (member k v rest) h =
    let rest_same = get-pop_other key other rest h in
    elim (Bool-cases (text_eq k key)) [
      | inl e ↦
          let differs : text_eq k other ≡ false = rw (same_text k key e) h in
          rw (get, e, differs) rest_same
      | inr e ↦
          rw (get, e) (ap (λ (o : Option Json). if text_eq k other then some v else o) rest_same)
    ]

get-set : (key : Text) (v : Json) (m : Members) → get key (set key v m) ≡ some v
unfolding get set
get-set key v no_member = rw (text_eq_same key) refl
get-set key v (member k w rest) = ground (arith, get-set key v rest)

get-set_other :
    (key other : Text) (v : Json) (m : Members)
    → text_eq key other ≡ false
    → get other (set key v m) ≡ get other m
unfolding get set
get-set_other key other v no_member h = rw h refl
get-set_other key other v (member k w rest) h =
    let rest_same = get-set_other key other v rest h in
    elim (Bool-cases (text_eq k key)) [
      | inl e ↦
          let differs : text_eq k other ≡ false = rw (same_text k key e) h in
          rw (get, e, differs) refl
      | inr e ↦
          rw (get, e) (ap (λ (o : Option Json). if text_eq k other then some w else o) rest_same)
    ]

get-patch_entry :
    (key : Text) (v : Json) (m : Members)
    → get key (patch_entry key v m) ≡ patched (some v) (get key m)
unfolding patch_entry
get-patch_entry key null m = get-pop key m
get-patch_entry key (bool b) m = get-set key (bool b) m
get-patch_entry key (number n) m = get-set key (number n) m
get-patch_entry key (string t) m = get-set key (string t) m
get-patch_entry key (array vs) m = get-set key (array vs) m
get-patch_entry key (object ms) m = get-set key (object ms) m

get-patch_entry_other :
    (key other : Text) (v : Json) (m : Members)
    → text_eq key other ≡ false
    → get other (patch_entry key v m) ≡ get other m
unfolding patch_entry
get-patch_entry_other key other null m h = get-pop_other key other m h
get-patch_entry_other key other (bool b) m h = get-set_other key other (bool b) m h
get-patch_entry_other key other (number n) m h = get-set_other key other (number n) m h
get-patch_entry_other key other (string t) m h = get-set_other key other (string t) m h
get-patch_entry_other key other (array vs) m h = get-set_other key other (array vs) m h
get-patch_entry_other key other (object ms) m h = get-set_other key other (object ms) m h

get-merge_patch :
    (patch current : Members) (key : Text)
    → OnceEach patch
    → get key (merge_patch patch current) ≡ patched (get key patch) (get key current)
unfolding get merge_patch
get-merge_patch no_member current key once = refl
get-merge_patch (member k v rest) current key once =
    let later = get-merge_patch rest (patch_entry k v current) key once.1 in
    elim (Bool-cases (text_eq k key)) [
      | inl e ↦
          let same = same_text k key e in
          let last : get key rest ≡ none = rw (← same) once.0 in
          let here : get key (patch_entry k v current) ≡ patched (some v) (get key current) =
            rw (← same) (get-patch_entry k v current) in
          later
          ∙ ap (λ o. patched o (get key (patch_entry k v current))) last
          ∙ here
          ∙ rw (get, e) refl
      | inr e ↦
          later
          ∙ ap (patched (get key rest)) (get-patch_entry_other k key v current e)
          ∙ rw (get, e) refl
    ]

-- Patching the metadata of an account that is there returns. Then, for every key, the stored account
-- and the response have the value of the patch, no value where it is null, and the value from before
-- where the patch does not have the key; nothing else of the account changes.
pub update_account_metadata-patched :
    (env : Env) (payload : MetadataPayload) (row : Account) (db : Database) (key : Text)
    → OnceEach payload.metadata
    → find (has_account_id payload.account_id) db.accounts ≡ some row
    → Returns
        (λ r d.
          (get key r.metadata ≡ patched (get key payload.metadata) (get key row.metadata))
          × (find (has_account_id payload.account_id) d.accounts
              ≡ some (record row { metadata = r.metadata })))
        (update_account_metadata env payload db)
unfolding update_account_metadata metadata_block write_metadata log_event
update_account_metadata-patched env payload row db key once found = Returns-transaction _ _ db (
    rw found (
      get-merge_patch payload.metadata row.metadata key once,
      find-update (has_account_id payload.account_id) (has_account_id payload.account_id) _
          db.accounts row (λ a. refl) found
          (find-true (has_account_id payload.account_id) db.accounts row found),
    ))
