-- ===== src/Ledger/Statements/Lookup.antt =====
-- Looking a snapshot up by its account and date, after an insertion and after an update.
use capital_os.Base.{
  ◌≡◌, ◌≢◌, refl, ap, ◌∙◌, inl, inr, ◌⊎◌, String, str_eq, eq_iff, Bool, true, false, ◌&&◌, Option,
  none, some, List, [], ◌∷◌, ◌++◌, ◌==◌, arith, find, update, Distinct, find-true, find-update,
  find-update_other, find-append_none, find-append_other, find-Distinct, All-map, eqb_refl,
  if◌then◌else◌, Bool-cases,
}
use capital_os.Int.{ℤ}
use capital_os.Calendar.{Date, same_date}
use capital_os.Store.{Snapshot, SnapshotPayload}
use capital_os.Ledger.Snapshots.{is_snapshot_of}

-- the balance of the first row that a query finds
abbrev pub balance_of : Option Snapshot → Option ℤ
balance_of none = none
balance_of (some s) = some s.balance

abbrev pub balance_in : (Snapshot → Bool) → List Snapshot → Option ℤ
balance_in q xs = balance_of (find q xs)

same_date_sound : (a b : Date) → same_date a b ≡ true → a ≡ b
same_date_sound a b h = ground arith

same_date_refl : (a : Date) → same_date a a ≡ true
same_date_refl a = ground arith

-- the same account and date
abbrev pub same_key : SnapshotPayload → String → Date → Bool
same_key payload account_id date =
    str_eq payload.account_id account_id && same_date payload.snapshot_date date

key_sound : (a b : String) (d e : Date) → (str_eq a b && same_date d e) ≡ true → (a ≡ b) × (d ≡ e)
key_sound a b d e h =
    let k : str_eq a b ≡ true = ground arith in
    let l : same_date d e ≡ true = ground arith in ((eq_iff a b).0 k, same_date_sound d e l)

-- a row with the payload's account and date
row_test :
    (payload : SnapshotPayload) (account_id : String) (date : Date) (row : Snapshot)
    → row.account_id ≡ payload.account_id
    → row.snapshot_date ≡ payload.snapshot_date
    → is_snapshot_of account_id date row ≡ same_key payload account_id date
row_test payload account_id date row a d =
    ap (λ x. str_eq x account_id && same_date row.snapshot_date date) a
    ∙ ap (λ x. str_eq payload.account_id account_id && same_date x date) d

pub balance_in-append :
    (payload : SnapshotPayload) (account_id : String) (date : Date) (xs : List Snapshot)
    (row : Snapshot)
    → row.account_id ≡ payload.account_id
    → row.snapshot_date ≡ payload.snapshot_date
    → find (is_snapshot_of payload.account_id payload.snapshot_date) xs ≡ none
    → balance_in (is_snapshot_of account_id date) (xs ++ row ∷ []) ≡ (
        if same_key payload account_id date
        then some row.balance
        else balance_in (is_snapshot_of account_id date) xs)
balance_in-append payload account_id date xs row a d absent =
    elim (Bool-cases (same_key payload account_id date)) [
      | inl t ↦
          let (a', d') = key_sound payload.account_id account_id payload.snapshot_date date t in
          let absent' : find (is_snapshot_of account_id date) xs ≡ none = rw (← a', ← d') absent in
          let hit : find (is_snapshot_of account_id date) (row ∷ []) ≡ some row =
            rw (find, row_test payload account_id date row a d, t) refl in
          rw (t, find-append_none (is_snapshot_of account_id date) xs (row ∷ []) absent', hit) refl
      | inr t ↦
          let miss : find (is_snapshot_of account_id date) (row ∷ []) ≡ none =
            rw (find, row_test payload account_id date row a d, t) refl in
          rw (t, find-append_other (is_snapshot_of account_id date) xs (row ∷ []) miss) refl
    ]

pub balance_in-update :
    (payload : SnapshotPayload) (account_id : String) (date : Date) (xs : List Snapshot)
    (row : Snapshot) (f : Snapshot → Snapshot) (balance : ℤ)
    → Distinct (λ s. s.snapshot_id) xs
    → find (is_snapshot_of payload.account_id payload.snapshot_date) xs ≡ some row
    → ((s : Snapshot) → (f s).account_id ≡ s.account_id)
    → ((s : Snapshot) → (f s).snapshot_date ≡ s.snapshot_date)
    → ((s : Snapshot) → (f s).balance ≡ balance)
    → balance_in
        (is_snapshot_of account_id date)
        (update (λ s. s.snapshot_id == row.snapshot_id) f xs)
      ≡ (if same_key payload account_id date
          then some balance
          else balance_in (is_snapshot_of account_id date) xs)
balance_in-update payload account_id date xs row f balance distinct found fa fd fb =
    elim (Bool-cases (same_key payload account_id date)) [
      | inl t ↦
          let (a', d') = key_sound payload.account_id account_id payload.snapshot_date date t in
          let found' : find (is_snapshot_of account_id date) xs ≡ some row =
            rw (← a', ← d') found in
          rw t (
            ap balance_of (
              find-update (is_snapshot_of account_id date) (λ s. s.snapshot_id == row.snapshot_id) f
                xs row (λ s. rw (fa s, fd s) refl) found' (eqb_refl row.snapshot_id))
            ∙ ap (λ (b : ℤ). some b) (fb row))
      | inr t ↦ rw t (
          ap balance_of (
            find-update_other (is_snapshot_of account_id date)
              (λ s. s.snapshot_id == row.snapshot_id) f xs (λ s. rw (fa s, fd s) refl)
              (All-map _ _ (λ s. not_both s t) xs
                (find-Distinct (λ s. s.snapshot_id)
                  (is_snapshot_of payload.account_id payload.snapshot_date) xs row distinct
                  found))))
    ]
  where
    not_both :
        (s : Snapshot)
        → same_key payload account_id date ≡ false
        → (s ≡ row) ⊎ (s.snapshot_id ≢ row.snapshot_id)
        → ((s.snapshot_id == row.snapshot_id) ≡ false) ⊎ (is_snapshot_of account_id date s ≡ false)
    not_both s t (inl e) =
        let hit =
          find-true (is_snapshot_of payload.account_id payload.snapshot_date) xs row found in
        let (a, d) =
          key_sound row.account_id payload.account_id row.snapshot_date payload.snapshot_date hit in
        inr (ap (is_snapshot_of account_id date) e ∙ row_test payload account_id date row a d ∙ t)
    not_both s t (inr e) = inl (ground arith)
