-- ===== src/Query/Obligations.antt =====
-- Following the cursors of `query_obligations_page` in src/capital_os/domain/query/service.py.
use capital_os.Base.{
  ℕ, ◌≡◌, ◌≤◌, ◌*◌, refl, ap, ◌∙◌, inl, inr, Bool, true, none, List, All, sym, arith, length,
  select, if◌then◌else◌, length-select, Distinct,
}
use capital_os.Exec.{ok, >>=-eq-ok, ok_inj}
use capital_os.Text.{text_leb}
use capital_os.Json.{CodecLaws}
use capital_os.Calendar.{Date, IsDate, date_leb}
use capital_os.Store.{Database, Obligation}
use capital_os.Query.Order.{
  text_order, text_order-OrderLaws, two_columns, before_cases, text_leb_refl,
}
use capital_os.Query.Page.{show_rows}
use capital_os.Query.Sorted.{All-select}
use capital_os.Query.Complete.{CanShow, TextBefore, text_ltb-TextBefore, Ordered, Ordered-of}
use mathlib.Core.List.{Perm}
use capital_os.Query.Walk.{KeepsKey}
use capital_os.Money.{normalize_amount}
use capital_os.Query.Cursor.{obligations}
use capital_os.Query.Lists.{
  Outside, order_of, follow, query_obligations_page, obligation_key, obligation_item_key,
  show_obligation, ObligationItem,
}
use capital_os.Query.Follow.{follow-Complete}

module _ (outside : Outside) where
  show_obligation-KeepsKey :
      KeepsKey (obligation_key outside) (obligation_item_key outside) show_obligation
  unfolding show_obligation
  show_obligation-KeepsKey o item h =
      let (amount, e, made) = >>=-eq-ok (normalize_amount _) _ h in rw (← ok_inj made) refl

  -- What the texts of dates are relied on for: in the years that have four digits they are in the
  -- order of the dates.
  abbrev pub DateTexts : Type 0
  DateTexts =
      (a b : Date)
      → IsDate a × (a.year ≤ 9999)
      → IsDate b × (b.year ≤ 9999)
      → text_leb (outside.date_text a) (outside.date_text b) ≡ date_leb a b

  abbrev pub HasDate : Obligation → Type 0
  HasDate o = IsDate o.next_due_date × (o.next_due_date.year ≤ 9999)

  -- `a` is due before `b`, or on the same date and has the first text of the key.
  abbrev pub DueFirst : Obligation → Obligation → Type 0
  DueFirst a b =
      (date_leb a.next_due_date b.next_due_date ≡ true)
      × (a.next_due_date ≡ b.next_due_date
          → TextBefore (outside.uuid_text a.obligation_id) (outside.uuid_text b.obligation_id))

  pub record HasObligations (active_only : Bool) (db : Database) (limit fuel : ℕ) : Type 0 where
    pub rows : List Obligation
    pub items : List ObligationItem
    pub same_rows :
        Perm rows
          (select (λ (o : Obligation). if active_only then o.active else true) db.obligations)
    pub due_first : Ordered DueFirst rows
    pub are_shown : show_rows show_obligation rows ≡ ok items
    pub followed :
        follow (λ c. query_obligations_page outside active_only limit c db) fuel none ≡ ok items

  DueFirst-of :
      DateTexts
      → (a b : Obligation) → HasDate a
      → HasDate b
      → (order_of obligations).lt (obligation_key outside a) (obligation_key outside b) ≡ true
      → DueFirst a b
  unfolding order_of two_columns text_order
  DueFirst-of texts a b p q h =
      elim (before_cases text_order text_order text_order-OrderLaws text_order-OrderLaws
        (obligation_key outside a) (obligation_key outside b) h) [
          | inl e ↦
              let (below, differ) = text_ltb-TextBefore _ _ e in
              (
                sym (texts a.next_due_date b.next_due_date p q) ∙ below,
                (λ same. absurd (differ (ap outside.date_text same))),
              )
          | inr (e, later) ↦ (
            sym (texts a.next_due_date b.next_due_date p q)
                ∙ ap (λ t. text_leb t (outside.date_text b.next_due_date)) e
                ∙ text_leb_refl (outside.date_text b.next_due_date),
            (λ _. text_ltb-TextBefore _ _ later),
          )
        ]

  -- A client that asks for the obligations that are active, or for all of them, with any limit of
  -- at least one and follows the cursors gets each of these exactly once, those that are due first
  -- first and of the same date those with the first text of the key, in as many requests as fill
  -- pages of the limit, if the texts of dates of four-digit years are in the order of the dates, the
  -- due dates are such dates, no two obligations have the same text of the date and of the key, and
  -- each can be shown.
  pub query_obligations_page_complete :
      (active_only : Bool) (db : Database) (limit fuel : ℕ)
      → CodecLaws outside.codec
      → DateTexts
      → Distinct (obligation_key outside) db.obligations
      → All HasDate db.obligations
      → All (CanShow show_obligation) db.obligations
      → 1 ≤ limit
      → length db.obligations ≤ fuel * limit
      → 1 ≤ fuel
      → HasObligations active_only db limit fuel
  unfolding query_obligations_page
  query_obligations_page_complete active_only db limit fuel laws texts d dated can positive enough
        some_fuel =
      let keep : Obligation → Bool = λ o. if active_only then o.active else true in
      let kept = length-select keep db.obligations in
      let c =
        follow-Complete outside obligations (obligation_key outside) (obligation_item_key outside)
          show_obligation keep HasDate limit fuel db.obligations laws d show_obligation-KeepsKey
          (All-select (CanShow show_obligation) keep db.obligations can)
          (All-select HasDate keep db.obligations dated) positive (omega arith) some_fuel in
      record {
        rows = c.sorted;
        items = c.items;
        same_rows = c.same_rows;
        due_first =
            Ordered-of HasDate _ DueFirst (λ a b. DueFirst-of texts a b) c.sorted c.all c.ascending;
        are_shown = c.are_shown;
        followed = c.followed;
      }
