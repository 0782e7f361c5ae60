-- ===== src/Query/Cursor.antt =====
-- src/capital_os/domain/query/pagination.py: a cursor is the sort key of a row, as a JSON object
-- in base 64.
use capital_os.Base.{◌≡◌, refl, Option, none, some, [], ◌∷◌, List, if◌then◌else◌}
use capital_os.Int.{pos}
use capital_os.Exec.{Result, ok, err, Error, ◌>>=◌, ◌>>◌, guard}
use capital_os.Text.{Text, codes, text_eq, text_leb}
use capital_os.Json.{
  Json, Members, no_member, member, number, string, object, get, is_one, as_string, sort_keys,
  insert_member, Codec, CodecLaws,
}

-- the four list queries
pub data ListQuery : Type 0 where
  accounts transactions obligations proposals : ListQuery

-- the two columns of a sort key
pub record Columns : Type 0 where
  pub first : Text
  pub second : Text

-- `required_keys`, and the keys that each query then takes from the payload
unfoldable pub read_columns : ListQuery → Columns
read_columns accounts = record { first = codes "code"; second = codes "account_id" }
read_columns transactions = record {
  first = codes "transaction_date";
  second = codes "transaction_id";
}
read_columns obligations = record { first = codes "next_due_date"; second = codes "obligation_id" }
read_columns proposals = record { first = codes "created_at"; second = codes "proposal_id" }

-- the keys of the payload that each query encodes, beside the version
unfoldable pub written_columns : ListQuery → Columns
written_columns accounts = record { first = codes "code"; second = codes "account_id" }
written_columns transactions = record {
  first = codes "transaction_date";
  second = codes "transaction_id";
}
written_columns obligations = record {
  first = codes "next_due_date";
  second = codes "obligation_id";
}
written_columns proposals = record { first = codes "created_at"; second = codes "proposal_id" }

-- `{"v": 1, first: ..., second: ...}`
abbrev pub cursor_payload : Columns → Text × Text → Members
cursor_payload columns keys =
    member (codes "v") (number (record { coef = pos 1; places = 0 }))
      (member columns.first (string keys.0) (member columns.second (string keys.1) no_member))

unfoldable pub as_dict : Json → Result Members
as_dict (object m) = ok m
as_dict _ = err (Error.value "Invalid cursor payload")

unfoldable pub or_value_error : {A : Type 0} → Option A → Result A
or_value_error none = err (Error.value "Invalid cursor format")
or_value_error (some a) = ok a

-- `for key in required_keys:`
unfoldable pub require_strings : List Text → Members → Result (Unit {0})
require_strings [] payload = ok tt
require_strings (key ∷ keys) payload = elim (as_string (get key payload)) [
  | none ↦ err (Error.value "Cursor missing required sort keys")
  | some _ ↦ require_strings keys payload
]

module _ (codec : Codec) where
  unfoldable pub encode_cursor : Members → Text
  encode_cursor payload = codec.urlsafe_b64encode (codec.dumps (sort_keys payload))

  unfoldable pub decode_cursor_payload : Text → List Text → Result Members
  decode_cursor_payload cursor required_keys = do
    raw ← or_value_error (codec.urlsafe_b64decode cursor)
    value ← or_value_error (codec.loads raw)
    payload ← as_dict value
    guard (is_one (get (codes "v") payload)) (Error.value "Unsupported cursor version")
    require_strings required_keys payload
    ok payload

  -- `payload[key]`
  unfoldable pub cursor_key : Text → Members → Result Text
  cursor_key key payload = elim (as_string (get key payload)) [
    | none ↦ err (Error.key "cursor")
    | some t ↦ ok t
  ]

  unfoldable pub decode_keys : Columns → Text → Result (Text × Text)
  decode_keys columns cursor = do
    payload ← decode_cursor_payload cursor (columns.first ∷ columns.second ∷ [])
    first ← cursor_key columns.first payload
    second ← cursor_key columns.second payload
    ok (first, second)

  -- `if cursor:`
  unfoldable pub cursor_keys : Columns → Option Text → Result (Option (Text × Text))
  cursor_keys columns none = ok none
  cursor_keys columns (some cursor) =
      let decoded : Result (Option (Text × Text)) = (do
        keys ← decode_keys columns cursor
        ok (some keys)) in
      if text_eq cursor [] then ok none else decoded

  abbrev pub encode_keys : Columns → Text × Text → Text
  encode_keys columns keys = encode_cursor (cursor_payload columns keys)

  -- A cursor that a list query gives is read back as the sort key that it was made from, whatever
  -- texts are in it.
  pub cursor_keys-encode_keys :
      (query : ListQuery) (keys : Text × Text)
      → CodecLaws codec
      → cursor_keys (read_columns query) (some (encode_keys (written_columns query) keys))
        ≡ ok (some keys)
  unfolding cursor_keys decode_keys decode_cursor_payload cursor_key or_value_error as_dict
      require_strings get is_one as_string encode_cursor read_columns written_columns sort_keys
      insert_member codes text_eq text_leb
  cursor_keys-encode_keys accounts keys laws =
      rw
        (
          laws.not_empty,
          laws.decode-encode,
          laws.loads-dumps (codes "account_id") keys.1 (codes "code") keys.0 refl refl refl,
        )
        refl
  cursor_keys-encode_keys transactions keys laws =
      rw
        (
          laws.not_empty,
          laws.decode-encode,
          laws.loads-dumps (codes "transaction_date") keys.0 (codes "transaction_id") keys.1 refl
              refl refl,
        )
        refl
  cursor_keys-encode_keys obligations keys laws =
      rw
        (
          laws.not_empty,
          laws.decode-encode,
          laws.loads-dumps (codes "next_due_date") keys.0 (codes "obligation_id") keys.1 refl refl
              refl,
        )
        refl
  cursor_keys-encode_keys proposals keys laws =
      rw
        (
          laws.not_empty,
          laws.decode-encode,
          laws.loads-dumps (codes "created_at") keys.0 (codes "proposal_id") keys.1 refl refl refl,
        )
        refl
