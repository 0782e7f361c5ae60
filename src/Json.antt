-- ===== src/Json.antt =====
-- The values of `json`, and what `json` and `base64` are taken to do. A text is its code points.
use capital_os.Base.{ℕ, ◌≡◌, ◌^◌, Bool, false, Option, none, some, List, [], if◌then◌else◌}
use capital_os.Int.{pos, eqb_ℤ}
use capital_os.Money.{Decimal}
use capital_os.Text.{Text, codes, text_eq, text_leb}

mutual
  pub data Json : Type 0 where
    null : Json
    bool : Bool → Json
    number : Decimal → Json
    string : Text → Json
    array : Values → Json
    object : Members → Json

  pub data Values : Type 0 where
    no_value : Values
    value : Json → Values → Values

  -- a dict, with its entries in the order of insertion
  pub data Members : Type 0 where
    no_member : Members
    member : Text → Json → Members → Members

-- `payload.get(key)`
unfoldable pub get : Text → Members → Option Json
get key no_member = none
get key (member k v rest) = let found = get key rest in if text_eq k key then some v else found

-- `value == 1`: `True` and `1.0` are equal to 1
unfoldable pub is_one : Option Json → Bool
is_one (some (bool b)) = b
is_one (some (number v)) = eqb_ℤ v.coef (pos (10 ^ v.places))
is_one _ = false

-- `isinstance(value, str)`
unfoldable pub as_string : Option Json → Option Text
as_string (some (string t)) = some t
as_string _ = none

-- an entry of a dict with sorted keys
unfoldable pub insert_member : Text → Json → Members → Members
insert_member key v no_member = member key v no_member
insert_member key v (member k w rest) =
    let later = insert_member key v rest in
    if text_leb key k then member key v (member k w rest) else member k w later

-- `sort_keys=True`
unfoldable pub sort_keys : Members → Members
unfolding insert_member
sort_keys no_member = no_member
sort_keys (member k v rest) = insert_member k v (sort_keys rest)

-- `dumps` with the compact separators, `loads` on the bytes of a text, and the two directions of
-- the URL-safe base 64; what raises is `none`.
pub record Codec : Type 0 where
  pub dumps : Members → List ℕ
  pub loads : List ℕ → Option Json
  pub urlsafe_b64encode : List ℕ → Text
  pub urlsafe_b64decode : Text → Option (List ℕ)

-- an object of two texts and the version 1
abbrev pub versioned : Text → Text → Text → Text → Members
versioned first a second b = member first (string a) (
    member second (string b)
      (member (codes "v") (number (record { coef = pos 1; places = 0 })) no_member))

-- `loads` reads such an object as `dumps` wrote it, if its three keys differ, decoding undoes
-- encoding, and such an object is not encoded as the empty text.
pub record CodecLaws (codec : Codec) : Type 0 where
  pub loads-dumps :
      (first a second b : Text)
      → text_eq first second ≡ false
      → text_eq first (codes "v") ≡ false
      → text_eq second (codes "v") ≡ false
      → codec.loads (codec.dumps (versioned first a second b))
        ≡ some (object (versioned first a second b))
  pub decode-encode :
      (bytes : List ℕ) → codec.urlsafe_b64decode (codec.urlsafe_b64encode bytes) ≡ some bytes
  pub not_empty :
      (first a second b : Text)
      → text_eq (codec.urlsafe_b64encode (codec.dumps (versioned first a second b))) [] ≡ false
