-- ===== src/Filter/Json.antt =====
-- What expr.go uses of Go's `encoding/json`: documents, and decoding into a struct.
use datafusion_go.Base.Text.{codes, same_codes}
use datafusion_go.Base.{
  ℕ, ◌-◌, String, Bool, ◌&&◌, Option, none, some, [], ◌∷◌, map, leb, ◌==◌, if◌then◌else◌,
}
use datafusion_go.Errors.{GoError, errorf, str_arg, Result, ok, err}

-- A number as it is written: a whole number with or without a minus sign, or one with a fraction or
-- an exponent.
pub data Number : Type 0 where
  whole : Bool → ℕ → Number
  fractional : String → Number

mutual
  pub data Json : Type 0 where
    null : Json
    bool : Bool → Json
    number : Number → Json
    text : String → Json
    array : Items → Json
    object : Members → Json

  pub data Items : Type 0 where
    no_item : Items
    item : Json → Items → Items

  pub data Members : Type 0 where
    no_member : Members
    member : String → Json → Members → Members

-- json.RawMessage: empty until a member is decoded into it.
pub data RawMessage : Type 0 where
  empty : RawMessage
  message : Json → RawMessage

-- What `json.Unmarshal` is given: text that is no document fails before anything is decoded.
pub data Document : Type 0 where
  malformed : GoError → Document
  document : Json → Document

-- foldName: the characters that a key is matched by. Beyond ASCII, the long s and the Kelvin sign
-- fold to a letter.
fold_rune : ℕ → ℕ
fold_rune c =
    if leb 97 c && leb c 122 then c - 32 else if c == 383 then 83 else if c == 8490 then 75 else c

-- Whether a member of an object is decoded into the field with a name.
unfoldable pub same_key : String → String → Bool
unfolding fold_rune
same_key key name = same_codes (map fold_rune (codes key)) (map fold_rune (codes name))

-- The kind of a JSON value in an UnmarshalTypeError.
value_kind : Json → String
value_kind null = "null"
value_kind (bool b) = "bool"
value_kind (number n) = "number"
value_kind (text s) = "string"
value_kind (array xs) = "array"
value_kind (object ms) = "object"

-- json.UnmarshalTypeError.
unfoldable pub type_error : Json → String → GoError
unfolding value_kind
type_error j type =
    errorf "json: cannot unmarshal %s into Go value of type %s"
      (str_arg (value_kind j) ∷ str_arg type ∷ [])

-- The state of a decoder: the value so far with the first type error, which does not stop it; or the
-- error of an `UnmarshalJSON`, which does.
pub data Decoding {ℓ} (A : Type ℓ) : Type ℓ where
  decoded : Option GoError → A → Decoding A
  aborted : GoError → Decoding A

-- decodeState.saveError.
unfoldable pub save_error : Option GoError → GoError → Option GoError
save_error none e = some e
save_error (some first) e = some first

module _ {ℓ κ} {A : Type ℓ} {B : Type κ} where
  -- A value that is decoded into a field: a type error leaves the field as it is.
  unfoldable pub store : Result A → (A → B) → Option GoError → B → Decoding B
  unfolding save_error
  store (ok a) put saved b = decoded saved (put a)
  store (err e) put saved b = decoded (save_error saved e) b

  -- A struct that is decoded into a field of another.
  unfoldable pub store_struct : Decoding A → (A → B) → Decoding B
  store_struct (decoded saved a) put = decoded saved (put a)
  store_struct (aborted e) put = aborted e

module _ {ℓ} {A : Type ℓ} where
  -- The rest of the decoding, unless the decoder has stopped.
  unfoldable pub go_on : Decoding A → (Option GoError → A → Decoding A) → Decoding A
  go_on (decoded saved a) rest = rest saved a
  go_on (aborted e) rest = aborted e

-- How a struct takes one member of an object.
abbrev pub Setter {ℓ} : Type ℓ → Type ℓ
Setter A = String → Json → Option GoError → A → Decoding A

module _ {ℓ} {A : Type ℓ} where
  -- decodeState.object: the members in their order.
  unfoldable pub decode_members : Setter A → Members → Option GoError → A → Decoding A
  unfolding go_on
  decode_members put no_member saved a = decoded saved a
  decode_members put (member key v ms) saved a =
      go_on (put key v saved a) λ saved' a'. decode_members put ms saved' a'

  unfoldable pub decode_struct : Setter A → Json → Option GoError → A → Decoding A
  unfolding decode_members
  decode_struct put (object ms) saved a = decode_members put ms saved a
  decode_struct put null saved a = decoded saved a
  decode_struct put j saved a = decoded (save_error saved (type_error j "struct")) a

  -- What `json.Unmarshal` returns.
  unfoldable pub finish : Decoding A → Result A
  finish (decoded none a) = ok a
  finish (decoded (some e) a) = err e
  finish (aborted e) = err e

  -- `json.Unmarshal` of a document into a struct.
  unfoldable pub unmarshal : Setter A → Json → A → Result A
  unfolding decode_struct finish
  unmarshal put j a = finish (decode_struct put j none a)
