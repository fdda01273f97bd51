-- ===== src/Callback/Scan.antt =====
-- The opening of a scan in dispatchCallback: its request, and the reader that a provider answers with.
use datafusion_go.Base.{String, Bool, true, false, Option, none, some, List, [], ◌∷◌, if◌then◌else◌}
use datafusion_go.Base.Int.{ℤ, pos}
use datafusion_go.Errors.{GoError, errorf, panicked, Result, ok, err, ◌>>=◌}
use datafusion_go.Filter.Json.{
  Json, null, array, Items, no_item, item, RawMessage, empty, message, Document, malformed,
  document, Decoding, decoded, Setter, same_key, type_error, save_error, store, store_struct,
  unmarshal,
}
use datafusion_go.Filter.Scalars.{Codec, set_int, set_string}
use datafusion_go.Filter.Decode.{Expr, decode_filters}

-- The request. A projection that is none is a nil slice.
pub record ScanRequest : Type 0 where
  pub projection : Option (List ℤ)
  pub filters : RawMessage
  pub limit : ℤ

abbrev pub zero_request : ScanRequest
zero_request = record { projection = none; filters = empty; limit = pos 0 }

-- The elements of a list of ints. A null leaves the element as it was, which is zero for a new one.
unfoldable pub decode_ints : Items → List ℤ → Option GoError → Decoding (List ℤ)
unfolding save_error store_struct
decode_ints no_item old saved = decoded saved []
decode_ints (item j js) [] saved = elim (set_int 64 j (pos 0)) [
  | ok n ↦ store_struct (decode_ints js [] saved) (λ ns. n ∷ ns)
  | err e ↦ store_struct (decode_ints js [] (save_error saved e)) (λ ns. pos 0 ∷ ns)
]
decode_ints (item j js) (o ∷ old) saved = elim (set_int 64 j o) [
  | ok n ↦ store_struct (decode_ints js old saved) (λ ns. n ∷ ns)
  | err e ↦ store_struct (decode_ints js old (save_error saved e)) (λ ns. o ∷ ns)
]

elements : Option (List ℤ) → List ℤ
elements none = []
elements (some ns) = ns

decode_projection : Json → Option (List ℤ) → Option GoError → Decoding (Option (List ℤ))
unfolding elements decode_ints
decode_projection (array js) old saved = store_struct (decode_ints js (elements old) saved) some
decode_projection null old saved = decoded saved none
decode_projection j old saved = decoded (save_error saved (type_error j "[]int")) old

unfoldable pub set_request : Setter ScanRequest
unfolding decode_projection store
set_request key v saved r =
    if same_key key "projection"
    then store_struct (decode_projection v r.projection saved) (λ p. record r { projection = p })
    else if same_key key "filters"
    then decoded saved (record r { filters = message v })
    else if same_key key "limit"
    then store (set_int 64 v r.limit) (λ n. record r { limit = n }) saved r
    else decoded saved r

unfoldable pub decode_request : Document → Result ScanRequest
unfolding set_request
decode_request (malformed e) = err e
decode_request (document j) = unmarshal set_request j zero_request

-- ScanOptions of internal/native/extensions.go.
pub record ScanOptions : Type 0 where
  pub projection : Option (List ℤ)
  pub filters : List Expr
  pub limit : ℤ

-- No filters are decoded from an empty message or a null.
request_filters : Codec → RawMessage → Result (List Expr)
request_filters c empty = ok []
request_filters c (message null) = ok []
request_filters c (message j) = decode_filters c (document j)

with_options : Codec → ScanRequest → Result (Option ScanOptions)
unfolding request_filters
with_options c r = request_filters c r.filters >>= λ es.
    ok (some (record { projection = r.projection; filters = es; limit = r.limit }))

-- What a provider is asked: plainly, or with options if it accepts them.
unfoldable pub scan_question : Codec → Bool → ScanRequest → Result (Option ScanOptions)
unfolding with_options
scan_question c pushdown r = if pushdown then with_options c r else ok none

-- The schema of a reader, and the answer of a provider: a reader or none, with an error or none.
pub data SchemaAnswer : Type 0 where
  schema_panics schema_nil schema_given : SchemaAnswer

pub data ScanAnswer : Type 0 where
  scan_panics : ScanAnswer
  scan_returns : Option SchemaAnswer → Option GoError → ScanAnswer

-- Whether there was a reader, whether it was released, and what comes of the call.
pub record ScanResult : Type 0 where
  pub handed_out : Bool
  pub released : Bool
  pub outcome : Result (Unit {0})

abbrev no_reader : GoError → ScanResult
no_reader e = record { handed_out = false; released = false; outcome = err e }

abbrev give_back : GoError → ScanResult
give_back e = record { handed_out = true; released = true; outcome = err e }

abbrev pub keep_reader : ScanResult
keep_reader = record { handed_out = true; released = false; outcome = ok tt }

-- The checks behind the call of a provider. A reader that is not transferred is released, also if
-- something panics. `encoded` is what encodeIPC answers.
unfoldable pub finish_scan : ScanAnswer → Result (Unit {0}) → ScanResult
finish_scan scan_panics encoded = no_reader panicked
finish_scan (scan_returns none (some e)) encoded = no_reader e
finish_scan (scan_returns none none) encoded =
    no_reader (errorf "go provider returned nil reader" [])
finish_scan (scan_returns (some schema) (some e)) encoded = give_back e
finish_scan (scan_returns (some schema_panics) none) encoded = give_back panicked
finish_scan (scan_returns (some schema_nil) none) encoded =
    give_back (errorf "go provider reader has nil schema" [])
finish_scan (scan_returns (some schema_given) none) (err e) = give_back e
finish_scan (scan_returns (some schema_given) none) (ok u) = keep_reader

-- The request of opcode 8: a table of a catalog.
pub record TableRef : Type 0 where
  pub schema : String
  pub table : String

set_table_ref : Setter TableRef
unfolding store
set_table_ref key v saved r =
    if same_key key "schema"
    then store (set_string v r.schema) (λ s. record r { schema = s }) saved r
    else if same_key key "table"
    then store (set_string v r.table) (λ t. record r { table = t }) saved r
    else decoded saved r

unfoldable pub decode_table_ref : Document → Result TableRef
unfolding set_table_ref
decode_table_ref (malformed e) = err e
decode_table_ref (document j) = unmarshal set_table_ref j (record { schema = ""; table = "" })

-- The request of opcode 15: the name of a schema.
unfoldable pub decode_name : Document → Result String
unfolding set_string
decode_name (malformed e) = err e
decode_name (document j) = set_string j ""
