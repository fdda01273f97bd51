-- ===== src/Connector/Query.antt =====
-- What normalizing a DSN does to its query, for each form of DSN.
use datafusion_go.Base.{
  String, str_eq, eq_iff, ◌≡◌, refl, sym, ap, subst, ◌∙◌, inl, inr, Bool, true, false, Option, none,
  some, List, [], arith, if◌then◌else◌, Bool-cases, Option-cases,
}
use datafusion_go.Base.Text.{append, strip_prefix, trim_prefix}
use datafusion_go.Errors.{GoError, Result, ok, err, ◌>>=◌, >>=-eq-ok}
use datafusion_go.Connector.Values.{Values, lookup, delete, delete_absent}
use datafusion_go.Connector.Dsn.{
  UrlLibrary, ConnectorOptions, parse_bool_option, shared_session_key, take_shared_session,
  query_text, query_values, normalize_session_dsn, unsupported, check_url, normalize_url,
  normalize_dsn,
}

-- The query of a DSN of one of the supported forms.
unfoldable pub query_of : UrlLibrary → String → String
query_of lib dsn = if str_eq dsn "" then "" else elim (strip_prefix "?" dsn) [
  | some query ↦ query
  | none ↦ elim (lib.parse dsn) [ ok u ↦ u.raw_query | err e ↦ "" ]
]

unfoldable pub values_of : UrlLibrary → String → Values
unfolding query_of
values_of lib dsn = (lib.parse_query (query_of lib dsn)).0

-- Whether the connections share a session: the DSN decides, and else the option.
unfoldable pub sharing : ConnectorOptions → Option (List String) → Result Bool
sharing o none = ok o.shared_session
sharing o (some vs) = parse_bool_option "datafusion.go.shared_session" vs

trim_prefix-query_text : (encoded : String) → trim_prefix "?" (query_text encoded) ≡ encoded
unfolding query_text
trim_prefix-query_text encoded = elim (Bool-cases (str_eq encoded "")) [
  | inl e ↦ subst (λ s. trim_prefix "?" (query_text s) ≡ s) (sym ((eq_iff encoded "").0 e)) refl
  | inr e ↦
      let written : query_text encoded ≡ append "?" encoded = rw e refl in
      subst (λ s. trim_prefix "?" s ≡ encoded) (sym written) refl
]

-- What normalizing leaves: the values without the sharing of sessions, and the options with it.
abbrev pub Normalizes : UrlLibrary → Values → ConnectorOptions → String × ConnectorOptions → Type 0
Normalizes lib values o (normalized, o') =
    (trim_prefix "?" normalized ≡ lib.encode (delete shared_session_key values))
    × (sharing o (lookup shared_session_key values) ≡ ok o'.shared_session)
    × (o' ≡ record o { shared_session = o'.shared_session })

take_shared_session-Normalizes :
    (lib : UrlLibrary) (values kept : Values) (o o' : ConnectorOptions)
    → take_shared_session values o ≡ ok (kept, o')
    → Normalizes lib values o (query_text (lib.encode kept), o')
unfolding take_shared_session sharing
take_shared_session-Normalizes lib values kept o o' h =
    elim (Option-cases (lookup shared_session_key values)) [
      | inl e ↦
          ground (
            arith,
            trim_prefix-query_text (lib.encode kept),
            delete_absent shared_session_key values,
          )
      | inr (vs, e) ↦
          let taken : take_shared_session values o ≡ (
              parse_bool_option shared_session_key vs >>= λ b.
              ok (delete shared_session_key values, record o { shared_session = b })) =
            simp (e, take_shared_session) refl in
          let (b, hb, out) =
            >>=-eq-ok (parse_bool_option shared_session_key vs) _ (sym taken ∙ h) in
          ground (arith, trim_prefix-query_text (lib.encode kept), hb, out, e)
    ]

query_values_lem :
    (parsed : Values × Option GoError) (values : Values)
    → query_values parsed ≡ ok values
    → values ≡ parsed.0
unfolding query_values
query_values_lem (vs, none) values h = cc
query_values_lem (vs, some e) values h = cc

normalize_session_dsn-Normalizes :
    (lib : UrlLibrary) (query normalized : String) (o o' : ConnectorOptions)
    → normalize_session_dsn lib query o ≡ ok (normalized, o')
    → Normalizes lib (lib.parse_query query).0 o (normalized, o')
unfolding normalize_session_dsn query_values
normalize_session_dsn-Normalizes lib query normalized o o' h =
    let (values, parsed, rest) = >>=-eq-ok (query_values (lib.parse_query query)) _ h in
    let ((kept, o''), taken, out) = >>=-eq-ok (take_shared_session values o) _ rest in
    let same : (query_text (lib.encode kept), o'') ≡ (normalized, o') = cc (out) in
    let fine = take_shared_session-Normalizes lib values kept o o'' taken in
    subst (λ v. Normalizes lib v o (normalized, o'))
      (query_values_lem (lib.parse_query query) values parsed)
      (subst (λ p. Normalizes lib values o p) same fine)

-- An empty query has no values, and no values are encoded as the empty text.
abbrev pub ReadsNothing : UrlLibrary → Type 0
ReadsNothing lib = (lib.parse_query "" ≡ ([], none)) × (lib.encode [] ≡ "")

-- A DSN whose query is normalized.
of_query-Normalizes :
    (lib : UrlLibrary) (dsn query normalized : String) (o o' : ConnectorOptions)
    → query_of lib dsn ≡ query
    → normalize_session_dsn lib query o ≡ ok (normalized, o')
    → Normalizes lib (values_of lib dsn) o (normalized, o')
unfolding values_of
of_query-Normalizes lib dsn query normalized o o' q h =
    subst (λ s. Normalizes lib (lib.parse_query s).0 o (normalized, o')) (sym q)
      (normalize_session_dsn-Normalizes lib query normalized o o' h)

empty_dsn-Normalizes :
    (lib : UrlLibrary) (dsn : String) (o : ConnectorOptions)
    → ReadsNothing lib
    → str_eq dsn "" ≡ true
    → Normalizes lib (values_of lib dsn) o ("", o)
unfolding values_of query_of sharing lookup delete
empty_dsn-Normalizes lib dsn o (none_read, none_written) e =
    let q : query_of lib dsn ≡ "" = simp (e, query_of) refl in
    let v : values_of lib dsn ≡ [] = ap (λ s. (lib.parse_query s).0) q ∙ ap (λ r. r.0) none_read in
    subst (λ vs. Normalizes lib vs o ("", o)) (sym v) (sym none_written, refl, refl)

url-Normalizes :
    (lib : UrlLibrary) (dsn normalized : String) (o o' : ConnectorOptions)
    → str_eq dsn "" ≡ false
    → strip_prefix "?" dsn ≡ none
    → normalize_url lib dsn o ≡ ok (normalized, o')
    → Normalizes lib (values_of lib dsn) o (normalized, o')
unfolding normalize_url query_of
url-Normalizes lib dsn normalized o o' e q h =
    let (u, parsed, rest) = >>=-eq-ok (lib.parse dsn) _ h in
    let (done, checked, out) = >>=-eq-ok (check_url dsn u) _ rest in
    let query : query_of lib dsn ≡ u.raw_query = simp (e, q, parsed, query_of) refl in
    of_query-Normalizes lib dsn u.raw_query normalized o o' query out

pub normalize_dsn-Normalizes :
    (lib : UrlLibrary) (dsn normalized : String) (o o' : ConnectorOptions)
    → ReadsNothing lib
    → normalize_dsn lib dsn o ≡ ok (normalized, o')
    → Normalizes lib (values_of lib dsn) o (normalized, o')
unfolding normalize_dsn query_of
normalize_dsn-Normalizes lib dsn normalized o o' laws h = elim (Bool-cases (str_eq dsn "")) [
  | inl e ↦
      let run : normalize_dsn lib dsn o ≡ ok ("", o) = simp (e, normalize_dsn) refl in
      let same : ("", o) ≡ (normalized, o') = cc (run, h) in
      subst (λ p. Normalizes lib (values_of lib dsn) o p) same
        (empty_dsn-Normalizes lib dsn o laws e)
  | inr e ↦ elim (Option-cases (strip_prefix "?" dsn)) [
    | inr (query, q) ↦
        let run : normalize_dsn lib dsn o ≡ normalize_session_dsn lib query o =
          simp (e, q, normalize_dsn) refl in
        let of : query_of lib dsn ≡ query = simp (e, q, query_of) refl in
        of_query-Normalizes lib dsn query normalized o o' of (sym run ∙ h)
    | inl q ↦ elim (Option-cases (strip_prefix "datafusion://" dsn)) [
      | inr (rest, u) ↦
          let run : normalize_dsn lib dsn o ≡ normalize_url lib dsn o =
            simp (e, q, u, normalize_dsn) refl in
          url-Normalizes lib dsn normalized o o' e q (sym run ∙ h)
      | inl u ↦
          let run : normalize_dsn lib dsn o ≡ err (unsupported dsn) =
            simp (e, q, u, normalize_dsn) refl in
          absurd (cc (run, h))
    ]
  ]
]
