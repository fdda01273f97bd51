-- ===== src/Callback/Children.antt =====
-- What an operation leaves: its reply may have a child, which has no handle yet.
use datafusion_go.Base.{
  ℕ, ◌+◌, ◌≡◌, refl, sym, subst, ◌∙◌, inl, inr, Bool, true, false, none, some, List, [], ◌∷◌, arith,
  ◌==◌, Bool-cases,
}
use datafusion_go.Errors.{Result, ok, err}
use datafusion_go.Filter.Scalars.{Codec}
use datafusion_go.Callback.Scan.{
  ScanRequest, decode_request, scan_question, ScanAnswer, finish_scan, schema_panics, schema_nil,
  schema_given, scan_panics, scan_returns,
}
use datafusion_go.Session.Preserved.{Result-cases}
use datafusion_go.Callback.Plain.{IsPlain, refused, replied, provided}
use datafusion_go.Callback.Handles.{
  Object, Table, Answers, Invocation, Reply, lookup_object, delete_object, cancel_object,
  context_object, reader_object, table_object,
}
use datafusion_go.Callback.Opcodes.{cancel_context, scan_reply, scan_object, open_scan}
use datafusion_go.Callback.Dispatch.{settle}

abbrev pub weight : Object → ℕ
weight reader_object = 1
weight _ = 0

abbrev pub readers : List (ℕ × Object) → ℕ
readers [] = 0
readers ((h, o) ∷ rest) = weight o + readers rest

-- As many readers are open as there are handles of readers.
abbrev pub IsOwned : Table → Type 0
IsOwned t = t.open_readers ≡ readers t.objects

pub readers-delete_object :
    (h : ℕ) (os : List (ℕ × Object)) (o : Object)
    → lookup_object h os ≡ some o
    → readers (delete_object h os) + weight o ≡ readers os
unfolding lookup_object delete_object
readers-delete_object h [] o e = cc
readers-delete_object h ((k, p) ∷ rest) o e = elim (Bool-cases (k == h)) [
  | inl q ↦
      let same : p ≡ o = ground (arith, e, q) in
      let dropped : delete_object h ((k, p) ∷ rest) ≡ rest = simp (q, delete_object) refl in
      subst (λ os. readers os + weight o ≡ weight p + readers rest) (sym dropped)
        (subst (λ x. readers rest + weight o ≡ weight x + readers rest) (sym same) (omega arith))
  | inr q ↦
      let found : lookup_object h rest ≡ some o = ground (arith, e, q) in
      let kept : delete_object h ((k, p) ∷ rest) ≡ (k, p) ∷ delete_object h rest =
        simp (q, delete_object) refl in
      subst (λ os. readers os + weight o ≡ weight p + readers rest) (sym kept)
        (omega (arith, readers-delete_object h rest o found))
]

readers-cancel_object : (h : ℕ) (os : List (ℕ × Object)) → readers (cancel_object h os) ≡ readers os
unfolding cancel_object
readers-cancel_object h [] = refl
readers-cancel_object h ((k, context_object b) ∷ rest) =
    ground (arith, readers-cancel_object h rest)
readers-cancel_object h ((k, reader_object) ∷ rest) = omega (arith, readers-cancel_object h rest)
readers-cancel_object h ((k, _) ∷ rest) = omega (arith, readers-cancel_object h rest)

-- A state and a reply whose child is not counted yet.
abbrev pub OwnsChild : Table × Reply → Type 0
OwnsChild (t, err e) = IsOwned t
OwnsChild (t, ok (p, none)) = IsOwned t
OwnsChild (t, ok (p, some o)) = t.open_readers ≡ weight o + readers t.objects

pub settle-IsOwned : (done : Table × Reply) → OwnsChild done → IsOwned (settle done).0
unfolding settle
settle-IsOwned (t, err e) h = h
settle-IsOwned (t, ok (p, none)) h = h
settle-IsOwned (t, ok (p, some o)) h = h

scan_reply-OwnsChild :
    (a : ScanAnswer) (encoded : Result (Unit {0})) (panics : Bool) (t : Table)
    → IsOwned t
    → OwnsChild (scan_reply panics (finish_scan a encoded) t)
unfolding scan_reply finish_scan
scan_reply-OwnsChild scan_panics encoded b t h = omega (arith, h)
scan_reply-OwnsChild (scan_returns none (some e)) encoded b t h = omega (arith, h)
scan_reply-OwnsChild (scan_returns none none) encoded b t h = omega (arith, h)
scan_reply-OwnsChild (scan_returns (some schema) (some e)) encoded true t h = omega (arith, h)
scan_reply-OwnsChild (scan_returns (some schema) (some e)) encoded false t h = omega (arith, h)
scan_reply-OwnsChild (scan_returns (some schema_panics) none) encoded true t h = omega (arith, h)
scan_reply-OwnsChild (scan_returns (some schema_panics) none) encoded false t h = omega (arith, h)
scan_reply-OwnsChild (scan_returns (some schema_nil) none) encoded true t h = omega (arith, h)
scan_reply-OwnsChild (scan_returns (some schema_nil) none) encoded false t h = omega (arith, h)
scan_reply-OwnsChild (scan_returns (some schema_given) none) (err e) true t h = omega (arith, h)
scan_reply-OwnsChild (scan_returns (some schema_given) none) (err e) false t h = omega (arith, h)
scan_reply-OwnsChild (scan_returns (some schema_given) none) (ok u) b t h = omega (arith, h)

pub plain-OwnsChild : (t : Table) {r : Reply} → IsPlain r → IsOwned t → OwnsChild (t, r)
plain-OwnsChild t refused h = h
plain-OwnsChild t replied h = h
plain-OwnsChild t provided h = omega (arith, h)

scan_object-OwnsChild :
    (c : Codec) (a : Answers) (request : ScanRequest) (o : Object) (t : Table)
    → IsOwned t
    → OwnsChild (scan_object c a request o t)
unfolding scan_object
scan_object-OwnsChild c a request (table_object pushdown writable) t h =
    elim (Result-cases (scan_question c pushdown request)) [
      | inr (x, e) ↦
          let run : scan_object c a request (table_object pushdown writable) t ≡ (t, err x) =
            simp (e, scan_object) refl in
          subst OwnsChild (sym run) h
      | inl (question, e) ↦
          let run : scan_object c a request (table_object pushdown writable) t
              ≡ scan_reply a.release_panics (finish_scan (a.scan question) a.encoded) t =
            simp (e, scan_object) refl in
          subst OwnsChild (sym run)
            (scan_reply-OwnsChild (a.scan question) a.encoded a.release_panics t h)
    ]
scan_object-OwnsChild c a request _ t h = h

pub open_scan-OwnsChild :
    (c : Codec) (inv : Invocation) (o : Object) (t : Table)
    → IsOwned t
    → OwnsChild (open_scan c inv o t)
unfolding open_scan
open_scan-OwnsChild c inv o t h = elim (Result-cases (decode_request inv.input)) [
  | inr (x, e) ↦
      let run : open_scan c inv o t ≡ (t, err x) = simp (e, open_scan) refl in
      subst OwnsChild (sym run) h
  | inl (request, e) ↦
      let run : open_scan c inv o t ≡ scan_object c inv.answers request o t =
        simp (e, open_scan) refl in
      subst OwnsChild (sym run) (scan_object-OwnsChild c inv.answers request o t h)
]

pub cancel_context-OwnsChild :
    (inv : Invocation) (o : Object) (t : Table) → IsOwned t → OwnsChild (cancel_context inv o t)
unfolding cancel_context
cancel_context-OwnsChild inv (context_object b) t h =
    h ∙ sym (readers-cancel_object inv.handle t.objects)
cancel_context-OwnsChild inv _ t h = h
