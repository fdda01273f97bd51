-- ===== src/Callback/Owned.antt =====
-- Every reader that a provider hands out is owned by one handle, or has been released.
use datafusion_go.Base.{
  ℕ, ◌≡◌, refl, sym, ap, subst, ◌∙◌, inl, inr, true, false, Option, none, some, List, [], ◌∷◌,
  arith, Bool-cases, When,
}
use datafusion_go.Errors.{panicked, ok, err}
use datafusion_go.Filter.Scalars.{Codec}
use datafusion_go.Callback.Plain.{dispatch_answer-IsPlain}
use datafusion_go.Callback.Handles.{
  Object, Table, Answers, Invocation, lookup_object, delete_object, context_object, reader_object,
  table_object, function_object, catalog_object, no_bytes,
}
use datafusion_go.Callback.Opcodes.{release_object, release_reply, cancel_context, open_scan}
use datafusion_go.Callback.Dispatch.{
  is_op, dispatch_answer, dispatch_callback, new_handle, operation_fails, delete_after, settle,
  run_callback, negative, invoke, Registration, registered_object, Event, run_events,
  table_registration, function_registration, catalog_registration, registered, invoked,
}
use datafusion_go.Callback.Children.{
  readers, IsOwned, readers-delete_object, OwnsChild, settle-IsOwned, plain-OwnsChild,
  open_scan-OwnsChild, cancel_context-OwnsChild,
}

dispatch_callback-OwnsChild :
    (c : Codec) (inv : Invocation) (o : Object) (t : Table)
    → is_op 0 inv.opcode ≡ false
    → IsOwned t
    → OwnsChild (dispatch_callback c inv o t)
unfolding dispatch_callback
dispatch_callback-OwnsChild c inv o t z h = elim (Bool-cases (is_op 1 inv.opcode)) [
  | inl e ↦
      let run : dispatch_callback c inv o t ≡ (t, ok (no_bytes, some (context_object false))) =
        simp (z, e, dispatch_callback) refl in
      let fresh : OwnsChild (t, ok (no_bytes, some (context_object false))) = omega (arith, h) in
      subst OwnsChild (sym run) fresh
  | inr n1 ↦ elim (Bool-cases (is_op 2 inv.opcode)) [
    | inl e ↦
        let run : dispatch_callback c inv o t ≡ cancel_context inv o t =
          simp (z, n1, e, dispatch_callback) refl in
        subst OwnsChild (sym run) (cancel_context-OwnsChild inv o t h)
    | inr n2 ↦ elim (Bool-cases (is_op 4 inv.opcode)) [
      | inl e ↦
          let run : dispatch_callback c inv o t ≡ open_scan c inv o t =
            simp (z, n1, n2, e, dispatch_callback) refl in
          subst OwnsChild (sym run) (open_scan-OwnsChild c inv o t h)
      | inr n4 ↦
          let run : dispatch_callback c inv o t ≡ (t, dispatch_answer inv o) =
            simp (z, n1, n2, n4, dispatch_callback) refl in
          subst OwnsChild (sym run) (plain-OwnsChild t (dispatch_answer-IsPlain inv o) h)
    ]
  ]
]

run_callback-IsOwned :
    (c : Codec) (inv : Invocation) (o : Option Object) (t : Table)
    → is_op 0 inv.opcode ≡ false
    → IsOwned t
    → IsOwned (run_callback c inv o t).0
unfolding run_callback
run_callback-IsOwned c inv none t z h = h
run_callback-IsOwned c inv (some o) t z h = elim (Bool-cases (operation_fails inv t)) [
  | inl e ↦
      let run : run_callback c inv (some o) t ≡ (t, err panicked) = simp (e, run_callback) refl in
      subst (λ p. IsOwned p.0) (sym run) h
  | inr e ↦
      let run : run_callback c inv (some o) t ≡ settle (dispatch_callback c inv o t) =
        simp (e, run_callback) refl in
      subst (λ p. IsOwned p.0) (sym run)
        (settle-IsOwned (dispatch_callback c inv o t) (dispatch_callback-OwnsChild c inv o t z h))
]

delete_missing :
    (h : ℕ) (os : List (ℕ × Object)) → lookup_object h os ≡ none → delete_object h os ≡ os
unfolding lookup_object delete_object
delete_missing h [] e = refl
delete_missing h ((k, p) ∷ rest) e = ground (arith, delete_missing h rest)

release_object-IsOwned :
    (k : ℕ) (o : Object) (t : Table)
    → lookup_object k t.objects ≡ some o
    → IsOwned t
    → IsOwned
        (record (release_object o t) { objects = delete_object k (release_object o t).objects })
unfolding release_object
release_object-IsOwned k reader_object t f h =
    omega (arith, h, readers-delete_object k t.objects reader_object f)
release_object-IsOwned k (context_object b) t f h =
    omega (arith, h, readers-delete_object k t.objects (context_object b) f)
release_object-IsOwned k (table_object p w) t f h =
    omega (arith, h, readers-delete_object k t.objects (table_object p w) f)
release_object-IsOwned k function_object t f h =
    omega (arith, h, readers-delete_object k t.objects function_object f)
release_object-IsOwned k (catalog_object l) t f h =
    omega (arith, h, readers-delete_object k t.objects (catalog_object l) f)

-- A release gives no child, also if it panics.
release-settled : (a : Answers) (o : Object) (t : Table) → (settle (t, release_reply a o)).0 ≡ t
unfolding settle release_reply
release-settled a reader_object t = elim (Bool-cases a.release_panics) [
  | inl e ↦ simp (e, settle, release_reply) refl
  | inr e ↦ simp (e, settle, release_reply) refl
]
release-settled a (context_object b) t = refl
release-settled a (table_object p w) t = refl
release-settled a function_object t = refl
release-settled a (catalog_object l) t = refl

-- The release of an object without an operation: the object goes, and the reader if it is one.
released-IsOwned :
    (c : Codec) (inv : Invocation) (found : Option Object) (t : Table)
    → lookup_object inv.handle t.objects ≡ found
    → is_op 0 inv.opcode ≡ true
    → inv.operation ≡ 0
    → IsOwned t
    → IsOwned (record (run_callback c inv found t).0 {
      objects = delete_object inv.handle (run_callback c inv found t).0.objects;
    })
unfolding run_callback
released-IsOwned c inv none t f z n h = h ∙ ap readers (sym (delete_missing inv.handle t.objects f))
released-IsOwned c inv (some o) t f z n h =
    let e : operation_fails inv t ≡ false = ground (arith, n) in
    let run : run_callback c inv (some o) t
        ≡ settle (release_object o t, release_reply inv.answers o) =
      simp (e, z, run_callback, dispatch_callback) refl in
    let left = release-settled inv.answers o (release_object o t) in
    subst (λ p. IsOwned (record p { objects = delete_object inv.handle p.objects }))
      (sym (ap (λ p. p.0) run ∙ left)) (release_object-IsOwned inv.handle o t f h)

-- Opcode 0 comes without an operation.
abbrev pub ReleasesPlainly : Invocation → Type 0
ReleasesPlainly inv = When (is_op 0 inv.opcode) (inv.operation ≡ 0)

invoke-IsOwned :
    (c : Codec) (inv : Invocation) (t : Table)
    → ReleasesPlainly inv
    → IsOwned t
    → IsOwned (invoke c inv t).0
unfolding invoke delete_after
invoke-IsOwned c inv t p h =
    let found = lookup_object inv.handle t.objects in
    let done = run_callback c inv found t in
    elim (Bool-cases (negative inv.input_length)) [
      | inl e ↦
          let run : (invoke c inv t).0 ≡ t = simp (e, invoke) refl in subst IsOwned (sym run) h
      | inr e ↦ elim (Bool-cases (is_op 0 inv.opcode)) [
        | inl z ↦
            let run : (invoke c inv t).0
                ≡ record done.0 { objects = delete_object inv.handle done.0.objects } =
              simp (e, z, invoke, delete_after) refl in
            let plain : inv.operation ≡ 0 = subst (λ b. When b (inv.operation ≡ 0)) z p in
            subst IsOwned (sym run) (released-IsOwned c inv found t refl z plain h)
        | inr z ↦
            let run : (invoke c inv t).0 ≡ done.0 = simp (e, z, invoke, delete_after) refl in
            subst IsOwned (sym run) (run_callback-IsOwned c inv found t z h)
      ]
    ]

abbrev pub AllReleasePlainly : List Event → Type 0
AllReleasePlainly [] = Unit
AllReleasePlainly (registered r ∷ es) = AllReleasePlainly es
AllReleasePlainly (invoked inv ∷ es) = ReleasesPlainly inv × AllReleasePlainly es

registered-IsOwned :
    (r : Registration) (t : Table) → IsOwned t → IsOwned (new_handle (registered_object r) t)
unfolding registered_object new_handle
registered-IsOwned (table_registration pushdown writable) t h = omega (arith, h)
registered-IsOwned function_registration t h = omega (arith, h)
registered-IsOwned (catalog_registration listed) t h = omega (arith, h)

run_events-keeps :
    (c : Codec) (es : List Event) (t : Table)
    → AllReleasePlainly es
    → IsOwned t
    → IsOwned (run_events c es t)
unfolding run_events
run_events-keeps c [] t p h = h
run_events-keeps c (registered r ∷ es) t p h =
    run_events-keeps c es (new_handle (registered_object r) t) p (registered-IsOwned r t h)
run_events-keeps c (invoked inv ∷ es) t p h =
    run_events-keeps c es (invoke c inv t).0 p.1 (invoke-IsOwned c inv t p.0 h)

abbrev pub empty_table : Table
empty_table = record { objects = []; next = 1; open_readers = 0 }

-- After any registrations and callbacks, whatever user code answers, also where it panics, as many
-- readers that providers handed out are open as there are handles of readers: a scan that fails keeps
-- no reader, and a reader whose handle is released is released. An object is released without an
-- operation.
pub run_events-IsOwned :
    (c : Codec) (es : List Event) → AllReleasePlainly es → IsOwned (run_events c es empty_table)
run_events-IsOwned c es p = run_events-keeps c es empty_table p refl
