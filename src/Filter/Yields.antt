-- ===== src/Filter/Yields.antt =====
-- Postconditions of fallible calls, and properties that the decoding of a struct keeps.
use datafusion_go.Base.{
  String, ◌≡◌, refl, subst, Bool, true, false, Option, none, some, if◌then◌else◌,
}
use datafusion_go.Errors.{Result, ok, err, ◌>>=◌, map_err, GoError}
use datafusion_go.Filter.Json.{
  Json, Members, Decoding, store, store_struct, go_on, Setter, decode_members, decode_struct,
  finish, unmarshal, null, object, no_member, member, decoded, aborted,
}

-- What holds of the result of a call, if it has one.
pub data Yields {ℓ} {A : Type ℓ} (P : A → Type 0) : Result A → Type ℓ where
  yields : {a : A} → P a → Yields P (ok a)
  fails : {e : GoError} → Yields P (err e)

-- The same of a decoder's state.
pub data Keeps {ℓ} {A : Type ℓ} (P : A → Type 0) : Decoding A → Type ℓ where
  kept : {saved : Option GoError} {a : A} → P a → Keeps P (decoded saved a)
  stopped : {e : GoError} → Keeps P (aborted e)

module _ {ℓ} {A : Type ℓ} {P : A → Type 0} where
  pub Yields-ok : {r : Result A} {a : A} → Yields P r → r ≡ ok a → P a
  Yields-ok (yields h) e = subst P (cc) h
  Yields-ok fails e = cc

  pub Yields-if :
      (b : Bool) {x y : Result A}
      → (b ≡ true → Yields P x)
      → (b ≡ false → Yields P y)
      → Yields P (if b then x else y)
  Yields-if true hx hy = hx refl
  Yields-if false hx hy = hy refl

  pub Keeps-if :
      (b : Bool) {x y : Decoding A} → Keeps P x → Keeps P y → Keeps P (if b then x else y)
  Keeps-if true hx hy = hx
  Keeps-if false hx hy = hy

  pub Yields-map_err : {r : Result A} (f : GoError → GoError) → Yields P r → Yields P (map_err f r)
  Yields-map_err f (yields h) = yields h
  Yields-map_err f fails = fails

  pub Yields->>= {κ} :
      {B : Type κ} {Q : B → Type 0} {r : Result B} {f : B → Result A}
      → Yields Q r
      → ((b : B) → Q b → Yields P (f b))
      → Yields P (r >>= f)
  Yields->>= (yields {a} h) k = k a h
  Yields->>= fails k = fails

  -- A call of which nothing is known.
  pub Yields->>=_any {κ} :
      {B : Type κ} (r : Result B) {f : B → Result A}
      → ((b : B) → Yields P (f b))
      → Yields P (r >>= f)
  Yields->>=_any (ok b) k = k b
  Yields->>=_any (err e) k = fails

  pub Keeps-store {κ} :
      {B : Type κ} {Q : B → Type 0} {r : Result B} (put : B → A) (saved : Option GoError) (a : A)
      → Yields Q r
      → ((b : B) → Q b → P (put b))
      → P a
      → Keeps P (store r put saved a)
  unfolding store
  Keeps-store put saved a (yields {a = b} h) k p = kept (k b h)
  Keeps-store put saved a fails k p = kept p

  pub Keeps-store_any {κ} :
      {B : Type κ} (r : Result B) (put : B → A) (saved : Option GoError) (a : A)
      → ((b : B) → P (put b))
      → P a
      → Keeps P (store r put saved a)
  unfolding store
  Keeps-store_any (ok b) put saved a k p = kept (k b)
  Keeps-store_any (err e) put saved a k p = kept p

  pub Keeps-store_struct {κ} :
      {B : Type κ} {Q : B → Type 0} {d : Decoding B} (put : B → A)
      → Keeps Q d
      → ((b : B) → Q b → P (put b))
      → Keeps P (store_struct d put)
  unfolding store_struct
  Keeps-store_struct put (kept {a = b} h) k = kept (k b h)
  Keeps-store_struct put stopped k = stopped

  Keeps-finish : {d : Decoding A} → Keeps P d → Yields P (finish d)
  unfolding finish
  Keeps-finish (kept {saved = none} h) = yields h
  Keeps-finish (kept {saved = some e} h) = fails
  Keeps-finish stopped = fails

-- A setter that keeps a property of its struct.
abbrev pub Keeping {ℓ} : {A : Type ℓ} → (A → Type 0) → Setter A → Type ℓ
Keeping {A} P put =
    (key : String) (v : Json) (saved : Option GoError) (a : A) → P a → Keeps P (put key v saved a)

Keeps-go_on {ℓ} :
    {A : Type ℓ} {P : A → Type 0} {d : Decoding A} {rest : Option GoError → A → Decoding A}
    → Keeps P d
    → ((saved : Option GoError) (a : A) → P a → Keeps P (rest saved a))
    → Keeps P (go_on d rest)
unfolding go_on
Keeps-go_on (kept {saved} {a} h) k = k saved a h
Keeps-go_on stopped k = stopped

module _ {ℓ} {A : Type ℓ} (P : A → Type 0) (put : Setter A) (keeps : Keeping P put) where
  Keeps-members :
      (ms : Members) (saved : Option GoError) (a : A)
      → P a
      → Keeps P (decode_members put ms saved a)
  unfolding decode_members
  Keeps-members no_member saved a h = kept h
  Keeps-members (member key v ms) saved a h = Keeps-go_on (keeps key v saved a h) (Keeps-members ms)

  pub Keeps-struct :
      (j : Json) (saved : Option GoError) (a : A) → P a → Keeps P (decode_struct put j saved a)
  unfolding decode_struct
  Keeps-struct (object ms) saved a h = Keeps-members ms saved a h
  Keeps-struct null saved a h = kept h
  Keeps-struct _ saved a h = kept h

  pub Yields-unmarshal : (j : Json) (a : A) → P a → Yields P (unmarshal put j a)
  unfolding unmarshal
  Yields-unmarshal j a h = Keeps-finish (Keeps-struct j none a h)

pub any_Yields {ℓ} : {A : Type ℓ} (r : Result A) → Yields (λ a. Unit {0}) r
any_Yields (ok a) = yields tt
any_Yields (err e) = fails
