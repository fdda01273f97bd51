-- ===== src/Session/Invariant.antt =====
-- What holds of a connection, its statements and their native handles between operations.
use datafusion_go.Base.{
  ℕ, zero, suc, ◌+◌, ◌≡◌, refl, sym, Bool, true, false, not, Option, none, some, List, [], ◌∷◌,
  ◌++◌, length, get_elem?, set, All, arith, if◌then◌else◌,
}
use datafusion_go.Session.State.{Handle, Statement, Driver, native_close}
use datafusion_go.Session.Statements.{invalidate_all, open_after}

abbrev pub count {ℓ} : {A : Type ℓ} → Option A → ℕ
count none = 0
count (some a) = 1

-- The native handles that statements hold.
unfoldable pub live : List Statement → ℕ
live [] = 0
live (s ∷ ss) = count s.native + live ss

-- A handle is of the session that the connection has now.
abbrev pub IsOf : Option ℕ → Bool → Option Handle → Type 0
IsOf session closed none = Unit
IsOf session closed (some h) = (closed ≡ false) × (session ≡ some h.session)

-- A statement is registered until it is closed, and only then may it hold a handle.
abbrev pub FitsSession : Option ℕ → Statement → Type 0
FitsSession session s = (s.registered ≡ not s.closed) × IsOf session s.closed s.native

-- The invariant, where `t` statements are owned by queries that run: the counters are exactly the handles
-- that something still owns, no statement holds a handle of an earlier session, and a closed
-- connection holds nothing.
pub record IsSound (t : ℕ) (d : Driver) : Type 0 where
  pub connections : d.open_connections ≡ count d.conn.native + length d.pending
  pub statements : d.open_statements ≡ t + live d.conn.statements
  pub sessions : All (FitsSession d.conn.native) d.conn.statements
  pub present : count d.conn.native ≡ (if d.conn.closed then 0 else 1)

module _ (session : Option ℕ) where
  closing :
      (native : Option Handle) (closed registered : Bool) (k m n : ℕ)
      → registered ≡ not closed
      → IsOf session closed native
      → n ≡ k + (count native + m)
      → (if registered then native_close native n else n) ≡ k + m
  closing none closed true k m n r h e = omega (arith, e)
  closing none closed false k m n r h e = omega (arith, e)
  closing (some x) false true k m n r h e = omega (arith, e)
  closing (some x) true registered k m n r h e = let q : true ≡ false = h.0 in cc
  closing (some x) false false k m n r h e = cc

  forgotten :
      (native : Option Handle) (closed registered : Bool)
      → registered ≡ not closed
      → IsOf session closed native
      → (if registered then none else native) ≡ none
  forgotten none closed true r h = refl
  forgotten none closed false r h = refl
  forgotten (some x) closed true r h = refl
  forgotten (some x) true registered r h = let q : true ≡ false = h.0 in cc
  forgotten (some x) false false r h = cc

  pub open_after-live :
      (ss : List Statement) (k n : ℕ)
      → All (FitsSession session) ss
      → n ≡ k + live ss
      → open_after ss n ≡ k
  unfolding live
  open_after-live [] k n h e = omega (arith, e)
  open_after-live (s ∷ ss) k n (h, hs) e =
      open_after-live ss k _ hs (closing s.native s.closed s.registered k (live ss) n h.0 h.1 e)

  pub invalidate_all-live :
      (ss : List Statement) → All (FitsSession session) ss → live (invalidate_all ss) ≡ 0
  unfolding live
  invalidate_all-live [] h = refl
  invalidate_all-live (s ∷ ss) (h, hs) =
      rw (forgotten s.native s.closed s.registered h.0 h.1)
        (omega (arith, invalidate_all-live ss hs))

  pub invalidate_all-FitsSession :
      (ss : List Statement) (m : Option ℕ)
      → All (FitsSession session) ss
      → All (FitsSession m) (invalidate_all ss)
  invalidate_all-FitsSession [] m h = tt
  invalidate_all-FitsSession (s ∷ ss) m (h, hs) = (
    (h.0, rw (forgotten s.native s.closed s.registered h.0 h.1) tt),
    invalidate_all-FitsSession ss m hs,
  )

  pub set-live :
      (ss : List Statement) (i : ℕ) (s s' : Statement)
      → get_elem? ss i ≡ some s
      → live (set ss i s') + count s.native ≡ live ss + count s'.native
  unfolding live
  set-live [] i s s' e = cc
  set-live (x ∷ ss) zero s s' e = let q : x ≡ s = cc in rw q (omega arith)
  set-live (x ∷ ss) (suc i) s s' e = omega (arith, set-live ss i s s' e)

  pub set-FitsSession :
      (ss : List Statement) (i : ℕ) (s : Statement)
      → All (FitsSession session) ss
      → FitsSession session s
      → All (FitsSession session) (set ss i s)
  set-FitsSession [] i s h k = tt
  set-FitsSession (x ∷ ss) zero s (h, hs) k = (k, hs)
  set-FitsSession (x ∷ ss) (suc i) s (h, hs) k = (h, set-FitsSession ss i s hs k)

  pub get_elem?-FitsSession :
      (ss : List Statement) (i : ℕ) (s : Statement)
      → All (FitsSession session) ss
      → get_elem? ss i ≡ some s
      → FitsSession session s
  get_elem?-FitsSession [] i s h e = cc
  get_elem?-FitsSession (x ∷ ss) zero s (h, hs) e = let q : x ≡ s = cc in rw (sym q) h
  get_elem?-FitsSession (x ∷ ss) (suc i) s (h, hs) e = get_elem?-FitsSession ss i s hs e

  pub append-FitsSession :
      (ss : List Statement) (s : Statement)
      → All (FitsSession session) ss
      → FitsSession session s
      → All (FitsSession session) (ss ++ s ∷ [])
  append-FitsSession [] s h k = (k, tt)
  append-FitsSession (x ∷ ss) s (h, hs) k = (h, append-FitsSession ss s hs k)

  pub append-live :
      (ss : List Statement) (s : Statement) → live (ss ++ s ∷ []) ≡ live ss + count s.native
  unfolding live
  append-live [] s = omega arith
  append-live (x ∷ ss) s = omega (arith, append-live ss s)
