-- ===== src/Session/Mutex.antt =====
-- contextMutex of context_mutex.go: Lock and Unlock of any number of goroutines, interleaved. A channel of
-- one place holds a token while the mutex is held.
use datafusion_go.Base.{
  ℕ, zero, suc, ◌+◌, ◌≤◌, ◌≡◌, refl, sym, ap, ◌∙◌, Bool, true, false, none, some, List, [], ◌∷◌,
  get_elem?, set, arith, replicate,
}

-- Where a goroutine is: outside; at the `select` of Lock; behind its send, before it has looked at its
-- context again; with the lock; or after Lock returned the context's error.
pub data Phase : Type 0 where
  outside selecting sent holding refused : Phase

pub record Mutex : Type 0 where
  pub full : Bool
  pub phases : List Phase

-- A goroutine goes to another phase.
abbrev pub goes : Mutex → ℕ → Phase → Bool → Mutex
goes m i p full = record { full = full; phases = set m.phases i p }

-- The steps of Lock and Unlock, of the goroutine `i`.
pub data Step (m : Mutex) : Mutex → Type 0 where
  -- `ctx.Err()` before the channel is touched.
  lock_refused : (i : ℕ) → get_elem? m.phases i ≡ some outside → Step m (goes m i refused m.full)
  lock_enters : (i : ℕ) → get_elem? m.phases i ≡ some outside → Step m (goes m i selecting m.full)
  -- `m.held <- struct{}{}`, when there is room.
  sends :
      (i : ℕ) → get_elem? m.phases i ≡ some selecting → m.full ≡ false → Step m (goes m i sent true)
  -- `<-ctx.Done()`.
  gives_up : (i : ℕ) → get_elem? m.phases i ≡ some selecting → Step m (goes m i refused m.full)
  -- The second look at `ctx.Err()`.
  locked : (i : ℕ) → get_elem? m.phases i ≡ some sent → Step m (goes m i holding m.full)
  backs_out :
      (i : ℕ) → get_elem? m.phases i ≡ some sent → m.full ≡ true → Step m (goes m i refused false)
  -- `<-m.held` of Unlock, by the one that holds the lock.
  unlocks :
      (i : ℕ)
      → get_elem? m.phases i ≡ some holding
      → m.full ≡ true
      → Step m (goes m i outside false)
  -- Lock is called again.
  returns : (i : ℕ) → get_elem? m.phases i ≡ some refused → Step m (goes m i outside m.full)

pub data Reaches (m : Mutex) : Mutex → Type 0 where
  start : Reaches m m
  then : {a b : Mutex} → Reaches m a → Step a b → Reaches m b

-- The mutex of `n` goroutines that are outside.
abbrev pub fresh : ℕ → Mutex
fresh n = record { full = false; phases = replicate n outside }

-- The goroutines whose token is in the channel.
abbrev pub weight : Phase → ℕ
weight sent = 1
weight holding = 1
weight _ = 0

unfoldable pub owners : List Phase → ℕ
owners [] = 0
owners (p ∷ ps) = weight p + owners ps

abbrev pub tokens : Bool → ℕ
tokens false = 0
tokens true = 1

set-owners :
    (ps : List Phase) (i : ℕ) (p q : Phase)
    → get_elem? ps i ≡ some p
    → owners (set ps i q) + weight p ≡ owners ps + weight q
unfolding owners
set-owners [] i p q e = cc
set-owners (x ∷ ps) zero p q e = let same : x ≡ p = cc in rw same (omega arith)
set-owners (x ∷ ps) (suc i) p q e = omega (arith, set-owners ps i p q e)

owners-replicate : (n : ℕ) → owners (replicate n outside) ≡ 0
unfolding owners
owners-replicate zero = refl
owners-replicate (suc n) = omega (arith, owners-replicate n)

Step-owners :
    {a b : Mutex} → Step a b → owners a.phases ≡ tokens a.full → owners b.phases ≡ tokens b.full
Step-owners {a} (lock_refused i at) h = omega (arith, set-owners a.phases i _ refused at, h)
Step-owners {a} (lock_enters i at) h = omega (arith, set-owners a.phases i _ selecting at, h)
Step-owners {a} (sends i at room) h =
    omega (arith, set-owners a.phases i _ sent at, h, ap tokens room)
Step-owners {a} (gives_up i at) h = omega (arith, set-owners a.phases i _ refused at, h)
Step-owners {a} (locked i at) h = omega (arith, set-owners a.phases i _ holding at, h)
Step-owners {a} (backs_out i at full) h =
    omega (arith, set-owners a.phases i _ refused at, h, ap tokens full)
Step-owners {a} (unlocks i at full) h =
    omega (arith, set-owners a.phases i _ outside at, h, ap tokens full)
Step-owners {a} (returns i at) h = omega (arith, set-owners a.phases i _ outside at, h)

-- However the calls of any number of goroutines interleave, with contexts that end at any point, the
-- channel holds a token exactly when one goroutine has the mutex or is about to: there is never a second
-- one, and no token is left by a Lock that failed.
pub Reaches-owners : (n : ℕ) (m : Mutex) → Reaches (fresh n) m → owners m.phases ≡ tokens m.full
Reaches-owners n m start = owners-replicate n
Reaches-owners n m (then r s) = Step-owners s (Reaches-owners n _ r)

no_two : (a b : ℕ) → a ≡ 1 → 1 ≤ b → a + b ≤ 1 → ⊥
no_two a b e f h = omega arith

at_most_one : (full : Bool) (n : ℕ) → n ≡ tokens full → n ≤ 1
at_most_one true n e = omega (arith, e)
at_most_one false n e = omega (arith, e)

has_room : (full : Bool) {n : ℕ} → n ≡ tokens full → n ≡ 0 → full ≡ false
has_room true e f = let no_room : tokens true ≡ tokens false = sym e ∙ f in cc
has_room false e f = refl

one_owner : (ps : List Phase) (i : ℕ) → get_elem? ps i ≡ some holding → 1 ≤ owners ps
unfolding owners
one_owner [] i e = cc
one_owner (x ∷ ps) zero e = let same : x ≡ holding = cc in rw same (omega arith)
one_owner (x ∷ ps) (suc i) e = omega (arith, one_owner ps i e)

two_holders :
    (ps : List Phase) (i j : ℕ)
    → get_elem? ps i ≡ some holding
    → get_elem? ps j ≡ some holding
    → owners ps ≤ 1
    → i ≡ j
unfolding owners
two_holders [] i j a b h = cc
two_holders (x ∷ ps) zero zero a b h = refl
two_holders (x ∷ ps) zero (suc j) a b h =
    let same : weight x ≡ 1 = ap (λ o. elim o [ none ↦ 1 | some p ↦ weight p ]) a in
    elim (no_two (weight x) (owners ps) same (one_owner ps j b) h) [ ]
two_holders (x ∷ ps) (suc i) zero a b h =
    let same : weight x ≡ 1 = ap (λ o. elim o [ none ↦ 1 | some p ↦ weight p ]) b in
    elim (no_two (weight x) (owners ps) same (one_owner ps i a) h) [ ]
two_holders (x ∷ ps) (suc i) (suc j) a b h = ap suc (two_holders ps i j a b (omega (arith, h)))

-- Mutual exclusion: however the calls interleave, two goroutines that hold the mutex are the same one.
pub Reaches-exclusive :
    (n : ℕ) (m : Mutex) (i j : ℕ)
    → Reaches (fresh n) m
    → get_elem? m.phases i ≡ some holding
    → get_elem? m.phases j ≡ some holding
    → i ≡ j
Reaches-exclusive n m i j r a b =
    two_holders m.phases i j a b (at_most_one m.full (owners m.phases) (Reaches-owners n m r))

-- However the calls interleaved, and whatever Lock calls failed, while no goroutine holds the
-- mutex or is about to, a goroutine that waits for it can take the step that takes it.
pub Reaches-room :
    (n : ℕ) (m : Mutex) (i : ℕ)
    → Reaches (fresh n) m
    → owners m.phases ≡ 0
    → get_elem? m.phases i ≡ some selecting
    → Step m (goes m i sent true)
Reaches-room n m i r free at = sends i at (has_room m.full (Reaches-owners n m r) free)
