-- ===== src/Reader/Tidy.antt =====
-- The native resources of a result reader, over any history of calls, and the laws of the interface.
use datafusion_go.Base.{
  ℕ, zero, suc, ◌≡◌, refl, sym, ap, subst, ◌∙◌, true, false, Option, none, some, List, [], ◌∷◌,
  ◌++◌, replicate,
}
use mathlib.Core.List.{append_assoc}
use datafusion_go.Errors.{GoError, Result, err}
use datafusion_go.Arrow.{Batch, Field}
use datafusion_go.Reader.Native.{
  ResultReader, StreamEvent, context_done, next, import_failed, stream_failed, NativeCall,
  token_cancel, done_close, result_cancel, array_release, stream_release, result_close, token_close,
  new_result_reader, cancel, close_locked, close_reader, read, give_up,
}

-- The calls that end a reader, in order.
abbrev pub ending : List NativeCall
ending =
    done_close ∷ result_cancel ∷ array_release ∷ stream_release ∷ result_close ∷ token_close ∷ []

module _ (schema : List Field) (context : Option GoError) (pending : List StreamEvent) (n : ℕ) where
  -- A reader that holds everything, and has only cancelled its token, `n` times.
  abbrev pub opened : ResultReader
  opened = record {
    schema = schema;
    context = context;
    pending = pending;
    closed = false;
    has_array = true;
    has_stream = true;
    has_result = true;
    token_open = true;
    calls = replicate n token_cancel;
  }

  -- A reader that holds nothing: behind its cancellations it made the ending calls, once.
  abbrev pub shut : ResultReader
  shut = record {
    schema = schema;
    context = context;
    pending = pending;
    closed = true;
    has_array = false;
    has_stream = false;
    has_result = false;
    token_open = false;
    calls = replicate n token_cancel ++ ending;
  }

pub data IsTidy (r : ResultReader) : Type 0 where
  is_open :
      (schema : List Field) (context : Option GoError) (pending : List StreamEvent) (n : ℕ)
      → r ≡ opened schema context pending n
      → IsTidy r
  is_shut :
      (schema : List Field) (context : Option GoError) (pending : List StreamEvent) (n : ℕ)
      → r ≡ shut schema context pending n
      → IsTidy r

replicate-snoc : (n : ℕ) (c : NativeCall) → replicate n c ++ c ∷ [] ≡ replicate (suc n) c
replicate-snoc zero c = refl
replicate-snoc (suc n) c = ap (◌∷◌ c) (replicate-snoc n c)

module _ (s : List Field) (c : Option GoError) (p : List StreamEvent) (n : ℕ) where
  cancel-opened : cancel (opened s c p n) ≡ opened s c p (suc n)
  unfolding cancel
  cancel-opened = rw (replicate-snoc n token_cancel)

  cancel-shut : cancel (shut s c p n) ≡ shut s c p n
  unfolding cancel
  cancel-shut = refl

  close_locked-opened : close_locked (opened s c p n) ≡ shut s c p n
  unfolding close_locked
  close_locked-opened = simp append_assoc

  close_locked-shut : close_locked (shut s c p n) ≡ shut s c p n
  unfolding close_locked
  close_locked-shut = refl

module _ (s : List Field) (c : Option GoError) (p : List StreamEvent) (n : ℕ) where
  close_reader-opened : close_reader (opened s c p n) ≡ shut s c p (suc n)
  unfolding close_reader
  close_reader-opened = ap close_locked (cancel-opened s c p n) ∙ close_locked-opened s c p (suc n)

  close_reader-shut : close_reader (shut s c p n) ≡ shut s c p n
  unfolding close_reader
  close_reader-shut = refl

give_up-opened :
    (s : List Field) (c : Option GoError) (p : List StreamEvent) (n : ℕ) (e : GoError)
    → give_up (opened s c p n) e ≡ (shut s c p (suc (suc n)), err e)
unfolding give_up
give_up-opened s c p n e =
    ap (λ (r : ResultReader). (r, err e))
      (ap close_reader (cancel-opened s c p n) ∙ close_reader-opened s c p (suc n))

read-opened :
    (s : List Field) (c : Option GoError) (p : List StreamEvent) (n : ℕ)
    → IsTidy (read (opened s c p n)).0
unfolding read
read-opened s (some e) p n =
    is_shut s (some e) p (suc (suc n))
      (ap (λ (x : ResultReader × Result Batch). x.0) (give_up-opened s (some e) p n e))
read-opened s none [] n = is_shut s none [] n (close_locked-opened s none [] n)
read-opened s none (context_done e ∷ es) n =
    is_shut s (some e) es (suc (suc n))
      (ap (λ (x : ResultReader × Result Batch). x.0) (give_up-opened s (some e) es n e))
read-opened s none (next b ∷ es) n = is_open s none es n refl
read-opened s none (import_failed e ∷ es) n = is_shut s none es n (close_locked-opened s none es n)
read-opened s none (stream_failed errno message kind c ∷ es) n =
    is_shut s c es n (close_locked-opened s c es n)

read-shut :
    (s : List Field) (c : Option GoError) (p : List StreamEvent) (n : ℕ)
    → IsTidy (read (shut s c p n)).0
unfolding read
read-shut s (some e) p n = is_shut s (some e) p n refl
read-shut s none (context_done e ∷ es) n = is_shut s (some e) es n refl
read-shut s none [] n = is_shut s none [] n refl
read-shut s none (next b ∷ es) n = is_shut s none (next b ∷ es) n refl
read-shut s none (x ∷ es) n = is_shut s none (x ∷ es) n refl

pub read-IsTidy : (r : ResultReader) → IsTidy r → IsTidy (read r).0
read-IsTidy r (is_open s c p n e) = subst (λ x. IsTidy (read x).0) (sym e) (read-opened s c p n)
read-IsTidy r (is_shut s c p n e) = subst (λ x. IsTidy (read x).0) (sym e) (read-shut s c p n)

-- What the users of a reader, and its context's goroutine, may call.
pub data Op : Type 0 where
  reads cancels closes : Op

pub run : List Op → ResultReader → ResultReader
run [] r = r
run (reads ∷ ops) r = run ops (read r).0
run (cancels ∷ ops) r = run ops (cancel r)
run (closes ∷ ops) r = run ops (close_reader r)

cancel-IsTidy : (r : ResultReader) → IsTidy r → IsTidy (cancel r)
cancel-IsTidy r (is_open s c p n e) = is_open s c p (suc n) (ap cancel e ∙ cancel-opened s c p n)
cancel-IsTidy r (is_shut s c p n e) = is_shut s c p n (ap cancel e ∙ cancel-shut s c p n)

close_reader-shuts :
    (r : ResultReader)
    → IsTidy r
    → (s : List Field) × (c : Option GoError) × (p : List StreamEvent) × (n : ℕ) × (close_reader r
        ≡ shut s c p n)
close_reader-shuts r (is_open s c p n e) =
    (s, c, p, suc n, ap close_reader e ∙ close_reader-opened s c p n)
close_reader-shuts r (is_shut s c p n e) =
    (s, c, p, n, ap close_reader e ∙ close_reader-shut s c p n)

run-IsTidy-from : (ops : List Op) (r : ResultReader) → IsTidy r → IsTidy (run ops r)
unfolding run
run-IsTidy-from [] r t = t
run-IsTidy-from (reads ∷ ops) r t = run-IsTidy-from ops (read r).0 (read-IsTidy r t)
run-IsTidy-from (cancels ∷ ops) r t = run-IsTidy-from ops (cancel r) (cancel-IsTidy r t)
run-IsTidy-from (closes ∷ ops) r t =
    let (s, c, p, n, e) = close_reader-shuts r t in
    run-IsTidy-from ops (close_reader r) (is_shut s c p n e)

-- After any sequence of reads, cancellations and closes, in any order and over any stream, a new
-- reader either still holds all its native resources and has only cancelled its token, or holds
-- none, and has then made the six ending calls once, in order, with nothing called behind them.
pub run-IsTidy :
    (ops : List Op) (schema : List Field) (events : List StreamEvent)
    → IsTidy (run ops (new_result_reader schema events))
unfolding new_result_reader
run-IsTidy ops schema events =
    run-IsTidy-from ops (opened schema none events 0) (is_open schema none events 0 refl)

-- Once the reader is closed, everything is released: whatever was called before, closing leaves no
-- resource held, and the log is some cancellations of the token and then the six ending calls.
pub close_reader-run :
    (ops : List Op) (schema : List Field) (events : List StreamEvent)
    → let r = close_reader (run ops (new_result_reader schema events)) in
      (r.has_array ≡ false)
      × (r.has_stream ≡ false)
      × (r.has_result ≡ false)
      × (r.token_open ≡ false)
      × ((n : ℕ) × (r.calls ≡ replicate n token_cancel ++ ending))
close_reader-run ops schema events =
    let (s, c, p, n, e) = close_reader-shuts _ (run-IsTidy ops schema events) in
    rw e (refl, refl, refl, refl, (n, refl))
