-- ===== src/Contract/Interchange.antt =====
-- Sequences of calls on one operation, of any store that keeps the contract.
use anyonce.Prelude.{ℕ, Option, List, [], ◌∷◌, ◌≡◌, refl, sym, ap, ap₂, ◌∙◌, Result, ok, err}
use anyonce.Types.{
  Operation, Payload, BeginOptions, BeginOutcome, CompleteStatus, IdempotencyRecord,
}
use anyonce.Contract.{
  Row, Store, Holds, payload_size, KeepsContract, Begins, Completes, Abandons, Gets,
}
use anyonce.Contract.Deterministic.{Begins-unique, Completes-unique, Abandons-unique, Gets-unique}

-- A call of one of the four methods on an operation.
pub data Call : Type 0 where
  begins : BeginOptions → Call
  completes : ℕ → Payload → ℕ → Call
  abandons : ℕ → Call
  gets : ℕ → Call

-- What a call answers; `thrown` if it throws.
pub data Answer : Type 0 where
  began : BeginOutcome → Answer
  status : CompleteStatus → Answer
  found : Option IdempotencyRecord → Answer
  thrown : Answer

module _ {E A : Type 0} where
  abbrev answered : (A → Answer) → Result E A → Answer
  answered f (ok a) = f a
  answered f (err e) = thrown

module _ {W E : Type 0} (store : Store W E) (op : Operation) where
  abbrev pub one_call : Call → W → Answer × W
  one_call (begins opts) w = (answered began (store.begin op opts w).0, (store.begin op opts w).1)
  one_call (completes fence payload now) w = (
    answered status (store.complete op fence payload now w).0,
    (store.complete op fence payload now w).1,
  )
  one_call (abandons fence) w =
      (answered status (store.abandon op fence w).0, (store.abandon op fence w).1)
  one_call (gets now) w =
      (answered found (store.get op.scope op.key now w).0, (store.get op.scope op.key now w).1)

  -- The answers of a sequence of calls, and the world that they leave.
  abbrev pub all_calls : List Call → W → List Answer × W
  all_calls [] w = ([], w)
  all_calls (c ∷ calls) w =
      let rest = all_calls calls (one_call c w).1 in ((one_call c w).0 ∷ rest.0, rest.1)

-- The body that a call hands over is within a limit.
abbrev FitsOne : Option ℕ → Call → Type 0
FitsOne most (completes fence payload now) = Holds (payload_size payload) most
FitsOne most _ = Unit

abbrev pub Fits : Option ℕ → List Call → Type 0
Fits most [] = Unit
Fits most (c ∷ calls) = FitsOne most c × Fits most calls

-- What the contract says of one call.
data Answers (op : Operation) (row : Row) (row' : Row) : Call → Answer → Type 0 where
  begins_so :
      {opts : BeginOptions} {out : BeginOutcome}
      → Begins op opts row out row'
      → Answers op row row' (begins opts) (began out)
  completes_so :
      {fence now : ℕ} {payload : Payload} {out : CompleteStatus}
      → Completes fence payload now row out row'
      → Answers op row row' (completes fence payload now) (status out)
  abandons_so :
      {fence : ℕ} {out : CompleteStatus}
      → Abandons fence row out row'
      → Answers op row row' (abandons fence) (status out)
  gets_so :
      {now : ℕ} {out : Option IdempotencyRecord}
      → Gets now row out
      → row' ≡ row
      → Answers op row row' (gets now) (found out)

module _ {W E : Type 0} (store : Store W E) (op : Operation) (row : W → Row) (Inv : W → Type 0)
    (impl : KeepsContract store op row Inv) where
  one_call-Answers :
      (c : Call) (w : W)
      → FitsOne store.max_result_bytes c
      → Inv w
      → Answers op (row w) (row (one_call store op c w).1) c (one_call store op c w).0
        × Inv (one_call store op c w).1
  one_call-Answers (begins opts) w fits inv =
      let (out, e, b, inv') = impl.begins opts w inv in rw e (begins_so b, inv')
  one_call-Answers (completes fence payload now) w fits inv =
      let (out, e, c, inv') = impl.completes fence payload now w fits inv in
      rw e (completes_so c, inv')
  one_call-Answers (abandons fence) w fits inv =
      let (out, e, a, inv') = impl.abandons fence w inv in rw e (abandons_so a, inv')
  one_call-Answers (gets now) w fits inv =
      let (out, e, g) = impl.gets now w inv in rw e (gets_so g refl, inv)

Answers-unique :
    {op : Operation} {row row' row'' : Row} {a b : Answer} (c : Call)
    → Answers op row row' c a
    → Answers op row row'' c b
    → (a ≡ b) × (row' ≡ row'')
Answers-unique (begins opts) (begins_so h) (begins_so h') =
    let (same, rows) = Begins-unique h h' in (ap began same, rows)
Answers-unique (completes fence payload now) (completes_so h) (completes_so h') =
    let (same, rows) = Completes-unique h h' in (ap status same, rows)
Answers-unique (abandons fence) (abandons_so h) (abandons_so h') =
    let (same, rows) = Abandons-unique h h' in (ap status same, rows)
Answers-unique (gets now) (gets_so h e) (gets_so h' e') = (ap found (Gets-unique h h'), e ∙ sym e')

module _ {W V E F : Type 0} (op : Operation) (one : Store W E) (row : W → Row) (Inv : W → Type 0)
    (keeps : KeepsContract one op row Inv) (other : Store V F) (row' : V → Row) (Inv' : V → Type 0)
    (keeps' : KeepsContract other op row' Inv') where
  -- Two stores that keep the contract on an operation, in worlds where their invariants hold and whose rows
  -- for it are equal, answer every sequence of calls on it alike, whatever the calls are, and leave equal
  -- rows, if no body is larger than either store declares.
  pub all_calls-alike :
      (calls : List Call) (w : W) (v : V)
      → Inv w
      → Inv' v
      → row w ≡ row' v
      → Fits one.max_result_bytes calls
      → Fits other.max_result_bytes calls
      → ((all_calls one op calls w).0 ≡ (all_calls other op calls v).0)
        × (row (all_calls one op calls w).1 ≡ row' (all_calls other op calls v).1)
  all_calls-alike [] w v i j same fits fits' = (refl, same)
  all_calls-alike (c ∷ calls) w v i j same (fit, fits) (fit', fits') =
      let (a, i') = one_call-Answers one op row Inv keeps c w fit i in
      let (b, j') = one_call-Answers other op row' Inv' keeps' c v fit' j in
      let (answer, rows) = Answers-unique c a (rw same b) in
      let (rest, last) = all_calls-alike calls _ _ i' j' rows fits fits' in
      (ap₂ (◌∷◌) answer rest, last)
