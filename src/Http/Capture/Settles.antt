-- ===== src/Http/Capture/Settles.antt =====
-- How a capture settles its record.
use anyonce.Prelude.{
  ℕ, zero, suc, Bool, true, false, Option, none, some, List, [], ◌∷◌, length, if◌then◌else◌, Result,
  ok, err, ◌≡◌, refl, ap, ◌∙◌,
}
use anyonce.Types.{StoredResult}
use anyonce.Http.Capture.{
  Read, chunk, nothing, done, failed, Capture, concat, record_chunk, finish, finish_at, end_client,
  pull, cancel, drain_turn, drain_at, unless_settled, close, fail, Event, pulls, cancels, drains,
  closes, fails, step, steps,
}
use anyonce.Http.Capture.Invariant.{record_chunk-rest}

-- The body comes to its end without an error.
abbrev pub EndsWell : {E : Type 0} → List (Read E) → Type 0
EndsWell [] = ⊥
EndsWell (chunk c ∷ rest) = EndsWell rest
EndsWell (nothing ∷ rest) = EndsWell rest
EndsWell (done ∷ rest) = Unit
EndsWell (failed e ∷ rest) = ⊥

-- As many turns of the drain.
abbrev pub drain_turns : {E : Type 0} → ℕ → List (Event E)
drain_turns zero = []
drain_turns (suc n) = drains ∷ drain_turns n

module _ {E : Type 0} (base : StoredResult) (cap : ℕ) where
  unless_keeps :
      (o : Option (Result E StoredResult)) (x : Result E StoredResult) (s s' : Capture E)
      → o ≡ some x
      → s.settled ≡ some x
      → (unless_settled base cap o s s').settled ≡ some x
  unless_keeps none x s s' e h = cc e
  unless_keeps (some _) x s s' e h = h

  if_keeps :
      (b : Bool) (x : Result E StoredResult) (s s' : Capture E)
      → s.settled ≡ some x
      → s'.settled ≡ some x
      → (if b then s else s').settled ≡ some x
  if_keeps true x s s' h h' = h
  if_keeps false x s s' h h' = h'

  finish_keeps :
      (o : Option (Result E StoredResult)) (reason : Option E) (s : Capture E)
      (x : Result E StoredResult)
      → o ≡ some x
      → s.settled ≡ some x
      → (finish_at base cap o reason s).settled ≡ some x
  unfolding finish_at
  finish_keeps none reason s x e h = cc e
  finish_keeps (some _) reason s x e h = h

  end_keeps :
      (how : Result E (Unit {0})) (s : Capture E) (x : Result E StoredResult)
      → s.settled ≡ some x
      → (end_client base cap how s).settled ≡ some x
  unfolding end_client
  end_keeps how s x h = if_keeps s.client_open x _ _ h h

  step_keeps :
      (e : Event E) (s : Capture E) (x : Result E StoredResult)
      → s.settled ≡ some x
      → (step base cap e s).settled ≡ some x
  unfolding step pull cancel drain_turn close fail finish
  step_keeps (pulls accepts) s x h = unless_keeps s.settled x _ _ h h
  step_keeps cancels s x h = h
  step_keeps drains s x h = if_keeps s.draining x _ _ (unless_keeps s.settled x _ _ h h) h
  step_keeps closes s x h = end_keeps (ok tt) s x h
  step_keeps (fails reason) s x h =
      let ended = end_keeps (err reason) s x h in
      if_keeps s.client_open x _ _
        (finish_keeps _ (some reason) (end_client base cap (err reason) s) x ended ended) h

  -- Whatever comes after, a settled record stays as it was settled.
  pub steps_keep :
      (es : List (Event E)) (s : Capture E) (x : Result E StoredResult)
      → s.settled ≡ some x
      → (steps base cap es s).settled ≡ some x
  unfolding steps
  steps_keep [] s x h = h
  steps_keep (e ∷ es) s x h = steps_keep es (step base cap e s) x (step_keeps e s x h)

  if_true : (b : Bool) (s s' : Capture E) → b ≡ true → (if b then s else s') ≡ s
  if_true true s s' e = refl
  if_true false s s' e = cc e

  unless_none :
      (o : Option (Result E StoredResult)) (s s' : Capture E)
      → o ≡ none
      → unless_settled base cap o s s' ≡ s'
  unless_none none s s' e = refl
  unless_none (some x) s s' e = cc e

  -- A turn of the drain reads the source.
  drain_turn_lem :
      (s : Capture E) (l : List (Read E))
      → s.source ≡ l
      → s.settled ≡ none
      → s.draining ≡ true
      → drain_turn base cap s ≡ drain_at base cap l s
  unfolding drain_turn
  drain_turn_lem s l src open' on =
      if_true s.draining _ _ on
      ∙ unless_none s.settled _ _ open'
      ∙ ap (λ l. drain_at base cap l s) src

  drain_at-drained :
      (l : List (Read E)) (s : Capture E)
      → s.source ≡ l
      → EndsWell l
      → s.settled ≡ none
      → s.draining ≡ true
      → (r : StoredResult) × ((steps base cap (drain_turns (length l)) s).settled ≡ some (ok r))
  unfolding steps step drain_at finish finish_at
  drain_at-drained [] s src ends open' on = absurd ends
  drain_at-drained (failed e ∷ rest) s src ends open' on = absurd ends
  drain_at-drained (done ∷ rest) s src ends open' on =
      let turn = drain_turn_lem s (done ∷ rest) src open' on in
      let settles =
        ap (λ o. (finish_at base cap o none (record s { draining = false })).settled) open' in
      (
        record base { body = some (concat s.chunks) },
        steps_keep (drain_turns (length rest)) (drain_turn base cap s)
            (ok (record base { body = some (concat s.chunks) }))
            (ap (λ x. x.settled) turn ∙ settles),
      )
  drain_at-drained (nothing ∷ rest) s src ends open' on =
      let (r, e) = drain_at-drained rest (record s { source = rest }) refl ends open' on in
      (
        r,
        ap (λ x. (steps base cap (drain_turns (length rest)) x).settled)
              (drain_turn_lem s (nothing ∷ rest) src open' on)
            ∙ e,
      )
  drain_at-drained (chunk value ∷ rest) s src ends open' on =
      let (so, cl, se, st, dr) =
        record_chunk-rest base cap rest value (record s { source = rest }) in
      let (r, e) =
        drain_at-drained rest (record_chunk base cap value (record s { source = rest })) so ends
          (st ∙ open') (dr ∙ on) in
      (
        r,
        ap (λ x. (steps base cap (drain_turns (length rest)) x).settled)
              (drain_turn_lem s (chunk value ∷ rest) src open' on)
            ∙ e,
      )

  -- If the client cancels before the record is settled and the body comes to its end, then the drain settles the
  -- record with a result, in at most as many turns as there are reads left, and it stays so whatever comes after.
  pub drain-settles :
      (s : Capture E) (es : List (Event E))
      → EndsWell s.source
      → s.settled ≡ none
      → (r : StoredResult) × ((steps base cap es
            (steps base cap (cancels ∷ drain_turns (length s.source)) s)).settled
          ≡ some (ok r))
  unfolding step cancel
  drain-settles s es ends open' =
      let (r, e) =
        drain_at-drained s.source (record s { client_open = false; draining = true }) refl ends
          open' refl in
      (
        r,
        steps_keep es (steps base cap (cancels ∷ drain_turns (length s.source)) s) (ok r)
            (unfold steps in e),
      )
