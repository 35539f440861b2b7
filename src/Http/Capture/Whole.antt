-- ===== src/Http/Capture/Whole.antt =====
-- The steps of a capture, and what a settled record holds.
use anyonce.Prelude.{
  ℕ, ◌+◌, ◌≤◌, ◌<◌, Bytes, Bool, true, false, none, some, List, [], ◌∷◌, ◌++◌, append_assoc,
  append-nil, length, length-append, Bool-cases, ok, err, ◌≡◌, refl, sym, ap, ◌∙◌, arith, inl, inr,
  All, All-append,
}
use anyonce.Types.{StoredResult}
use anyonce.Engine.{result_size}
use anyonce.Http.Capture.{
  Read, chunk, nothing, done, failed, Capture, concat, start, enqueue, end_client, pull, pull_at,
  cancel, drain_turn, drain_at, close, fail, Event, pulls, cancels, drains, closes, fails, step,
  steps,
}
use anyonce.Http.Capture.Invariant.{
  IsSound, record_chunk-IsSound, enqueue-rest, enqueue-IsSent, IsPrefix-more, concat-snoc,
  IsSent-gone, start-IsSound, chunks_of, concat-append, IsPrefix,
}
use anyonce.Http.Capture.Ends.{
  enqueue-parted, finish-IsSound, if-IsSound, unless_settled-IsSound, left-IsSound,
  end_client-IsSound, moved-IsSound, undrained-IsSound,
}

module _ {E : Type 0} (base : StoredResult) (cap : ℕ) (source : List (Read E)) where
  pull_at-IsSound :
      (accepts : Bool) (l : List (Read E)) (s : Capture E)
      → IsSound base cap source s
      → s.source ≡ l
      → s.settled ≡ none
      → IsSound base cap source (pull_at base cap accepts l s)
  unfolding pull_at
  pull_at-IsSound accepts [] s h src open' = h
  pull_at-IsSound accepts (failed e ∷ rest) s h src open' =
      finish-IsSound base cap source (some e) (end_client base cap (err e) s)
        (end_client-IsSound base cap source (err e) s h) (λ e. cc e)
  pull_at-IsSound accepts (done ∷ rest) s h src open' =
      finish-IsSound base cap source none s h (λ _. rw src refl)
  pull_at-IsSound accepts (nothing ∷ rest) s h src open' =
      moved-IsSound base cap source s rest h src open'
  pull_at-IsSound accepts (chunk value ∷ rest) s h src open' =
      let s' = record s { source = rest } in
      let (so, ch, sz, ov, se, dr) = enqueue-rest base cap source accepts value s' in
      record_chunk-IsSound base cap source value (enqueue base cap accepts value s') h.seen
        (rw so (h.split ∙ ap (λ l. h.seen ++ chunks_of l) src)) (rw (ch, sz) h.counted)
        (rw (ch, sz, ov) h.copied)
        (enqueue-IsSent base cap source accepts value s' h.seen h.relayed) (se ∙ open')
        (enqueue-parted base cap source accepts value s' h.parted)

  drain_at-IsSound :
      (l : List (Read E)) (s : Capture E)
      → IsSound base cap source s
      → s.source ≡ l
      → s.settled ≡ none
      → s.client_open ≡ false
      → IsSound base cap source (drain_at base cap l s)
  unfolding drain_at
  drain_at-IsSound [] s h src open' gone = h
  drain_at-IsSound (failed e ∷ rest) s h src open' gone =
      finish-IsSound base cap source (some e) (record s { draining = false })
        (undrained-IsSound base cap source s h) (λ e. cc e)
  drain_at-IsSound (done ∷ rest) s h src open' gone =
      finish-IsSound base cap source none (record s { draining = false })
        (undrained-IsSound base cap source s h) (λ _. rw src refl)
  drain_at-IsSound (nothing ∷ rest) s h src open' gone =
      moved-IsSound base cap source s rest h src open'
  drain_at-IsSound (chunk value ∷ rest) s h src open' gone =
      let relayed' = rw gone at h.relayed in
      record_chunk-IsSound base cap source value (record s { source = rest }) h.seen
        (h.split ∙ ap (λ l. h.seen ++ chunks_of l) src) h.counted h.copied
        (rw gone (IsPrefix-more base cap source s.sent h.seen (value ∷ []) relayed')) open'
        (λ _. gone)

  step-IsSound :
      (e : Event E) (s : Capture E)
      → IsSound base cap source s
      → IsSound base cap source (step base cap e s)
  unfolding step pull cancel drain_turn close fail
  step-IsSound (pulls accepts) s h =
      unless_settled-IsSound base cap source s.settled h
        (λ open'. pull_at-IsSound accepts s.source s h refl open')
  step-IsSound cancels s h = left-IsSound base cap source s s.ended true h
  step-IsSound drains s h =
      if-IsSound base cap source s.draining
        (λ on.
          unless_settled-IsSound base cap source s.settled (undrained-IsSound base cap source s h)
            (λ open'. drain_at-IsSound s.source s h refl open' (h.parted on)))
        h
  step-IsSound closes s h = end_client-IsSound base cap source (ok tt) s h
  step-IsSound (fails reason) s h =
      if-IsSound base cap source s.client_open
        (λ _.
          finish-IsSound base cap source (some reason) (end_client base cap (err reason) s)
            (end_client-IsSound base cap source (err reason) s h) (λ e. cc e))
        h

  steps-IsSound :
      (es : List (Event E)) (s : Capture E)
      → IsSound base cap source s
      → IsSound base cap source (steps base cap es s)
  unfolding steps
  steps-IsSound [] s h = h
  steps-IsSound (e ∷ es) s h = steps-IsSound es (step base cap e s) (step-IsSound e s h)

  module _ (es : List (Event E)) where
    abbrev after : Capture E
    after = steps base cap es (start source)

    sound : IsSound base cap source after
    sound = steps-IsSound es (start source) (start-IsSound base cap source)

    -- A settled result was made from the whole body: up to the cap it holds exactly the bytes that the handler
    -- sent, in order, and beyond the cap it is larger than the cap, so that the engine stores the omitted form.
    pub capture-settled :
        (r : StoredResult)
        → after.settled ≡ some (ok r)
        → (length (concat (chunks_of source)) ≤ cap
            → r ≡ record base { body = some (concat (chunks_of source)) })
          × (cap < length (concat (chunks_of source)) → cap < result_size r)
    unfolding result_size
    capture-settled r settled =
        let h = sound in
        let w = rw settled at h.whole in
        let seen : chunks_of source ≡ h.seen =
          h.split ∙ ap (λ l. h.seen ++ l) w.0 ∙ append-nil h.seen in
        let size : result_size r ≡ length (concat after.chunks) = ap result_size w.1 in
        elim (Bool-cases after.over_cap) [
          | inr under ↦
              let copy = rw under at h.copied in
              let same : concat after.chunks ≡ concat (chunks_of source) =
                ap concat (copy.0 ∙ sym seen) in
              (λ small. w.1 ∙ rw same refl, λ large. omega (arith, size, ap length same, large))
          | inl over ↦
              let copy = rw over at h.copied in
              let all : chunks_of source ≡ after.chunks ++ copy.1.1.0 = seen ∙ copy.1.1.1 in
              let longer =
                ap (λ l. length (concat l)) all
                ∙ ap length (concat-append after.chunks copy.1.1.0)
                ∙ length-append (concat after.chunks) (concat copy.1.1.0) in
              (
                λ small. absurd (omega (arith, small, longer, copy.0, h.counted)),
                λ large. omega (arith, size, copy.0, h.counted),
              )
        ]

    -- The client was sent the chunks that the handler sent, unchanged and in order, up to some point.
    pub capture-relayed : IsPrefix after.sent (chunks_of source)
    capture-relayed =
        let h = sound in
        let (more, e) = IsSent-gone base cap source after.client_open after.sent h.seen h.relayed in
        (
          more ++ chunks_of after.source,
          h.split
              ∙ ap (λ l. l ++ chunks_of after.source) e
              ∙ append_assoc after.sent more (chunks_of after.source),
        )

    last_small :
        (m : ℕ) (front : List Bytes) (last : Bytes) (more : List Bytes)
        → All
            (λ (c : Bytes). length c ≤ m)
            (((front ++ (last ∷ [])) ++ more) ++ chunks_of after.source)
        → length last ≤ m
    last_small m front last more h =
        (All-append (λ (c : Bytes). length c ≤ m) front (last ∷ [])
          (All-append (λ (c : Bytes). length c ≤ m) (front ++ (last ∷ [])) more
            (All-append (λ (c : Bytes). length c ≤ m) ((front ++ (last ∷ [])) ++ more)
              (chunks_of after.source) h).0).0).1.0

    -- If no chunk has more than `m` bytes, then the buffer never holds more than the cap and `m` bytes.
    pub capture-bounded :
        (m : ℕ)
        → All (λ (c : Bytes). length c ≤ m) (chunks_of source)
        → length (concat after.chunks) ≤ cap + m
    capture-bounded m small = elim (Bool-cases after.over_cap) [
      | inr under ↦ let copy = rw under at sound.copied in omega (arith, sound.counted, copy.1)
      | inl over ↦
          let (_, ((front, last, ends, few), (more, e))) = rw over at sound.copied in
          let all : chunks_of source ≡ ((front ++ (last ∷ [])) ++ more) ++ chunks_of after.source =
            sound.split ∙ ap (λ l. l ++ chunks_of after.source) (e ∙ ap (λ l. l ++ more) ends) in
          let seen = last_small m front last more (rw all at small) in
          omega (arith, seen, few, ap (λ l. length (concat l)) ends, concat-snoc front last)
    ]
