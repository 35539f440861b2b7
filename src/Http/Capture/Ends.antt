-- ===== src/Http/Capture/Ends.antt =====
-- A capture where it settles, where its client goes, and where a read gives no chunk.
use anyonce.Prelude.{
  ℕ, Bytes, Bool, true, false, Option, none, some, List, [], ◌∷◌, ◌++◌, if◌then◌else◌, Result, ◌≡◌,
  refl, sym, ap, ◌∙◌,
}
use anyonce.Types.{StoredResult}
use anyonce.Http.Capture.{
  Read, nothing, Capture, finish, finish_at, enqueue, end_client, unless_settled,
}
use anyonce.Http.Capture.Invariant.{IsSound, IsWhole, IsSent-gone, enqueue-rest, chunks_of}

module _ {E : Type 0} (base : StoredResult) (cap : ℕ) (source : List (Read E)) where
  pub settled-IsSound :
      (s : Capture E) (o : Option (Result E StoredResult))
      → IsSound base cap source s
      → IsWhole base cap source o s.source s.chunks
      → IsSound base cap source (record s { settled = o })
  settled-IsSound s o h w = record {
    seen = h.seen;
    split = h.split;
    counted = h.counted;
    copied = h.copied;
    relayed = h.relayed;
    whole = w;
    parted = h.parted;
  }

  -- A read that gave no chunk.
  pub moved-IsSound :
      (s : Capture E) (rest : List (Read E))
      → IsSound base cap source s
      → s.source ≡ nothing ∷ rest
      → s.settled ≡ none
      → IsSound base cap source (record s { source = rest })
  moved-IsSound s rest h src open' = record {
    seen = h.seen;
    split = h.split ∙ ap (λ l. h.seen ++ chunks_of l) src;
    counted = h.counted;
    copied = h.copied;
    relayed = h.relayed;
    whole = rw open' tt;
    parted = h.parted;
  }

  finish_at-IsSound :
      (o : Option (Result E StoredResult)) (reason : Option E) (s : Capture E)
      → IsSound base cap source s
      → (reason ≡ none → chunks_of s.source ≡ [])
      → IsSound base cap source (finish_at base cap o reason s)
  unfolding finish_at
  finish_at-IsSound (some r) reason s h last = h
  finish_at-IsSound none (some e) s h last = settled-IsSound s _ h tt
  finish_at-IsSound none none s h last = settled-IsSound s _ h (last refl, refl)

  pub finish-IsSound :
      (reason : Option E) (s : Capture E)
      → IsSound base cap source s
      → (reason ≡ none → chunks_of s.source ≡ [])
      → IsSound base cap source (finish base cap reason s)
  unfolding finish
  finish-IsSound reason s h last = finish_at-IsSound s.settled reason s h last

  pub if-IsSound :
      (b : Bool) {s s' : Capture E}
      → (b ≡ true → IsSound base cap source s)
      → IsSound base cap source s'
      → IsSound base cap source (if b then s else s')
  if-IsSound true h h' = h refl
  if-IsSound false h h' = h'

  pub unless_settled-IsSound :
      (o : Option (Result E StoredResult)) {s s' : Capture E}
      → IsSound base cap source s
      → (o ≡ none → IsSound base cap source s')
      → IsSound base cap source (unless_settled base cap o s s')
  unless_settled-IsSound none h h' = h' refl
  unless_settled-IsSound (some r) h h' = h

  -- The client is gone from now on.
  pub left-IsSound :
      (s : Capture E) (ended : Option (Result E (Unit {0}))) (draining : Bool)
      → IsSound base cap source s
      → IsSound base cap source
          (record s { client_open = false; ended = ended; draining = draining })
  left-IsSound s ended draining h = record {
    seen = h.seen;
    split = h.split;
    counted = h.counted;
    copied = h.copied;
    relayed = IsSent-gone base cap source s.client_open s.sent h.seen h.relayed;
    whole = h.whole;
    parted = λ _. refl;
  }

  pub end_client-IsSound :
      (how : Result E (Unit {0})) (s : Capture E)
      → IsSound base cap source s
      → IsSound base cap source (end_client base cap how s)
  unfolding end_client
  end_client-IsSound how s h =
      if-IsSound s.client_open (λ _. left-IsSound s (some how) s.draining h) h

  pub enqueue-parted :
      (accepts : Bool) (value : Bytes) (s : Capture E)
      → (s.draining ≡ true → s.client_open ≡ false)
      → (enqueue base cap accepts value s).draining ≡ true
      → (enqueue base cap accepts value s).client_open ≡ false
  unfolding enqueue
  enqueue-parted accepts value s parted on =
      let (so, ch, sz, ov, se, dr) = enqueue-rest base cap source accepts value s in
      let gone = parted (sym dr ∙ on) in rw gone refl

  pub undrained-IsSound :
      (s : Capture E)
      → IsSound base cap source s
      → IsSound base cap source (record s { draining = false })
  undrained-IsSound s h = record {
    seen = h.seen;
    split = h.split;
    counted = h.counted;
    copied = h.copied;
    relayed = h.relayed;
    whole = h.whole;
    parted = λ e. cc e;
  }
