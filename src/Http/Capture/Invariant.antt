-- ===== src/Http/Capture/Invariant.antt =====
-- What holds of a capture after any steps.
use anyonce.Prelude.{
  ℕ, ◌+◌, ◌≤◌, ◌<◌, Bytes, Bool, true, false, Option, none, some, List, [], ◌∷◌, ◌++◌, append_assoc,
  append-nil, length, length-append, ltb, Bool-cases, Result, ok, err, ◌≡◌, refl, sym, ap, ◌∙◌,
  arith, inl, inr,
}
use anyonce.Types.{StoredResult}
use anyonce.Http.Capture.{
  Read, chunk, nothing, done, failed, Capture, concat, start, record_chunk, enqueue,
}

-- The chunks that the source has, up to its end.
abbrev pub chunks_of : {E : Type 0} → List (Read E) → List Bytes
chunks_of [] = []
chunks_of (chunk c ∷ rest) = c ∷ chunks_of rest
chunks_of (nothing ∷ rest) = chunks_of rest
chunks_of (done ∷ rest) = []
chunks_of (failed e ∷ rest) = []

pub concat-append : (xs ys : List Bytes) → concat (xs ++ ys) ≡ concat xs ++ concat ys
concat-append [] ys = refl
concat-append (x ∷ xs) ys = rw (concat-append xs ys, append_assoc x (concat xs) (concat ys)) refl

pub concat-snoc :
    (xs : List Bytes) (x : Bytes) → length (concat (xs ++ (x ∷ []))) ≡ length (concat xs) + length x
concat-snoc xs x = rw (concat-append xs (x ∷ []), append-nil x, length-append (concat xs) x) refl

-- `more` has a piece in front of it.
abbrev pub IsPrefix : List Bytes → List Bytes → Type 0
IsPrefix xs ys = (more : List Bytes) × (ys ≡ xs ++ more)

module _ {E : Type 0} (base : StoredResult) (cap : ℕ) (source : List (Read E)) where
  -- What the buffer holds of the chunks that were read: all of them, or what first exceeded the cap.
  -- The chunk that first exceeded the cap is the last in the buffer.
  abbrev pub IsJustOver : List Bytes → Type 0
  IsJustOver chunks =
      (front : List Bytes) × (last : Bytes) × (chunks ≡ front ++ (last ∷ []))
      × (length (concat front) ≤ cap)

  abbrev pub IsCopy : Bool → List Bytes → ℕ → List Bytes → Type 0
  IsCopy false chunks size seen = (chunks ≡ seen) × (size ≤ cap)
  IsCopy true chunks size seen = (cap < size) × (IsJustOver chunks × IsPrefix chunks seen)

  -- What a client that is still open was sent, or one that is gone.
  abbrev pub IsSent : Bool → List Bytes → List Bytes → Type 0
  IsSent true sent seen = sent ≡ seen
  IsSent false sent seen = IsPrefix sent seen

  -- A settled result was made from the whole source.
  abbrev pub IsWhole : Option (Result E StoredResult) → List (Read E) → List Bytes → Type 0
  IsWhole none rest chunks = Unit
  IsWhole (some (err e)) rest chunks = Unit
  IsWhole (some (ok r)) rest chunks =
      (chunks_of rest ≡ []) × (r ≡ record base { body = some (concat chunks) })

  pub record IsSound (s : Capture E) : Type 0 where
    pub seen : List Bytes
    pub split : chunks_of source ≡ seen ++ chunks_of s.source
    pub counted : s.size ≡ length (concat s.chunks)
    pub copied : IsCopy s.over_cap s.chunks s.size seen
    pub relayed : IsSent s.client_open s.sent seen
    pub whole : IsWhole s.settled s.source s.chunks
    pub parted : s.draining ≡ true → s.client_open ≡ false

  pub start-IsSound : IsSound (start source)
  unfolding start
  start-IsSound = record {
    seen = [];
    split = refl;
    counted = refl;
    copied = (refl, omega arith);
    relayed = refl;
    whole = tt;
    parted = λ h. cc h;
  }

  pub IsPrefix-more : (xs ys zs : List Bytes) → IsPrefix xs ys → IsPrefix xs (ys ++ zs)
  IsPrefix-more xs ys zs (more, e) = (more ++ zs, ap (λ l. l ++ zs) e ∙ append_assoc xs more zs)

  pub IsSent-gone :
      (open' : Bool) (sent seen : List Bytes) → IsSent open' sent seen → IsSent false sent seen
  IsSent-gone true sent seen e = ([], sym e ∙ sym (append-nil sent))
  IsSent-gone false sent seen h = h

  -- `record` keeps the copy right for one more chunk and touches nothing else.
  pub record_chunk-IsCopy :
      (value : Bytes) (s : Capture E) (seen : List Bytes)
      → s.size ≡ length (concat s.chunks)
      → IsCopy s.over_cap s.chunks s.size seen
      → ((record_chunk base cap value s).size
          ≡ length (concat (record_chunk base cap value s).chunks))
        × IsCopy
            (record_chunk base cap value s).over_cap
            (record_chunk base cap value s).chunks
            (record_chunk base cap value s).size
            (seen ++ (value ∷ []))
  unfolding record_chunk
  record_chunk-IsCopy value s seen count copy = elim (Bool-cases s.over_cap) [
    | inl over ↦
        let copy' = rw over at copy in
        rw over (count, (copy'.0, (copy'.1.0, IsPrefix-more s.chunks seen (value ∷ []) copy'.1.1)))
    | inr under ↦
        let copy' = rw under at copy in
        let count' = ap (λ n. n + length value) count ∙ sym (concat-snoc s.chunks value) in
        let seen' = ap (λ l. l ++ (value ∷ [])) copy'.0 in
        elim (Bool-cases (ltb cap (s.size + length value))) [
          | inl over ↦
              rw (under, over)
                (
                  count',
                  (
                    ground arith,
                    (
                      (s.chunks, value, refl, omega (arith, count, copy'.1)),
                      ([], sym seen' ∙ sym (append-nil (s.chunks ++ (value ∷ [])))),
                    ),
                  ),
                )
          | inr still ↦ rw (under, still) (count', (seen', ground arith))
        ]
  ]

  pub record_chunk-rest :
      (value : Bytes) (s : Capture E)
      → ((record_chunk base cap value s).source ≡ s.source)
        × ((record_chunk base cap value s).client_open ≡ s.client_open)
        × ((record_chunk base cap value s).sent ≡ s.sent)
        × ((record_chunk base cap value s).settled ≡ s.settled)
        × ((record_chunk base cap value s).draining ≡ s.draining)
  unfolding record_chunk
  record_chunk-rest value s = elim (Bool-cases s.over_cap) [
    | inl over ↦ rw over (refl, refl, refl, refl, refl)
    | inr under ↦ rw under (refl, refl, refl, refl, refl)
  ]

  pub enqueue-IsSent :
      (accepts : Bool) (value : Bytes) (s : Capture E) (seen : List Bytes)
      → IsSent s.client_open s.sent seen
      → IsSent
          (enqueue base cap accepts value s).client_open
          (enqueue base cap accepts value s).sent
          (seen ++ (value ∷ []))
  unfolding enqueue
  enqueue-IsSent accepts value s seen sent = elim (Bool-cases s.client_open) [
    | inr gone ↦
        let sent' = rw gone at sent in rw gone (IsPrefix-more s.sent seen (value ∷ []) sent')
    | inl here ↦
        let sent' = rw here at sent in
        elim (Bool-cases accepts) [
          | inl taken ↦ rw (here, taken) (ap (λ l. l ++ (value ∷ [])) sent')
          | inr lost ↦ rw (here, lost) (value ∷ [], ap (λ l. l ++ (value ∷ [])) (sym sent'))
        ]
  ]

  pub enqueue-rest :
      (accepts : Bool) (value : Bytes) (s : Capture E)
      → ((enqueue base cap accepts value s).source ≡ s.source)
        × ((enqueue base cap accepts value s).chunks ≡ s.chunks)
        × ((enqueue base cap accepts value s).size ≡ s.size)
        × ((enqueue base cap accepts value s).over_cap ≡ s.over_cap)
        × ((enqueue base cap accepts value s).settled ≡ s.settled)
        × ((enqueue base cap accepts value s).draining ≡ s.draining)
  unfolding enqueue
  enqueue-rest accepts value s = ground arith

  -- One chunk more was read, the record being open.
  pub record_chunk-IsSound :
      (value : Bytes) (s : Capture E) (seen : List Bytes)
      → chunks_of source ≡ seen ++ (value ∷ chunks_of s.source)
      → s.size ≡ length (concat s.chunks)
      → IsCopy s.over_cap s.chunks s.size seen
      → IsSent s.client_open s.sent (seen ++ (value ∷ []))
      → s.settled ≡ none
      → (s.draining ≡ true → s.client_open ≡ false)
      → IsSound (record_chunk base cap value s)
  record_chunk-IsSound value s seen split count copy sent open' parted =
      let (src, cl, se, st, dr) = record_chunk-rest value s in
      let (count', copy') = record_chunk-IsCopy value s seen count copy in
      record {
        seen = seen ++ (value ∷ []);
        split = rw src (split ∙ sym (append_assoc seen (value ∷ []) (chunks_of s.source)));
        counted = count';
        copied = copy';
        relayed = rw (cl, se) sent;
        whole = rw (st, open') tt;
        parted = rw (dr, cl) parted;
      }
