-- ===== src/Dict/Laws.antt =====
-- The laws of the dictionary, each in the form of a lookup.
use anyonce.Prelude.{
  ◌+◌, Text, text_eq, text_eq_iff, text_eq_refl, Bool, Option, none, some, List, [], ◌∷◌, ◌≡◌, ◌≢◌,
  refl, arith, length, if◌then◌else◌,
}
use anyonce.Dict.{get, put, delete, keep_only, count_not}

-- No key stands twice.
abbrev pub Fresh {ℓ} : {V : Type ℓ} → Text → List (Text × V) → Type 0
Fresh k [] = Unit
Fresh k ((j, v) ∷ m) = (j ≢ k) × Fresh k m

abbrev pub DistinctKeys {ℓ} : {V : Type ℓ} → List (Text × V) → Type 0
DistinctKeys [] = Unit
DistinctKeys ((j, v) ∷ m) = Fresh j m × DistinctKeys m

-- What a sweep leaves of one entry.
abbrev pub kept {ℓ} : {V : Type ℓ} → (V → Bool) → Option V → Option V
kept p none = none
kept p (some v) = if p v then some v else none

module _ {ℓ} {V : Type ℓ} where
  pub get-put :
      (k j : Text) (v : V) (m : List (Text × V))
      → get j (put k v m) ≡ (if text_eq k j then some v else get j m)
  unfolding get put
  get-put k j v [] = refl
  get-put k j v ((i, w) ∷ m) =
      ground (arith, text_eq_iff k j, text_eq_iff i k, text_eq_iff i j, get-put k j v m)

  pub get-delete :
      (k j : Text) (m : List (Text × V))
      → get j (delete k m) ≡ (if text_eq k j then none else get j m)
  unfolding get delete
  get-delete k j [] = ground arith
  get-delete k j ((i, w) ∷ m) =
      ground (arith, text_eq_iff k j, text_eq_iff i k, text_eq_iff i j, get-delete k j m)

  pub get_of_Fresh : (k : Text) (m : List (Text × V)) → Fresh k m → get k m ≡ none
  unfolding get
  get_of_Fresh k [] h = refl
  get_of_Fresh k ((j, v) ∷ m) (ne, h) = ground (arith, get_of_Fresh k m h, text_eq_iff j k)

  pub Fresh-put :
      (k j : Text) (v : V) (m : List (Text × V)) → k ≢ j → Fresh j m → Fresh j (put k v m)
  unfolding put
  Fresh-put k j v [] ne h = (ne, tt)
  Fresh-put k j v ((i, w) ∷ m) ne h = ground (arith, Fresh-put k j v m ne, text_eq_iff i k)

  pub Fresh-delete : (k j : Text) (m : List (Text × V)) → Fresh j m → Fresh j (delete k m)
  unfolding delete
  Fresh-delete k j [] h = tt
  Fresh-delete k j ((i, w) ∷ m) h = ground (arith, Fresh-delete k j m)

  pub Fresh-keep_only :
      (p : V → Bool) (j : Text) (m : List (Text × V)) → Fresh j m → Fresh j (keep_only p m)
  unfolding keep_only
  Fresh-keep_only p j [] h = tt
  Fresh-keep_only p j ((i, w) ∷ m) h = ground (arith, Fresh-keep_only p j m)

  pub DistinctKeys-put :
      (k : Text) (v : V) (m : List (Text × V)) → DistinctKeys m → DistinctKeys (put k v m)
  unfolding put
  DistinctKeys-put k v [] h = (tt, tt)
  DistinctKeys-put k v ((i, w) ∷ m) (f, h) =
      ground (arith, Fresh-put k i v m, DistinctKeys-put k v m h, text_eq_iff i k)

  pub DistinctKeys-delete :
      (k : Text) (m : List (Text × V)) → DistinctKeys m → DistinctKeys (delete k m)
  unfolding delete
  DistinctKeys-delete k [] h = tt
  DistinctKeys-delete k ((i, w) ∷ m) (f, h) =
      ground (arith, Fresh-delete k i m f, DistinctKeys-delete k m h)

  pub DistinctKeys-keep_only :
      (p : V → Bool) (m : List (Text × V)) → DistinctKeys m → DistinctKeys (keep_only p m)
  unfolding keep_only
  DistinctKeys-keep_only p [] h = tt
  DistinctKeys-keep_only p ((i, w) ∷ m) (f, h) =
      ground (arith, Fresh-keep_only p i m f, DistinctKeys-keep_only p m h)

  pub get-keep_only :
      (p : V → Bool) (k : Text) (m : List (Text × V))
      → DistinctKeys m
      → get k (keep_only p m) ≡ kept p (get k m)
  unfolding get keep_only
  get-keep_only p k [] h = refl
  get-keep_only p k ((i, w) ∷ m) (f, h) =
      ground (arith, get-keep_only p k m h, get_of_Fresh i m f, text_eq_iff i k)

  pub length-keep_only :
      (p : V → Bool) (m : List (Text × V)) → length (keep_only p m) + count_not p m ≡ length m
  unfolding keep_only count_not
  length-keep_only p [] = refl
  length-keep_only p ((i, w) ∷ m) = ground (arith, length-keep_only p m)

  module _ (k : Text) (m : List (Text × V)) where
    pub get-put_self : (r : V) → get k (put k r m) ≡ some r
    get-put_self r = rw (get-put, text_eq_refl)

    pub get-delete_self : get k (delete k m) ≡ none
    get-delete_self = rw (get-delete, text_eq_refl)

    pub get-put_ne : (j : Text) (r : V) → k ≢ j → get j (put k r m) ≡ get j m
    get-put_ne j r ne = ground (arith, get-put k j r m, text_eq_iff k j)

    pub get-delete_ne : (j : Text) → k ≢ j → get j (delete k m) ≡ get j m
    get-delete_ne j ne = ground (arith, get-delete k j m, text_eq_iff k j)
