-- ===== src/DurableObjects/Sweeps.antt =====
-- What the statements on the sweep table do to the keys that it lists and to the times in it.
use anyonce.Prelude.{
  ℕ, ◌≤◌, ◌<◌, Text, text_eq, text_eq_iff, Bool, true, false, ◌&&◌, ◌||◌, Option, none, some, List,
  [], ◌∷◌, ◌≡◌, refl, sym, subst, arith, All, Bool-cases, inl, inr, leb, ◌⊎◌,
}
use anyonce.Codec.{RecordRow}
use anyonce.Sql.{Table, select_sql}
use anyonce.Sql.Laws.{Apart}
use anyonce.DurableObjects.{
  SweepRow, sweep_upsert, sweep_remove, sweep_prune, sweep_due, sweep_next, alarm_by, sooner,
}

-- The sweep table has a row for a scope and key.
abbrev pub is_listed : Text → Text → List SweepRow → Bool
is_listed scope key [] = false
is_listed scope key (s ∷ ss) =
    let rest = is_listed scope key ss in (text_eq s.scope scope && text_eq s.key key) || rest

-- The alarm is set, to a time no later than this one.
abbrev pub Covers : Option ℕ → ℕ → Type 0
Covers none wall = ⊥
Covers (some at) wall = at ≤ wall

abbrev pub AllCovered : Option ℕ → List SweepRow → Type 0
AllCovered at ss = All (λ (s : SweepRow). Covers at s.expires_wall) ss

pub same_or_Apart :
    (scope key scope' key' : Text) → ((scope ≡ scope') × (key ≡ key')) ⊎ Apart scope key scope' key'
same_or_Apart scope key scope' key' = elim (Bool-cases (text_eq scope scope')) [
  | inl hs ↦ elim (Bool-cases (text_eq key key')) [
    | inl hk ↦ inl ((text_eq_iff _ _).0 hs, (text_eq_iff _ _).0 hk)
    | inr hk ↦ inr (inr (ground (arith, text_eq_iff key key')))
  ]
  | inr hs ↦ inr (inl (ground (arith, text_eq_iff scope scope')))
]

module _ (scope key : Text) where
  pub is_listed-upsert_self :
      (wall : ℕ) (ss : List SweepRow) → is_listed scope key (sweep_upsert scope key wall ss) ≡ true
  unfolding sweep_upsert
  is_listed-upsert_self wall [] = ground (arith, text_eq_iff scope scope, text_eq_iff key key)
  is_listed-upsert_self wall (s ∷ ss) =
      ground
        (arith, text_eq_iff s.scope scope, text_eq_iff s.key key, is_listed-upsert_self wall ss)

  pub is_listed-prune :
      (t : Table) (r : RecordRow) (ss : List SweepRow)
      → select_sql scope key t ≡ some r
      → is_listed scope key ss ≡ true
      → is_listed scope key (sweep_prune t ss) ≡ true
  unfolding sweep_prune
  is_listed-prune t r [] at h = h
  is_listed-prune t r (s ∷ ss) at h =
      elim (Bool-cases (text_eq s.scope scope && text_eq s.key key)) [
        | inl here ↦
            let hs : s.scope ≡ scope = ground (arith, text_eq_iff s.scope scope) in
            let hk : s.key ≡ key = ground (arith, text_eq_iff s.key key) in
            let found : select_sql s.scope s.key t ≡ some r = rw (hs, hk) at in
            rw found (rw here refl)
        | inr there ↦ ground (arith, is_listed-prune t r ss at)
      ]

  module _ (scope' key' : Text) where
    pub is_listed-upsert :
        (wall : ℕ) (ss : List SweepRow)
        → is_listed scope' key' ss ≡ true
        → is_listed scope' key' (sweep_upsert scope key wall ss) ≡ true
    unfolding sweep_upsert
    is_listed-upsert wall [] h = cc
    is_listed-upsert wall (s ∷ ss) h = ground (arith, is_listed-upsert wall ss)

    pub is_listed-remove :
        (ss : List SweepRow)
        → Apart scope key scope' key'
        → is_listed scope' key' ss ≡ true
        → is_listed scope' key' (sweep_remove scope key ss) ≡ true
    unfolding sweep_remove
    is_listed-remove [] apart h = h
    is_listed-remove (s ∷ ss) apart h = ground (
      arith,
      text_eq_iff s.scope scope,
      text_eq_iff s.key key,
      text_eq_iff s.scope scope',
      text_eq_iff s.key key',
      is_listed-remove ss apart,
    )

  pub AllCovered-remove :
      (at : Option ℕ) (ss : List SweepRow)
      → AllCovered at ss
      → AllCovered at (sweep_remove scope key ss)
  unfolding sweep_remove
  AllCovered-remove at [] h = h
  AllCovered-remove at (s ∷ ss) (c, h) = ground (arith, AllCovered-remove at ss h)

  pub AllCovered-upsert :
      (at : Option ℕ) (wall : ℕ) (ss : List SweepRow)
      → Covers at wall
      → AllCovered at ss
      → AllCovered at (sweep_upsert scope key wall ss)
  unfolding sweep_upsert
  AllCovered-upsert at wall [] c h = (c, tt)
  AllCovered-upsert at wall (s ∷ ss) c (c', h) = ground (arith, AllCovered-upsert at wall ss c h)

pub AllCovered-prune :
    (at : Option ℕ) (t : Table) (ss : List SweepRow)
    → AllCovered at ss
    → AllCovered at (sweep_prune t ss)
unfolding sweep_prune
AllCovered-prune at t [] h = h
AllCovered-prune at t (s ∷ ss) (c, h) = ground (arith, AllCovered-prune at t ss h)

pub alarm_by-Covers : (wall : ℕ) (at : Option ℕ) → Covers (alarm_by wall at) wall
unfolding alarm_by
alarm_by-Covers wall none = ground arith
alarm_by-Covers wall (some at) = ground arith

Covers-alarm_by : (wall : ℕ) (at : Option ℕ) (w : ℕ) → Covers at w → Covers (alarm_by wall at) w
unfolding alarm_by
Covers-alarm_by wall none w c = absurd c
Covers-alarm_by wall (some at) w c = ground arith

pub AllCovered-alarm_by :
    (wall : ℕ) (at : Option ℕ) (ss : List SweepRow)
    → AllCovered at ss
    → AllCovered (alarm_by wall at) ss
AllCovered-alarm_by wall at [] h = h
AllCovered-alarm_by wall at (s ∷ ss) (c, h) =
    (Covers-alarm_by wall at s.expires_wall c, AllCovered-alarm_by wall at ss h)

sooner-Covers : (wall : ℕ) (at : Option ℕ) → Covers (sooner wall at) wall
sooner-Covers wall none = ground arith
sooner-Covers wall (some at) = ground arith

Covers-sooner : (wall : ℕ) (at : Option ℕ) (w : ℕ) → Covers at w → Covers (sooner wall at) w
Covers-sooner wall none w c = absurd c
Covers-sooner wall (some at) w c = ground arith

AllCovered-sooner :
    (wall : ℕ) (at : Option ℕ) (ss : List SweepRow)
    → AllCovered at ss
    → AllCovered (sooner wall at) ss
AllCovered-sooner wall at [] h = h
AllCovered-sooner wall at (s ∷ ss) (c, h) =
    (Covers-sooner wall at s.expires_wall c, AllCovered-sooner wall at ss h)

pub sweep_next-covers : (ss : List SweepRow) → AllCovered (sweep_next ss) ss
unfolding sweep_next
sweep_next-covers [] = tt
sweep_next-covers (s ∷ ss) =
    let rest = sweep_next-covers ss in
    (
      sooner-Covers s.expires_wall (sweep_next ss),
      AllCovered-sooner s.expires_wall (sweep_next ss) ss rest,
    )

-- Each listed time that has passed is listed in `due`.
abbrev pub AllDue : ℕ → List SweepRow → List SweepRow → Type 0
AllDue wall due ss =
    All (λ (s : SweepRow). s.expires_wall ≤ wall → is_listed s.scope s.key due ≡ true) ss

AllDue-cons :
    (wall : ℕ) (d : SweepRow) (due ss : List SweepRow)
    → AllDue wall due ss
    → AllDue wall (d ∷ due) ss
AllDue-cons wall d due [] h = tt
AllDue-cons wall d due (s ∷ ss) (c, h) =
    ((λ late. ground (arith, c late)), AllDue-cons wall d due ss h)

pub sweep_due-AllDue : (wall : ℕ) (ss : List SweepRow) → AllDue wall (sweep_due wall ss) ss
unfolding sweep_due
sweep_due-AllDue wall [] = tt
sweep_due-AllDue wall (s ∷ ss) =
    let rest = sweep_due-AllDue wall ss in
    elim (Bool-cases (leb s.expires_wall wall)) [
      | inl late ↦
          let here : sweep_due wall (s ∷ ss) ≡ s ∷ sweep_due wall ss = rw (sweep_due, late) refl in
          subst (λ due. AllDue wall due (s ∷ ss)) (sym here)
            (
              (λ _. ground (arith, text_eq_iff s.scope s.scope, text_eq_iff s.key s.key)),
              AllDue-cons wall s (sweep_due wall ss) ss rest,
            )
      | inr early ↦
          let here : sweep_due wall (s ∷ ss) ≡ sweep_due wall ss = rw (sweep_due, early) refl in
          subst (λ due. AllDue wall due (s ∷ ss)) (sym here) ((λ late. absurd (ground arith)), rest)
    ]

pub AllDue-remove :
    (wall : ℕ) (d : SweepRow) (due ss : List SweepRow)
    → AllDue wall (d ∷ due) ss
    → AllDue wall due (sweep_remove d.scope d.key ss)
unfolding sweep_remove
AllDue-remove wall d due [] h = tt
AllDue-remove wall d due (s ∷ ss) (c, h) =
    let rest = AllDue-remove wall d due ss h in
    elim (Bool-cases (text_eq s.scope d.scope && text_eq s.key d.key)) [
      | inl same ↦ rw same rest
      | inr other ↦ rw other (
        (λ late. ground (
          arith,
          c late,
          text_eq_iff s.scope d.scope,
          text_eq_iff s.key d.key,
          text_eq_iff d.scope s.scope,
          text_eq_iff d.key s.key,
        )),
        rest,
      )
    ]

pub AllDue-none :
    (wall : ℕ) (ss : List SweepRow)
    → AllDue wall [] ss
    → All (λ (s : SweepRow). wall < s.expires_wall) ss
AllDue-none wall [] h = tt
AllDue-none wall (s ∷ ss) (c, h) = (
  (elim (Bool-cases (leb s.expires_wall wall)) [
    | inl late ↦ absurd (cc (c (ground arith)))
    | inr early ↦ ground arith
  ]),
  AllDue-none wall ss h,
)
