-- ===== src/Codec/Plain.antt =====
-- A concrete pair of functions that write result metadata as a list of numbers and read it back, for the tests
-- to stand for `JSON`.
use anyonce.Prelude.{ℕ, zero, suc, Text, Option, none, some, List, [], ◌∷◌, ◌≡◌, refl, ap, length}
use anyonce.Types.{ResultKind, http, message, MessageOutcome, ErrorInfo}
use anyonce.Codec.{Json, ResultMeta}

pub record Plain (A : Type 0) : Type 0 where
  pub write : A → Text → Text
  pub read : Text → A × Text
  pub read-write : (a : A) (rest : Text) → read (write a rest) ≡ (a, rest)

abbrev read_nat : Text → ℕ × Text
read_nat [] = (0, [])
read_nat (n ∷ rest) = (n, rest)

abbrev plain_nat : Plain ℕ
plain_nat = record { write = λ n rest. n ∷ rest; read = read_nat; read-write = λ n rest. refl }

module _ {A : Type 0} (a : Plain A) where
  abbrev write_all : List A → Text → Text
  write_all [] rest = rest
  write_all (x ∷ xs) rest = a.write x (write_all xs rest)

  abbrev read_all : ℕ → Text → List A × Text
  read_all zero s = ([], s)
  read_all (suc n) s = let rest = read_all n (a.read s).1 in ((a.read s).0 ∷ rest.0, rest.1)

  pub read_all-write_all :
      (xs : List A) (rest : Text) → read_all (length xs) (write_all xs rest) ≡ (xs, rest)
  read_all-write_all [] rest = refl
  read_all-write_all (x ∷ xs) rest = rw (a.read-write, read_all-write_all xs rest) refl

  abbrev plain_list : Plain (List A)
  plain_list = record {
    write = λ xs rest. length xs ∷ write_all xs rest;
    read = λ s. read_all (read_nat s).0 (read_nat s).1;
    read-write = read_all-write_all;
  }

  abbrev write_option : Option A → Text → Text
  write_option none rest = 0 ∷ rest
  write_option (some x) rest = 1 ∷ a.write x rest

  abbrev read_option : Text → Option A × Text
  read_option [] = (none, [])
  read_option (zero ∷ s) = (none, s)
  read_option (suc n ∷ s) = (some (a.read s).0, (a.read s).1)

  pub read_option-write_option :
      (x : Option A) (rest : Text) → read_option (write_option x rest) ≡ (x, rest)
  read_option-write_option none rest = refl
  read_option-write_option (some x) rest = rw a.read-write refl

  abbrev plain_option : Plain (Option A)
  plain_option = record {
    write = write_option;
    read = read_option;
    read-write = read_option-write_option;
  }

module _ {A B : Type 0} (a : Plain A) (b : Plain B) where
  abbrev plain_pair : Plain (A × B)
  plain_pair = record {
    write = λ x rest. a.write x.0 (b.write x.1 rest);
    read = λ s. let rest = b.read (a.read s).1 in (((a.read s).0, rest.0), rest.1);
    read-write = λ x rest. rw (a.read-write, b.read-write) refl;
  }

-- A type whose values are those of another in other clothes.
module _ {A B : Type 0} (b : Plain B) (to : A → B) (of : B → A)
    (inverse : (x : A) → of (to x) ≡ x) where
  abbrev plain_map : Plain A
  plain_map = record {
    write = λ x rest. b.write (to x) rest;
    read = λ s. (of (b.read s).0, (b.read s).1);
    read-write = λ x rest. rw (b.read-write, inverse) refl;
  }

abbrev of_kind : ResultKind → ℕ
of_kind http = 0
of_kind message = 1

abbrev to_kind : ℕ → ResultKind
to_kind zero = http
to_kind (suc n) = message

pub kind-inverse : (x : ResultKind) → to_kind (of_kind x) ≡ x
kind-inverse http = refl
kind-inverse message = refl

abbrev of_outcome : MessageOutcome → ℕ
of_outcome MessageOutcome.ok = 0
of_outcome MessageOutcome.error = 1

abbrev to_outcome : ℕ → MessageOutcome
to_outcome zero = MessageOutcome.ok
to_outcome (suc n) = MessageOutcome.error

pub outcome-inverse : (x : MessageOutcome) → to_outcome (of_outcome x) ≡ x
outcome-inverse MessageOutcome.ok = refl
outcome-inverse MessageOutcome.error = refl

abbrev plain_text : Plain Text
plain_text = plain_list plain_nat

abbrev plain_error : Plain ErrorInfo
plain_error =
    plain_map (plain_pair plain_text plain_text) (λ (e : ErrorInfo). (e.name, e.message))
      (λ p. record { name = p.0; message = p.1 }) (λ e. refl)

abbrev Parts : Type 0
Parts =
    ResultKind
    × (Option ℕ × (Option (List (Text × Text)) × (Option MessageOutcome × Option ErrorInfo)))

abbrev plain_parts : Plain Parts
plain_parts = plain_pair (plain_map plain_nat of_kind to_kind kind-inverse) (
    plain_pair (plain_option plain_nat) (
      plain_pair (plain_option (plain_list (plain_pair plain_text plain_text))) (
        plain_pair (plain_option (plain_map plain_nat of_outcome to_outcome outcome-inverse))
          (plain_option plain_error))))

abbrev parts : ResultMeta → Parts
parts m = (m.kind, (m.status, (m.headers, (m.outcome, m.error))))

abbrev whole : Parts → ResultMeta
whole p = record {
  kind = p.0;
  status = p.1.0;
  headers = p.1.1.0;
  outcome = p.1.1.1.0;
  error = p.1.1.1.1;
}

abbrev plain_meta : Plain ResultMeta
plain_meta = plain_map plain_parts parts whole (λ m. refl)

abbrev pub plain_json : Json
plain_json = record {
  stringify = λ m. plain_meta.write m [];
  parse = λ s. (plain_meta.read s).0;
  parse-stringify = λ m. ap (λ x. x.0) (plain_meta.read-write m []);
}
