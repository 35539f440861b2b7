-- ===== src/Webhooks/Verify/Tests.antt =====
-- Signed deliveries at concrete inputs.
use anyonce.Prelude.{◌*◌, Text, codes, true, false, some, [], ◌∷◌, ◌++◌, ◌≡◌, ◌↔◌, refl, length}
use anyonce.Webhooks.Verify.{Crypto, pos, standard_webhooks_verify}
use anyonce.Webhooks.Verify.Laws.{IsGenuine, standard_webhooks_verify_iff}

-- A signature that is the key before the content, and a time that is the length of its text.
abbrev plain : Crypto
plain = record {
  base64_to_bytes = λ t. some t;
  sign = λ key content. key ++ content;
  encode = λ t. t;
  whole_number = λ t. some (pos (length t));
  decimal = λ seconds. codes "2";
}

abbrev signature : Text
signature = codes "v0,x v1,KA.2.B"

runs :
    (standard_webhooks_verify plain
        (codes "K" ∷ [])
        300
        1000
        (some (codes "A"))
        (some (codes "11"))
        (some signature)
        (codes "B")
      ≡ true)
    × (standard_webhooks_verify plain
          (codes "K" ∷ [])
          300
          1000
          (some (codes "A"))
          (some (codes "11"))
          (some signature)
          (codes "C")
        ≡ false)
    × (standard_webhooks_verify plain
          (codes "K" ∷ [])
          300
          400000
          (some (codes "A"))
          (some (codes "11"))
          (some signature)
          (codes "B")
        ≡ false)
unfolding standard_webhooks_verify
runs = (refl, refl, refl)

standard_webhooks_verify_iff_example :
    (standard_webhooks_verify plain
        (codes "K" ∷ [])
        300
        1000
        (some (codes "A"))
        (some (codes "11"))
        (some signature)
        (codes "B")
      ≡ true)
    ↔ ((i : Text) × (t : Text) × (s : Text) × (some (codes "A") ≡ some i)
        × (some (codes "11") ≡ some t)
        × (some signature ≡ some s)
        × IsGenuine plain (codes "K" ∷ []) (300 * 1000) 1000 i t s (codes "B"))
standard_webhooks_verify_iff_example =
    standard_webhooks_verify_iff plain (codes "K" ∷ []) 300 1000 (some (codes "A"))
      (some (codes "11")) (some signature) (codes "B")
