-- ===== src/Sdk/Signature.antt =====
-- `verifyIntent` of sdk/src/intent.ts. The typed-data hash, the recovery of a signer and the RPC
-- client are viem's: the first two are parameters, the client is a record of its two calls. A call
-- that throws gives `none`; so does `verifyIntent` itself.
use perihelion.Prelude.{
  ℕ, ◌+◌, ◌-◌, ◌*◌, ◌≤◌, ◌≡◌, Bool, true, false, not, [], ◌∷◌, Option, none, some, length, take,
  drop, ltb, leb, ◌==◌, if◌then◌else◌, arith, Option-cases, inl, inr, if-eq, ==→eq, not_ltb→le,
}
use mathlib.Core.Option.{some-injective}
use perihelion.Prelude.Text.{
  Text, codes, text_eq, eq_of_text_eq, text_discrete, to_lower_case, is_hex_digit,
}
use perihelion.Sdk.Types.{Intent}
use perihelion.Sdk.Json.{Value, str}

-- `perihelionDomain`, whose name and version are constant.
pub record Domain : Type 0 where
  pub chain_id : ℕ
  pub verifying_contract : Text

pub record Client : Type 0 where
  pub get_code : Text → Option (Option Text)
  pub is_valid_signature : Text → Text → Text → Option Value

pub record VerifyOptions : Type 0 where
  pub client : Option Client
  pub is_contract : Option Bool

abbrev pub secp256k1_half_n : ℕ
secp256k1_half_n = 0x7fffffffffffffffffffffffffffffff5d576e7357a4501ddfe92f46681b20a0

abbrev pub erc1271_magic_value : Text
erc1271_magic_value = codes "0x1626ba7e"

unfoldable pub hex_unit : ℕ → ℕ
hex_unit c = if leb c b'9' then c - b'0' else if leb c b'F' then c - b'A' + 10 else c - b'a' + 10

-- `BigInt("0x" + s)` of a text that is not empty.
unfoldable pub hex_value : ℕ → Text → Option ℕ
unfolding is_hex_digit hex_unit
hex_value acc [] = some acc
hex_value acc (c ∷ s) =
    let rest = hex_value (acc * 16 + hex_unit c) s in if is_hex_digit c then rest else none

-- `code !== undefined && code !== "0x"`; a failing call counts as no contract.
unfoldable pub has_code : Option (Option Text) → Bool
unfolding text_discrete
has_code none = false
has_code (some none) = false
has_code (some (some code)) = not (text_eq code (codes "0x"))

unfoldable pub detects_contract : Intent → VerifyOptions → Bool
unfolding has_code
detects_contract intent o = elim o.is_contract [
  | some b ↦ b
  | none ↦ elim o.client [ none ↦ false | some c ↦ has_code (c.get_code intent.user) ]
]

unfoldable pub is_magic : Option Value → Bool
unfolding to_lower_case text_discrete
is_magic (some (str s)) = text_eq (to_lower_case s) erc1271_magic_value
is_magic _ = false

module _ (hash_typed_data : Intent → Domain → Text)
    (recover : Intent → Domain → Text → Option Text) where
  unfoldable pub hash_intent : Intent → Domain → Text
  hash_intent intent domain = hash_typed_data intent domain

  -- The ECDSA path.
  unfoldable pub verify_eoa : Intent → Text → Domain → Option Bool
  verify_eoa intent signature domain =
      if length signature == 132
      then elim (hex_value 0 (take 64 (drop 66 signature))) [
        | none ↦ none
        | some s ↦
            if ltb secp256k1_half_n s then some false else elim (recover intent domain signature) [
              | none ↦ none
              | some signer ↦ some (text_eq (to_lower_case signer) (to_lower_case intent.user))
            ]
      ]
      else some false

  unfoldable pub verify_intent : Intent → Text → Domain → VerifyOptions → Option Bool
  verify_intent intent signature domain o =
      if detects_contract intent o
      then elim o.client [
        | none ↦ some false
        | some c ↦
            some (is_magic (c.is_valid_signature intent.user (hash_intent intent domain) signature))
      ]
      else verify_eoa intent signature domain

  -- What the ECDSA path accepts.
  abbrev pub IsCanonical : Intent → Text → Domain → Type 0
  IsCanonical intent signature domain =
      (length signature ≡ 132)
      × ((s : ℕ) × (hex_value 0 (take 64 (drop 66 signature)) ≡ some s) × (s ≤ secp256k1_half_n))
      × ((signer : Text) × (recover intent domain signature ≡ some signer)
          × (to_lower_case signer ≡ to_lower_case intent.user))

  verify_eoa-IsCanonical :
      (intent : Intent) (signature : Text) (domain : Domain)
      → verify_eoa intent signature domain ≡ some true
      → IsCanonical intent signature domain
  unfolding verify_eoa
  verify_eoa-IsCanonical intent signature domain h = elim (if-eq (length signature == 132) h) [
    | inr (_, e) ↦ cc
    | inl (n, e) ↦ elim (Option-cases (hex_value 0 (take 64 (drop 66 signature)))) [
      | inl f ↦ cc (rw f at e)
      | inr (s, f) ↦ elim (if-eq (ltb secp256k1_half_n s) (rw f at e)) [
        | inl (_, g) ↦ cc
        | inr (low, g) ↦ elim (Option-cases (recover intent domain signature)) [
          | inl k ↦ cc (rw k at g)
          | inr (who, k) ↦ (
            ==→eq _ _ n,
            (s, f, not_ltb→le _ _ low),
            (who, k, eq_of_text_eq _ _ (some-injective _ _ (rw k at g))),
          )
        ]
      ]
    ]
  ]

  by_contract :
      (intent : Intent) (signature : Text) (domain : Domain) (o : VerifyOptions)
      → verify_intent intent signature domain o ≡ some true
      → detects_contract intent o ≡ true
      → (c : Client) × (o.client ≡ some c)
        × (is_magic (c.is_valid_signature intent.user (hash_intent intent domain) signature) ≡ true)
  unfolding verify_intent
  by_contract intent signature domain o h contract = elim (Option-cases o.client) [
    | inl n ↦ absurd (ground arith)
    | inr (c, e) ↦ (c, e, ground arith)
  ]

  -- A signature is accepted for an account without code only if it has 65 bytes, its s is in the
  -- lower half of the curve order, and it recovers to the user of the intent up to letter case.
  -- For a contract account it is accepted only if the contract answers with the magic value.
  pub verify_intent_accepts :
      (intent : Intent) (signature : Text) (domain : Domain) (o : VerifyOptions)
      → verify_intent intent signature domain o ≡ some true
      → (detects_contract intent o ≡ false → IsCanonical intent signature domain)
        × (detects_contract intent o ≡ true
            → (c : Client) × (o.client ≡ some c)
              × (is_magic (c.is_valid_signature intent.user (hash_intent intent domain) signature)
                  ≡ true))
  unfolding verify_intent
  verify_intent_accepts intent signature domain o h = (
    (λ eoa. verify_eoa-IsCanonical intent signature domain (ground arith)),
    by_contract intent signature domain o h,
  )
