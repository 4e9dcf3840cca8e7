-- ===== src/Relayer/Types/Keys.antt =====
-- The key string tells messages apart.
use perihelion.Prelude.{
  ℕ, zero, suc, ◌+◌, ◌/◌, ◌%◌, ◌<◌, ◌≡◌, refl, Bool, true, false, [], ◌∷◌, ◌++◌, ◌==◌,
  if◌then◌else◌, arith,
}
use perihelion.Prelude.Text.{Text}
use perihelion.Sdk.Decimal.{to_text, print_loop}
use perihelion.Sdk.Decimal.Print.{to_text_injective}
use perihelion.Relayer.Types.{
  MessageKey, MessageType, fill_instruction, fill_confirmed, cancel_intent, type_text,
  message_key_string,
}

-- No colon in the text.
unfoldable pub has_no_colon : Text → Bool
has_no_colon [] = true
has_no_colon (c ∷ s) = let rest = has_no_colon s in if c == b':' then false else rest

-- Two texts that end at their first colon.
split_colon :
    (s t u v : Text)
    → has_no_colon s ≡ true
    → has_no_colon t ≡ true
    → s ++ b':' ∷ u ≡ t ++ b':' ∷ v
    → (s ≡ t) × (u ≡ v)
unfolding has_no_colon
split_colon [] [] u v a b e = ground arith
split_colon [] (d ∷ t) u v a b e = absurd (ground arith)
split_colon (c ∷ s) [] u v a b e = absurd (ground arith)
split_colon (c ∷ s) (d ∷ t) u v a b e =
    ground (arith, split_colon s t u v (ground arith) (ground arith) (ground arith))

print_loop_digits :
    (fuel n : ℕ) (acc : Text)
    → has_no_colon acc ≡ true
    → has_no_colon (print_loop fuel n acc) ≡ true
unfolding print_loop has_no_colon
print_loop_digits zero n acc h = h
print_loop_digits (suc fuel) n acc h =
    let m : n % 10 < 10 = omega arith in
    ground (arith, print_loop_digits fuel (n / 10) ((b'0' + n % 10) ∷ acc) (ground (arith, m)))

to_text-has_no_colon : (n : ℕ) → has_no_colon (to_text n) ≡ true
unfolding to_text has_no_colon
to_text-has_no_colon n = print_loop_digits (n + 1) n [] refl

type_text-has_no_colon : (m : MessageType) → has_no_colon (type_text m) ≡ true
unfolding has_no_colon
type_text-has_no_colon fill_instruction = refl
type_text-has_no_colon fill_confirmed = refl
type_text-has_no_colon cancel_intent = refl

type_text-inj : (m n : MessageType) → type_text m ≡ type_text n → m ≡ n
type_text-inj fill_instruction fill_instruction e = refl
type_text-inj fill_instruction fill_confirmed e = absurd (ground arith)
type_text-inj fill_instruction cancel_intent e = absurd (ground arith)
type_text-inj fill_confirmed fill_instruction e = absurd (ground arith)
type_text-inj fill_confirmed fill_confirmed e = refl
type_text-inj fill_confirmed cancel_intent e = absurd (ground arith)
type_text-inj cancel_intent fill_instruction e = absurd (ground arith)
type_text-inj cancel_intent fill_confirmed e = absurd (ground arith)
type_text-inj cancel_intent cancel_intent e = refl

-- Two keys whose intent hashes have no colon, as hex texts have none, have the same string only if
-- all five fields agree.
pub message_key_string-injective :
    (j k : MessageKey)
    → has_no_colon j.intent_hash ≡ true
    → has_no_colon k.intent_hash ≡ true
    → message_key_string j ≡ message_key_string k
    → (j.src_eid ≡ k.src_eid)
      × (j.dst_eid ≡ k.dst_eid)
      × (j.intent_hash ≡ k.intent_hash)
      × (j.message_type ≡ k.message_type)
      × (j.nonce ≡ k.nonce)
unfolding message_key_string
message_key_string-injective j k hj hk e =
    let (a, e1) =
      split_colon (to_text j.src_eid) (to_text k.src_eid) _ _ (to_text-has_no_colon j.src_eid)
        (to_text-has_no_colon k.src_eid) e in
    let (b, e2) =
      split_colon (to_text j.dst_eid) (to_text k.dst_eid) _ _ (to_text-has_no_colon j.dst_eid)
        (to_text-has_no_colon k.dst_eid) e1 in
    let (c, e3) = split_colon j.intent_hash k.intent_hash _ _ hj hk e2 in
    let (d, e4) =
      split_colon (type_text j.message_type) (type_text k.message_type) _ _
        (type_text-has_no_colon j.message_type) (type_text-has_no_colon k.message_type) e3 in
    (
      to_text_injective _ _ a,
      to_text_injective _ _ b,
      c,
      type_text-inj _ _ d,
      to_text_injective _ _ e4,
    )
