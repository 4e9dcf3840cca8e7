-- ===== src/Sdk/Units/Word.antt =====
-- The 32-byte word of an EVM address.
use perihelion.Prelude.{
  ℕ, zero, suc, ◌+◌, ◌*◌, ◌≡◌, refl, sym, ap, ◌∙◌, true, ◌&&◌, List, [], ◌∷◌, ◌++◌, append_assoc,
  append-nil, length, length-append, drop, ◌==◌, arith, both_of, if-eq, inl, inr,
}
use perihelion.Prelude.Text.{Text, is_hex_digit, all_units}
use perihelion.Prelude.Result.{ok}
use perihelion.Sdk.Signature.{hex_unit}
use perihelion.Sdk.Validate.{is_hex_of}
use perihelion.Sdk.Bytes.{repeated, zeros, hex_bytes}
use perihelion.Sdk.Units.{set_at, write_pairs, evm_address_to_bytes32}

set_at-append :
    (done rest : List ℕ) (b : ℕ)
    → set_at (length done) b (done ++ 0 ∷ rest) ≡ (done ++ b ∷ []) ++ rest
unfolding set_at
set_at-append [] rest b = refl
set_at-append (x ∷ done) rest b = ap (λ r. x ∷ r) (set_at-append done rest b)

write_pairs_lem :
    (k : ℕ) (done : List ℕ) (hex : Text)
    → length hex ≡ 2 * k
    → all_units is_hex_digit hex ≡ true
    → (write_pairs (length done) hex (done ++ zeros k) ≡ done ++ hex_bytes hex)
      × (length (hex_bytes hex) ≡ k)
unfolding write_pairs hex_bytes all_units repeated
write_pairs_lem zero done [] l h = (append-nil done ∙ sym (append-nil done), refl)
write_pairs_lem (suc k) done [] l h = absurd (omega arith)
write_pairs_lem k done (c ∷ []) l h = absurd (omega arith)
write_pairs_lem zero done (c ∷ d ∷ hex) l h = absurd (omega arith)
write_pairs_lem (suc k) done (c ∷ d ∷ hex) l h =
    let (hc, more) = both_of (is_hex_digit c) _ h in
    let (hd, rest) = both_of (is_hex_digit d) _ more in
    let b = hex_unit c * 16 + hex_unit d in
    let next : length done + 1 ≡ length (done ++ b ∷ []) = sym (length-append done (b ∷ [])) in
    let (ih, size) = write_pairs_lem k (done ++ b ∷ []) hex (omega arith) rest in
    (
      rw (hc, hd, set_at-append done (zeros k) b, next)
          (ih ∙ append_assoc done (b ∷ []) (hex_bytes hex)),
      rw (hc, hd) (ap suc size),
    )

-- The word of an address is twelve zeros and then the twenty bytes that its hexadecimal digits
-- denote.
pub evm_address_to_bytes32_word :
    (address : Text) (out : List ℕ)
    → evm_address_to_bytes32 address ≡ ok out
    → (out ≡ zeros 12 ++ hex_bytes (drop 2 address)) × (length (hex_bytes (drop 2 address)) ≡ 20)
unfolding evm_address_to_bytes32 is_hex_of repeated
evm_address_to_bytes32_word [] out e = cc
evm_address_to_bytes32_word (c ∷ []) out e = cc
evm_address_to_bytes32_word (c ∷ d ∷ hex) out e =
    elim (if-eq (c == b'0' && d == b'x' && length hex == 40 && all_units is_hex_digit hex) e) [
      | inr (_, f) ↦ cc
      | inl (t, f) ↦
          let size : length hex ≡ 2 * 20 = ground arith in
          let (word, bytes) = write_pairs_lem 20 (zeros 12) hex size (ground arith) in
          (cc (word, f), bytes)
    ]
