-- ===== src/Relayer/Wire/Layout.antt =====
-- Where the fields of a FillInstruction stand.
use perihelion.Prelude.{
  ℕ, zero, suc, ◌+◌, ◌-◌, ◌*◌, ◌≤◌, ◌≡◌, refl, ap, sym, ◌∙◌, Bool, true, false, ◌||◌, not, List, [],
  ◌∷◌, ◌++◌, length, drop, length-append, append_assoc, ltb, leb, arith, subst, both_of,
}
use perihelion.Prelude.Int.{ℤ, pos, negsuc, pos_part, ltb_ℤ}
use perihelion.Prelude.Text.{Text, codes, is_hex_digit, all_units, text_discrete}
use perihelion.Prelude.Result.{ok, require, ◌>>◌}
use perihelion.Sdk.Bytes.{
  zeros, copy_at, hex_bytes, to_hex, hex_text, pad_start, be_bytes, be_value,
}
use perihelion.Sdk.Bytes.Laws.{length-repeated, repeated-add, copy_at-append, number_field}
use perihelion.Relayer.Wire.{
  is_hex_string, fill_bytes, canonical_fill_instruction, invalid_intent_hash, invalid_solver,
  invalid_eid, bad_amount, bad_deadline, too_wide,
}

stage :
    (done src : List ℕ) (o m n : ℕ)
    → length done ≡ o
    → length src + m ≡ n
    → copy_at o src (done ++ zeros n) ≡ (done ++ src) ++ zeros m
stage done src o m n ho hn =
    subst (λ (p : ℕ). copy_at p src (done ++ zeros n) ≡ (done ++ src) ++ zeros m) ho
      (subst (λ (q : ℕ). copy_at (length done) src (done ++ zeros q) ≡ (done ++ src) ++ zeros m) hn
        (copy_at-append done src m))

gap : (done : List ℕ) (g m n : ℕ) → g + m ≡ n → done ++ zeros n ≡ (done ++ zeros g) ++ zeros m
gap done g m n h =
    ap (λ (q : ℕ). done ++ zeros q) (sym h)
    ∙ ap (λ r. done ++ r) (repeated-add 0 g m)
    ∙ sym (append_assoc done (zeros g) (zeros m))

-- The fields one behind the other, the two texts filled up with zeros.
abbrev pub fields_of : List ℕ → List ℕ → List ℕ → List ℕ → List ℕ → List ℕ → List ℕ → List ℕ
fields_of hash eid recipient asset amount deadline solver =
    let head = ((1 ∷ 1 ∷ []) ++ hash) ++ eid in
    let to_account = (head ++ recipient) ++ zeros (56 - length recipient) in
    let of_asset = (to_account ++ asset) ++ zeros (69 - length asset) in
    ((((of_asset ++ amount) ++ deadline) ++ zeros 12) ++ solver) ++ zeros 8

length-hex_bytes :
    (m : ℕ) (s : Text)
    → length s ≡ 2 * m
    → all_units is_hex_digit s ≡ true
    → length (hex_bytes s) ≡ m
unfolding hex_bytes all_units
length-hex_bytes m [] l e = omega arith
length-hex_bytes m (c ∷ []) l e = absurd (omega arith)
length-hex_bytes zero (c ∷ d ∷ s) l e = absurd (omega arith)
length-hex_bytes (suc m) (c ∷ d ∷ s) l e =
    let (hc, more) = both_of (is_hex_digit c) _ e in
    let (hd, rest) = both_of (is_hex_digit d) _ more in
    rw (hc, hd) (omega (arith, length-hex_bytes m s (omega arith) rest))

length-drop_two : (n : ℕ) (s : Text) → length s ≡ n + 2 → length (drop 2 s) ≡ n
length-drop_two n [] h = absurd (omega arith)
length-drop_two n (c ∷ []) h = absurd (omega arith)
length-drop_two n (c ∷ d ∷ s) h = omega arith

length-of_hex_string :
    (m : ℕ) (s : Text) → is_hex_string (2 * m) s ≡ true → length (hex_bytes (drop 2 s)) ≡ m
unfolding is_hex_string text_discrete
length-of_hex_string m s h =
    length-hex_bytes m (drop 2 s) (length-drop_two (2 * m) s (ground arith)) (ground arith)

length-be_bytes : (k n : ℕ) → length (be_bytes k n) ≡ k
unfolding be_bytes
length-be_bytes zero n = refl
length-be_bytes (suc k) n = omega (arith, length-be_bytes k n)

-- The eight copies write the fields one behind the other.
fill_bytes-fields :
    (intent_hash solver : Text) (eid : ℕ) (recipient asset : List ℕ) (amount deadline : ℕ)
    → length (hex_bytes (drop 2 intent_hash)) ≡ 32
    → length (hex_bytes (drop 2 solver)) ≡ 20
    → length recipient ≤ 56
    → length asset ≤ 69
    → length (hex_bytes (pad_start 32 b'0' (hex_text amount))) ≡ 16
    → length (hex_bytes (pad_start 16 b'0' (hex_text deadline))) ≡ 8
    → fill_bytes intent_hash solver eid recipient asset amount deadline
      ≡ fields_of
          (hex_bytes (drop 2 intent_hash))
          (be_bytes 4 eid)
          recipient
          asset
          (hex_bytes (pad_start 32 b'0' (hex_text amount)))
          (hex_bytes (pad_start 16 b'0' (hex_text deadline)))
          (hex_bytes (drop 2 solver))
unfolding fill_bytes
fill_bytes-fields intent_hash solver eid recipient asset amount deadline hh hs hr ha hm hd =
    let hash = hex_bytes (drop 2 intent_hash) in
    let chain = be_bytes 4 eid in
    let amt = hex_bytes (pad_start 32 b'0' (hex_text amount)) in
    let until = hex_bytes (pad_start 16 b'0' (hex_text deadline)) in
    let who = hex_bytes (drop 2 solver) in
    let d1 = (1 ∷ 1 ∷ []) ++ hash in
    let d2 = d1 ++ chain in
    let d3 = (d2 ++ recipient) ++ zeros (56 - length recipient) in
    let d4 = (d3 ++ asset) ++ zeros (69 - length asset) in
    let d5 = d4 ++ amt in
    let d6 = (d5 ++ until) ++ zeros 12 in
    let l1 : length d1 ≡ 34 = omega (arith, length-append (1 ∷ 1 ∷ []) hash) in
    let l2 : length d2 ≡ 38 = omega (arith, length-append d1 chain, length-be_bytes 4 eid) in
    let l3 : length d3 ≡ 94 = omega (
      arith,
      length-append (d2 ++ recipient) (zeros (56 - length recipient)),
      length-append d2 recipient,
      length-repeated 0 (56 - length recipient),
    ) in
    let l4 : length d4 ≡ 163 = omega (
      arith,
      length-append (d3 ++ asset) (zeros (69 - length asset)),
      length-append d3 asset,
      length-repeated 0 (69 - length asset),
    ) in
    let l5 : length d5 ≡ 179 = omega (arith, length-append d4 amt) in
    let l6 : length d6 ≡ 199 = omega (
      arith,
      length-append (d5 ++ until) (zeros 12),
      length-append d5 until,
      length-repeated 0 12,
    ) in
    rw
      (
        stage [] (1 ∷ 1 ∷ []) 0 225 227 refl refl,
        stage (1 ∷ 1 ∷ []) hash 2 193 225 refl (omega arith),
        stage d1 chain 34 189 193 l1 (omega (arith, length-be_bytes 4 eid)),
        stage d2 recipient 38 (189 - length recipient) 189 l2 (omega arith),
        gap (d2 ++ recipient) (56 - length recipient) 133 (189 - length recipient) (omega arith),
        stage d3 asset 94 (133 - length asset) 133 l3 (omega arith),
        gap (d3 ++ asset) (69 - length asset) 64 (133 - length asset) (omega arith),
        stage d4 amt 163 48 64 l4 (omega arith),
        stage d5 until 179 40 48 l5 (omega arith),
        gap (d5 ++ until) 12 28 40 refl,
        stage d6 who 199 8 28 l6 (omega arith),
      )
      refl

not_outside :
    (n : ℤ) (top : ℕ)
    → not (ltb_ℤ n (pos 0) || ltb_ℤ (pos top) n) ≡ true
    → (n ≡ pos (pos_part n)) × (pos_part n ≤ top)
not_outside (pos k) top h = ground arith
not_outside (negsuc k) top h = absurd (ground arith)

-- The part of the text behind the prefix.
abbrev pub IsLayout : Text → List ℕ → List ℕ → ℕ → List ℕ → List ℕ → List ℕ → ℤ → ℤ → Type 0
IsLayout t hash solver eid recipient asset out amount deadline =
    (t ≡ codes "0x" ++ to_hex out)
    × (length out ≡ 227)
    × ((am : List ℕ) × (dl : List ℕ) × (out
          ≡ fields_of hash (be_bytes 4 eid) recipient asset am dl solver)
        × (length am ≡ 16)
        × (pos (be_value 0 am) ≡ amount)
        × (length dl ≡ 8)
        × (pos (be_value 0 dl) ≡ deadline))

length-fields_of :
    (hash eid recipient asset amount deadline solver : List ℕ)
    → length hash ≡ 32
    → length eid ≡ 4
    → length recipient ≤ 56
    → length asset ≤ 69
    → length amount ≡ 16
    → length deadline ≡ 8
    → length solver ≡ 20
    → length (fields_of hash eid recipient asset amount deadline solver) ≡ 227
length-fields_of hash eid recipient asset amount deadline solver hh he hr ha hm hd hs =
    let d2 = ((1 ∷ 1 ∷ []) ++ hash) ++ eid in
    let d3 = (d2 ++ recipient) ++ zeros (56 - length recipient) in
    let d4 = (d3 ++ asset) ++ zeros (69 - length asset) in
    let d6 = ((d4 ++ amount) ++ deadline) ++ zeros 12 in
    let l2 : length d2 ≡ 38 =
      omega (arith, length-append ((1 ∷ 1 ∷ []) ++ hash) eid, length-append (1 ∷ 1 ∷ []) hash) in
    let l3 : length d3 ≡ 94 = omega (
      arith,
      length-append (d2 ++ recipient) (zeros (56 - length recipient)),
      length-append d2 recipient,
      length-repeated 0 (56 - length recipient),
    ) in
    let l4 : length d4 ≡ 163 = omega (
      arith,
      length-append (d3 ++ asset) (zeros (69 - length asset)),
      length-append d3 asset,
      length-repeated 0 (69 - length asset),
    ) in
    let l6 : length d6 ≡ 199 = omega (
      arith,
      length-append ((d4 ++ amount) ++ deadline) (zeros 12),
      length-append (d4 ++ amount) deadline,
      length-append d4 amount,
      length-repeated 0 12,
    ) in
    omega
      (arith, length-append (d6 ++ solver) (zeros 8), length-append d6 solver, length-repeated 0 8)

passed :
    (b1 b2 b3 b4 b5 b6 : Bool) (v : Text) {t : Text}
    → (require b1 invalid_intent_hash
        >> require b2 invalid_solver
        >> require b3 invalid_eid
        >> require b4 bad_amount
        >> require b5 bad_deadline
        >> require b6 too_wide
        >> ok v)
      ≡ ok t
    → (b1 ≡ true) × (b2 ≡ true) × (b4 ≡ true) × (b5 ≡ true) × (b6 ≡ true) × (v ≡ t)
passed true true true true true true v e = (refl, refl, refl, refl, refl, cc)
passed false b2 b3 b4 b5 b6 v e = cc
passed true false b3 b4 b5 b6 v e = cc
passed true true false b4 b5 b6 v e = cc
passed true true true false b5 b6 v e = cc
passed true true true true false b6 v e = cc
passed true true true true true false v e = cc

module _ (utf8 : Text → List ℕ) where
  -- A FillInstruction that is built has 227 bytes: version 1 and type 1, the intent hash, the
  -- endpoint id, the recipient and the asset filled up with zeros to 56 and 69 bytes, the amount
  -- and the deadline as big-endian numbers of 16 and 8 bytes, 12 zeros and the solver's address,
  -- and 8 zeros.
  pub canonical_fill_instruction-IsLayout :
      (intent_hash solver : Text) (eid : ℕ) (destination dest_asset : Text) (amount deadline : ℤ)
      (t : Text)
      → canonical_fill_instruction utf8 intent_hash solver eid destination dest_asset amount
          deadline
        ≡ ok t
      → (out : List ℕ) × IsLayout t
          (hex_bytes (drop 2 intent_hash))
          (hex_bytes (drop 2 solver))
          eid
          (utf8 destination)
          (utf8 dest_asset)
          out
          amount
          deadline
  unfolding canonical_fill_instruction
  canonical_fill_instruction-IsLayout intent_hash solver eid destination dest_asset amount deadline
        t e =
      let amount_out =
        ltb_ℤ amount (pos 0) || ltb_ℤ (pos 0xffffffffffffffffffffffffffffffff) amount in
      let deadline_out = ltb_ℤ deadline (pos 0) || ltb_ℤ (pos 0xffffffffffffffff) deadline in
      let wide = ltb 56 (length (utf8 destination)) || ltb 69 (length (utf8 dest_asset)) in
      let (h1, h2, h4, h5, h6, same_text) =
        passed (is_hex_string 64 intent_hash) (is_hex_string 40 solver) (leb eid 0xffffffff)
          (not amount_out) (not deadline_out) (not wide) _ e in
      let (am, ha) = not_outside amount 0xffffffffffffffffffffffffffffffff h4 in
      let (dl, hd) = not_outside deadline 0xffffffffffffffff h5 in
      let (la, va) = number_field 15 (pos_part amount) (omega arith) in
      let (ld, vd) = number_field 7 (pos_part deadline) (omega arith) in
      let lh = length-of_hex_string 32 intent_hash h1 in
      let ls = length-of_hex_string 20 solver h2 in
      let lr : length (utf8 destination) ≤ 56 = ground arith in
      let lx : length (utf8 dest_asset) ≤ 69 = ground arith in
      let same =
        fill_bytes-fields intent_hash solver eid (utf8 destination) (utf8 dest_asset)
          (pos_part amount) (pos_part deadline) lh ls lr lx la ld in
      let total =
        length-fields_of _ (be_bytes 4 eid) (utf8 destination) (utf8 dest_asset) _ _ _ lh
          (length-be_bytes 4 eid) lr lx la ld ls in
      (
        _,
        (
          sym same_text,
          ap length same ∙ total,
          (_, _, same, la, ap pos va ∙ sym am, ld, ap pos vd ∙ sym dl),
        ),
      )
