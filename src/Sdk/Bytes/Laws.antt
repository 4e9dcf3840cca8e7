-- ===== src/Sdk/Bytes/Laws.antt =====
-- The widths and the values of what the helpers on buffers write.
use perihelion.Prelude.{
  ℕ, zero, suc, ◌+◌, ◌-◌, ◌*◌, ◌/◌, ◌%◌, ◌^◌, ◌≤◌, ◌<◌, ◌≡◌, refl, ap, ◌∙◌, true, List, [], ◌∷◌,
  ◌++◌, some, length, length-append, ltb, arith, Bool-cases, inl, inr, if-eq, subst,
}
use perihelion.Prelude.Text.{Text, is_hex_digit, is_digit}
use perihelion.Sdk.Signature.{hex_unit, hex_value}
use perihelion.Sdk.Bytes.{
  repeated, zeros, overlay, copy_at, hex_bytes, hex_digit, hex_loop, hex_text, pad_start, be_value,
}

zero_add : (n : ℕ) → 0 + n ≡ n
zero_add n = omega arith

suc_add : (m n : ℕ) → suc m + n ≡ suc (m + n)
suc_add m n = omega arith

pub length-repeated : (c n : ℕ) → length (repeated c n) ≡ n
unfolding repeated
length-repeated c zero = refl
length-repeated c (suc n) = omega (arith, length-repeated c n)

pub repeated-add : (c m n : ℕ) → repeated c (m + n) ≡ repeated c m ++ repeated c n
unfolding repeated
repeated-add c zero n = rw (zero_add n) refl
repeated-add c (suc m) n = rw (suc_add m n, repeated-add c m n) refl

overlay-zeros : (src : List ℕ) (m : ℕ) → overlay src (zeros (length src + m)) ≡ src ++ zeros m
unfolding overlay repeated
overlay-zeros [] m = rw (zero_add m) refl
overlay-zeros (b ∷ src) m = rw (suc_add (length src) m, overlay-zeros src m) refl

-- Copying behind what is written, into the zeros that are left.
pub copy_at-append :
    (done src : List ℕ) (m : ℕ)
    → copy_at (length done) src (done ++ zeros (length src + m)) ≡ (done ++ src) ++ zeros m
unfolding copy_at
copy_at-append [] src m = overlay-zeros src m
copy_at-append (x ∷ done) src m = ap (λ r. x ∷ r) (copy_at-append done src m)

pub hex_digit_lem :
    (d : ℕ) → d < 16 → (hex_unit (hex_digit d) ≡ d) × (is_hex_digit (hex_digit d) ≡ true)
unfolding hex_unit hex_digit is_hex_digit is_digit
hex_digit_lem d h = ground arith

pub hex_value-digit :
    (acc d : ℕ) (s : Text) → d < 16 → hex_value acc (hex_digit d ∷ s) ≡ hex_value (acc * 16 + d) s
unfolding hex_value
hex_value-digit acc d s h = let (u, v) = hex_digit_lem d h in rw (v, u) refl

hex_value-hex_loop :
    (fuel n : ℕ) (acc : Text) → n < fuel → hex_value 0 (hex_loop fuel n acc) ≡ hex_value n acc
unfolding hex_loop
hex_value-hex_loop zero n acc h = absurd (omega arith)
hex_value-hex_loop (suc fuel) n acc h = elim (Bool-cases (ltb n 16)) [
  | inl e ↦
      rw (e, hex_loop)
        (hex_value-digit 0 n acc (ground arith) ∙ ap (λ k. hex_value k acc) (omega arith))
  | inr e ↦
      rw (e, hex_loop)
        (hex_value-hex_loop fuel (n / 16) (hex_digit (n % 16) ∷ acc) (ground arith)
          ∙ hex_value-digit (n / 16) (n % 16) acc (omega arith)
          ∙ ap (λ k. hex_value k acc) (omega arith))
]

length-hex_loop :
    (k fuel n : ℕ) (acc : Text) → n < 16 ^ suc k → length (hex_loop fuel n acc) ≤ suc k + length acc
unfolding hex_loop
length-hex_loop k zero n acc h = omega arith
length-hex_loop zero (suc fuel) n acc h = ground arith
length-hex_loop (suc k) (suc fuel) n acc h =
    ground (arith, length-hex_loop k fuel (n / 16) (hex_digit (n % 16) ∷ acc) (omega arith))

hex_value-repeated : (m : ℕ) (s : Text) → hex_value 0 (repeated b'0' m ++ s) ≡ hex_value 0 s
unfolding repeated hex_value is_hex_digit is_digit hex_unit
hex_value-repeated zero s = refl
hex_value-repeated (suc m) s = hex_value-repeated m s

-- A hexadecimal text of even length is that many bytes of the same value.
pub hex_bytes_lem :
    (m acc v : ℕ) (s : Text)
    → length s ≡ 2 * m
    → hex_value acc s ≡ some v
    → (length (hex_bytes s) ≡ m) × (be_value acc (hex_bytes s) ≡ v)
unfolding hex_bytes hex_value be_value
hex_bytes_lem m acc v [] l e = ground arith
hex_bytes_lem m acc v (c ∷ []) l e = absurd (omega arith)
hex_bytes_lem zero acc v (c ∷ d ∷ s) l e = absurd (omega arith)
hex_bytes_lem (suc m) acc v (c ∷ d ∷ s) l e = elim (if-eq (is_hex_digit c) e) [
  | inr (_, f) ↦ cc
  | inl (hc, f) ↦ elim (if-eq (is_hex_digit d) f) [
    | inr (_, g) ↦ cc
    | inl (hd, g) ↦
        let same : (acc * 16 + hex_unit c) * 16 + hex_unit d
            ≡ acc * 256 + (hex_unit c * 16 + hex_unit d) =
          omega arith in
        let (l', w) =
          hex_bytes_lem m (acc * 256 + (hex_unit c * 16 + hex_unit d)) v s (omega arith)
            (rw same at g) in
        rw (hc, hd) (omega (arith, l'), w)
  ]
]

-- A number printed in hexadecimal and padded is a field of that width with its value.
pub number_field :
    (k n : ℕ)
    → n < 16 ^ (2 * suc k)
    → (length (hex_bytes (pad_start (2 * suc k) b'0' (hex_text n))) ≡ suc k)
      × (be_value 0 (hex_bytes (pad_start (2 * suc k) b'0' (hex_text n))) ≡ n)
unfolding pad_start hex_text hex_value
number_field k n h =
    let below : 2 * suc k ≡ suc (2 * k + 1) → n < 16 ^ suc (2 * k + 1) =
      λ e. subst (λ w. n < 16 ^ w) e h in
    let short : length (hex_text n) ≤ 2 * suc k =
      omega (arith, length-hex_loop (2 * k + 1) (n + 1) n [] (below (omega arith))) in
    hex_bytes_lem (suc k) 0 n _
      (length-append (repeated b'0' (2 * suc k - length (hex_text n))) (hex_text n)
        ∙ omega (arith, length-repeated b'0' (2 * suc k - length (hex_text n))))
      (hex_value-repeated (2 * suc k - length (hex_text n)) (hex_text n)
        ∙ hex_value-hex_loop (n + 1) n [] (omega arith))
