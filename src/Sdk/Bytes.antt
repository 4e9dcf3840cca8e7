-- ===== src/Sdk/Bytes.antt =====
-- Node's buffers as lists of bytes, hexadecimal texts, `padStart` and `padEnd`.
pub mod Laws
use perihelion.Prelude.{
  ℕ, zero, suc, ◌+◌, ◌-◌, ◌*◌, ◌/◌, ◌%◌, ◌^◌, Bool, ◌&&◌, List, [], ◌∷◌, ◌++◌, length, ltb,
  if◌then◌else◌,
}
use perihelion.Prelude.Text.{Text, is_hex_digit}
use perihelion.Sdk.Signature.{hex_unit}

-- `n` times the same unit: `Buffer.alloc(n)` for the unit 0, and what a padding adds.
unfoldable pub repeated : ℕ → ℕ → List ℕ
repeated c zero = []
repeated c (suc n) = c ∷ repeated c n

abbrev pub zeros : ℕ → List ℕ
zeros n = repeated 0 n

unfoldable pub overlay : List ℕ → List ℕ → List ℕ
overlay [] out = out
overlay (b ∷ src) [] = []
overlay (b ∷ src) (x ∷ out) = b ∷ overlay src out

-- `src.copy(out, offset)`: what does not fit is dropped.
unfoldable pub copy_at : ℕ → List ℕ → List ℕ → List ℕ
unfolding overlay
copy_at zero src out = overlay src out
copy_at (suc n) src [] = []
copy_at (suc n) src (x ∷ out) = x ∷ copy_at n src out

-- `Buffer.from(s, "hex")`: it stops at the first pair that is not hexadecimal.
unfoldable pub hex_bytes : Text → List ℕ
unfolding is_hex_digit hex_unit
hex_bytes [] = []
hex_bytes (c ∷ []) = []
hex_bytes (c ∷ d ∷ s) =
    let rest = hex_bytes s in
    if is_hex_digit c && is_hex_digit d then (hex_unit c * 16 + hex_unit d) ∷ rest else []

unfoldable pub hex_digit : ℕ → ℕ
hex_digit d = if ltb d 10 then b'0' + d else b'a' + (d - 10)

-- `out.toString("hex")`.
unfoldable pub to_hex : List ℕ → Text
unfolding hex_digit
to_hex [] = []
to_hex (b ∷ out) = hex_digit (b / 16) ∷ hex_digit (b % 16) ∷ to_hex out

unfoldable pub hex_loop : ℕ → ℕ → Text → Text
unfolding hex_digit
hex_loop zero n acc = acc
hex_loop (suc fuel) n acc =
    let more = hex_loop fuel (n / 16) (hex_digit (n % 16) ∷ acc) in
    if ltb n 16 then hex_digit n ∷ acc else more

-- `n.toString(16)`: it has at most n + 1 digits.
unfoldable pub hex_text : ℕ → Text
unfolding hex_loop
hex_text n = hex_loop (n + 1) n []

-- `s.padStart(width, c)` and `s.padEnd(width, c)`.
unfoldable pub pad_start : ℕ → ℕ → Text → Text
unfolding repeated
pad_start width c s = repeated c (width - length s) ++ s

unfoldable pub pad_end : ℕ → ℕ → Text → Text
unfolding repeated
pad_end width c s = s ++ repeated c (width - length s)

-- The bytes of `n` in the width given, the highest first, as `writeUInt32BE` writes four.
unfoldable pub be_bytes : ℕ → ℕ → List ℕ
be_bytes zero n = []
be_bytes (suc k) n = (n / 256 ^ k % 256) ∷ be_bytes k n

-- The number that bytes denote, the highest first.
unfoldable pub be_value : ℕ → List ℕ → ℕ
be_value acc [] = acc
be_value acc (b ∷ bs) = be_value (acc * 256 + b) bs
