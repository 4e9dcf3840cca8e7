-- ===== src/Relayer/Window.antt =====
-- relayer/src/relayer.ts: the window of recent block headers, `detectReorg`, `recordHeaders` and
-- `recordBlock`.
use perihelion.Prelude.{
  ℕ, zero, suc, ◌+◌, ◌-◌, ◌≤◌, max, List, [], ◌∷◌, ◌++◌, Option, none, some, length, drop, ltb,
  ◌==◌, if◌then◌else◌, arith, or_default, length-append,
}
use perihelion.Prelude.Text.{Text, text_eq}

pub record BlockRecord : Type 0 where
  pub number : ℕ
  pub hash : Text
  pub parent_hash : Text

-- `find((b) => b.number === n)`.
unfoldable pub find_block : ℕ → List BlockRecord → Option BlockRecord
find_block n [] = none
find_block n (b ∷ bs) = let rest = find_block n bs in if b.number == n then some b else rest

-- `splice(existing, 1)` at the first record of that number, if there is one.
unfoldable pub remove_block : ℕ → List BlockRecord → List BlockRecord
remove_block n [] = []
remove_block n (b ∷ bs) = let rest = remove_block n bs in if b.number == n then bs else b ∷ rest

abbrev pub window_limit : ℕ → ℕ
window_limit confirmations = max (confirmations + 10) 20

unfoldable pub record_block : ℕ → BlockRecord → List BlockRecord → List BlockRecord
record_block confirmations block window =
    let pushed = remove_block block.number window ++ block ∷ [] in
    if ltb (window_limit confirmations) (length pushed) then drop 1 pushed else pushed

unfoldable pub record_all : ℕ → List BlockRecord → List BlockRecord → List BlockRecord
record_all confirmations [] window = window
record_all confirmations (b ∷ bs) window =
    record_all confirmations bs (record_block confirmations b window)

-- `undefined` headers are none at all.
unfoldable pub record_headers :
    ℕ → Option (List BlockRecord) → ℕ → Text → Text → List BlockRecord → List BlockRecord
record_headers confirmations headers head head_hash parent_hash window =
    record_block confirmations
      (record { number = head; hash = head_hash; parent_hash = parent_hash })
      (record_all confirmations (or_default headers []) window)

-- The loop of `detectReorg`: `current` goes down by one block at each turn, so its number is fuel
-- enough.
unfoldable pub walk_back : ℕ → ℕ → ℕ → BlockRecord → ℕ → List BlockRecord → ℕ
walk_back zero start head current depth window = depth
walk_back (suc fuel) start head current depth window =
    if ltb start current.number
    then elim (find_block (current.number - 1) window) [
      | none ↦ depth
      | some ancestor ↦
          if text_eq ancestor.hash current.parent_hash
          then head - current.number
          else walk_back fuel start head ancestor (depth + 1) window
    ]
    else depth

-- No block has the number -1.
unfoldable pub detect_reorg : ℕ → ℕ → Text → List BlockRecord → ℕ
detect_reorg start zero parent_hash window = 0
detect_reorg start (suc before) parent_hash window = elim (find_block before window) [
  | none ↦ 0
  | some prev ↦
      if text_eq prev.hash parent_hash
      then 0
      else walk_back (prev.number + 1) start (suc before) prev 1 window
]

length-remove_block : (n : ℕ) (w : List BlockRecord) → length (remove_block n w) ≤ length w
unfolding remove_block
length-remove_block n [] = omega arith
length-remove_block n (b ∷ bs) = ground (arith, length-remove_block n bs)

-- A window of headers within the limit that the confirmations set stays within it when a header
-- is recorded.
pub record_block_bounded :
    (c : ℕ) (b : BlockRecord) (w : List BlockRecord)
    → length w ≤ window_limit c
    → length (record_block c b w) ≤ window_limit c
unfolding record_block
record_block_bounded c b w h =
    ground (arith, length-append (remove_block b.number w) (b ∷ []), length-remove_block b.number w)
