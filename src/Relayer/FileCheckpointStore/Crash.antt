-- ===== src/Relayer/FileCheckpointStore/Crash.antt =====
-- Saving the cursor, whole or cut short by a crash.
use perihelion.Prelude.{ℕ, ◌≡◌, ◌⊎◌, Option, some}
use perihelion.Prelude.Int.{pos}
use perihelion.Prelude.Text.{Text}
use perihelion.Prelude.Result.{Result, ok}
use perihelion.Sdk.Json.{Value, Number, int}
use perihelion.Relayer.FileCheckpointStore.{FileCall, load}

module _ {S : Type 0} (read : Text → S → Result Text (Option Text)) (parse : Text → Option Value)
    (perform : FileCall → S → S) (dirname : Text → Text) (stringify : Value → Text) (path : Text)
    (block : ℕ) where
  -- What loading gives before the save, or the block that is saved.
  abbrev pub OldOrNew : S → Result Text (Option Number) → Type 0
  OldOrNew s r = (r ≡ load read parse path s) ⊎ (r ≡ ok (some (int (pos block))))
