-- ===== src/Relayer/FileCheckpointStore.antt =====
-- relayer/src/file-checkpoint-store.ts: the cursor in a file. The file system, whose state is of an
-- unknown type, `dirname` and the JSON functions of the language are parameters; a file that is not there
-- reads as `none`, any other failure to read is an error.
pub mod Crash
use perihelion.Prelude.{ℕ, zero, suc, List, [], ◌∷◌, Option, none, some, ◌++◌}
use perihelion.Prelude.Int.{pos}
use perihelion.Prelude.Text.{Text, codes}
use perihelion.Prelude.Result.{Result, err, ok}
use perihelion.Sdk.Json.{Value, null, undefined, num, obj, Number, int, field, end, prop}

abbrev pub cursor_value : ℕ → Value
cursor_value block = obj (field (codes "cursor") (num (int (pos block))) end)

abbrev number_of : Value → Option Number
number_of (num n) = some n
number_of _ = none

-- `parsed.cursor`, if it is a number; `null` has no properties.
unfoldable pub cursor_of : Value → Result Text (Option Number)
unfolding prop
cursor_of null = err (codes "TypeError")
cursor_of undefined = err (codes "TypeError")
cursor_of (obj fs) = ok (number_of (prop (codes "cursor") fs))
cursor_of _ = ok none

abbrev pub tmp_path : Text → Text
tmp_path path = path ++ codes ".tmp"

module _ {S : Type 0} (read : Text → S → Result Text (Option Text))
    (parse : Text → Option Value) where
  unfoldable pub load : Text → S → Result Text (Option Number)
  load path s = elim (read path s) [
    | err e ↦ err e
    | ok none ↦ ok none
    | ok (some raw) ↦ elim (parse raw) [
      | none ↦ err (codes "SyntaxError")
      | some parsed ↦ cursor_of parsed
    ]
  ]

-- The calls of the file system that a save makes.
pub data FileCall : Type 0 where
  mkdir : Text → FileCall
  write_file rename : Text → Text → FileCall

module _ (dirname : Text → Text) (stringify : Value → Text) where
  -- The calls of `save`, in their order.
  unfoldable pub save_calls : Text → ℕ → List FileCall
  save_calls path block =
      mkdir (dirname path)
      ∷ write_file (tmp_path path) (stringify (cursor_value block))
      ∷ rename (tmp_path path) path
      ∷ []

module _ {S : Type 0} (perform : FileCall → S → S) where
  unfoldable pub run : List FileCall → S → S
  run [] s = s
  run (c ∷ cs) s = run cs (perform c s)

  -- The calls cut short after the first `n`: if the next call writes a file, it has not begun or it
  -- has written some text.
  unfoldable pub run_cut : ℕ → Option Text → List FileCall → S → S
  run_cut n part [] s = s
  run_cut zero (some text) (write_file path whole ∷ cs) s = perform (write_file path text) s
  run_cut zero _ (c ∷ cs) s = s
  run_cut (suc n) part (c ∷ cs) s = run_cut n part cs (perform c s)

  unfoldable pub save : (Text → Text) → (Value → Text) → Text → ℕ → S → S
  save dirname stringify path block = run (save_calls dirname stringify path block)
