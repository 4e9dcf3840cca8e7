-- ===== src/Tests/Checkpoint.antt =====
-- A checkpoint in a file system that is a function from paths to texts.
use perihelion.Prelude.{Option, none, some, ite, if◌then◌else◌}
use perihelion.Prelude.Text.{Text, codes, text_eq, text_discrete}
use perihelion.Prelude.Result.{Result, ok}
use perihelion.Sdk.Json.{Value}
use perihelion.Relayer.FileCheckpointStore.{FileCall, mkdir, write_file, rename, cursor_value}

abbrev Files : Type 0
Files = Text → Option Text

abbrev read : Text → Files → Result Text (Option Text)
read p s = ok (s p)

abbrev perform : FileCall → Files → Files
perform (mkdir p) s = s
perform (write_file p t) s = λ q. ite (text_discrete p q) (some t) (s q)
perform (rename p q) s = λ r. ite (text_discrete q r) (s p) (ite (text_discrete p r) none (s r))

abbrev folder : Text → Text
folder p = codes "."

abbrev cursor_text : Text
cursor_text = codes "{\"cursor\":7}"

abbrev stringify : Value → Text
stringify v = cursor_text

abbrev parse : Text → Option Value
parse t = if text_eq t cursor_text then some (cursor_value 7) else none

abbrev path : Text
path = codes "cp"

abbrev empty : Files
empty p = none
