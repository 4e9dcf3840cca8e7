-- ===== src/Sdk/OnChain.antt =====
-- sdk/src/types.ts: the status that the settlement contract returns. The argument is `unknown`:
-- a native value, or an `ScVal` with the name of its arm under `switch`.
use perihelion.Prelude.{ℕ, [], ◌==◌, Bool, true, false, ◌||◌, Option, none, some, if◌then◌else◌}
use perihelion.Prelude.Int.{pos, negsuc}
use perihelion.Prelude.Text.{Text, codes, text_eq}
use perihelion.Prelude.Result.{Result, err, ok}
use perihelion.Sdk.Json.{Value, undefined, null, num, str, obj, Fields, prop, int}

pub data OnChainIntentStatus : Type 0 where
  locked filled confirmation_sent cancelled : OnChainIntentStatus

-- `obj.switch?.name`, where it is a text.
abbrev arm_name : Fields → Text
arm_name fs = elim (prop (codes "switch") fs) [
  | obj switch ↦ elim (prop (codes "name") switch) [ str name ↦ name | _ ↦ [] ]
  | _ ↦ []
]

-- A number under `value` stands for the object.
abbrev unwrapped : Value → Fields → Value
unwrapped (num n) fs = num n
unwrapped _ fs = obj fs

unfoldable pub to_native_status : Value → Value
unfolding prop
to_native_status undefined = undefined
to_native_status null = undefined
to_native_status (obj fs) =
    let name = arm_name fs in
    if text_eq name (codes "scvVoid")
    then undefined
    else if text_eq name (codes "scvU32")
    then prop (codes "u32") fs
    else if text_eq name (codes "scvU64") || text_eq name (codes "scvI64")
    then prop (codes "value") fs
    else unwrapped (prop (codes "value") fs) fs
to_native_status v = v

abbrev of_discriminant : ℕ → Result Text (Option OnChainIntentStatus)
of_discriminant n =
    if n == 0
    then ok (some locked)
    else if n == 1
    then ok (some filled)
    else if n == 2
    then ok (some confirmation_sent)
    else if n == 3
    then ok (some cancelled)
    else err (codes "Unknown IntentStatus discriminant")

unfoldable pub decode_intent_status : Value → Result Text (Option OnChainIntentStatus)
unfolding to_native_status
decode_intent_status sc_val = elim (to_native_status sc_val) [
  | undefined ↦ ok none
  | null ↦ ok none
  | num (int (pos n)) ↦ of_discriminant n
  | num (int (negsuc n)) ↦ err (codes "Unknown IntentStatus discriminant")
  | _ ↦ err (codes "Unexpected IntentStatus value")
]

unfoldable pub is_settled_status : Option OnChainIntentStatus → Bool
is_settled_status (some filled) = true
is_settled_status (some confirmation_sent) = true
is_settled_status _ = false
