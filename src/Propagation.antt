-- ===== src/Propagation.antt =====
-- propagation/propagation.go: the ids that a context carries. A context is Go's chain of values; a
-- context of a library outside, such as the framework's request, is what its `Value` returns.
pub mod Laws
mod Tests
use go_platform_kit.Common.{
  ℕ, ◌≡◌, ◌↔◌, Bool, true, false, ◌&&◌, Option, none, some, List, [], ◌∷◌, Text, text_eq, nat_eq,
  Comparable, ◌==◌, bytes, is_empty, if◌then◌else◌, option_or, text_beq_iff, nat_beq_iff, arith,
}

unfoldable pub header_correlation_id : Text
header_correlation_id = bytes "X-Correlation-ID"

unfoldable pub header_app_instance_id : Text
header_app_instance_id = bytes "X-App-Instance-Id"

unfoldable pub request_value_name : Text
request_value_name = bytes "platform.correlation_id"

unfoldable pub app_instance_request_value_name : Text
app_instance_request_value_name = bytes "platform.app_instance_id"

-- A key of a context: one of the two of the package, a string, or one of another package's type.
pub data Key : Type 0 where
  correlation_key : Key
  app_instance_key : Key
  name : Text → Key
  foreign_key : ℕ → Key

unfoldable pub key_eq : Key → Key → Bool
key_eq correlation_key correlation_key = true
key_eq app_instance_key app_instance_key = true
key_eq (name s) (name t) = s == t
key_eq (foreign_key i) (foreign_key j) = i == j
key_eq _ _ = false

-- A value of type `any`: a string or something else.
pub data AnyValue : Type 0 where
  text : Text → AnyValue
  other : ℕ → AnyValue

pub data Context : Type 0 where
  background : Context
  with_value : Key → AnyValue → Context → Context
  outside : (Key → Option AnyValue) → Context

-- `ctx.Value(key)`
unfoldable pub value : Context → Key → Option AnyValue
unfolding key_eq
value background key = none
value (with_value set v ctx) key = if key_eq set key then some v else value ctx key
value (outside read) key = read key

-- The type assertion `v.(string)`.
abbrev pub as_text : Option AnyValue → Option Text
as_text (some (text s)) = some s
as_text (some (other n)) = none
as_text none = none

unfoldable pub with_correlation_id : Context → Text → Context
with_correlation_id ctx id = if is_empty id then ctx else with_value correlation_key (text id) ctx

unfoldable pub with_app_instance_id : Context → Text → Context
with_app_instance_id ctx id = if is_empty id then ctx else with_value app_instance_key (text id) ctx

-- `CorrelationID` and `AppInstanceID` read a key of the package, then a string; a nil context is
-- `none`.
abbrev read_id : Key → Text → Option Context → Text
read_id key request_name none = []
read_id key request_name (some ctx) =
    let bound = option_or (as_text (value ctx key)) [] in
    if is_empty bound then option_or (as_text (value ctx (name request_name))) [] else bound

unfoldable pub correlation_id : Option Context → Text
correlation_id ctx = read_id correlation_key request_value_name ctx

unfoldable pub app_instance_id : Option Context → Text
app_instance_id ctx = read_id app_instance_key app_instance_request_value_name ctx
