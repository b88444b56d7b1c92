-- ===== src/Registry/Value.antt =====
-- registry/type.go: type ids, type definitions and runtime values. `stdlib/time.go` adds the two
-- values `time` and `duration`; values of other host types are a parameter.
use tascript.Common.{Bool, Option, none, some, List, Str, codes, ℤ}

-- `TypeID` wraps its name.
abbrev pub TypeId : Type 0
TypeId = Str

abbrev pub integer_id : TypeId
integer_id = codes "Integer"

abbrev pub float_id : TypeId
float_id = codes "Float"

abbrev pub string_id : TypeId
string_id = codes "String"

abbrev pub bool_id : TypeId
bool_id = codes "Bool"

abbrev pub no_type_id : TypeId
no_type_id = codes "NoType"

abbrev pub error_type_id : TypeId
error_type_id = codes "Error"

abbrev pub time_id : TypeId
time_id = codes "Time"

abbrev pub duration_id : TypeId
duration_id = codes "Duration"

-- `""` is the zero value of `TypeShape`, which a script type has.
pub data TypeShape : Type 0 where
  no_shape scalar_shape vector_shape module_shape : TypeShape

pub record FieldDef : Type 0 where
  pub name : Str
  pub type : TypeId

pub record TypeDef : Type 0 where
  pub shape : TypeShape
  pub fields : List FieldDef

-- What the engine uses and does not implement: IEEE floats and the values of host types.
pub record World : Type 1 where
  pub Float : Type 0
  pub float_add : Float → Float → Float
  pub float_sub : Float → Float → Float
  pub float_mul : Float → Float → Float
  pub float_div : Float → Float → Float
  pub float_mod : Float → Float → Float
  pub float_neg : Float → Float
  pub float_eq : Float → Float → Bool
  pub float_lt : Float → Float → Bool
  pub float_le : Float → Float → Bool
  pub float_of_int : ℤ → Float
  pub Host : Type 0
  pub host_type : Host → TypeId
  -- `none`: Go cannot compare values of that type, and panics.
  pub host_eq : Host → Host → Option Bool

-- `registry.Value`; `nil` is the interface value without content, `fields` a Go map.
mutual
  pub data Value (w : World) : Type 0 where
    nil : Value w
    integer : ℤ → Value w
    float : w.Float → Value w
    string : Str → Value w
    boolean : Bool → Value w
    plain_module : TypeId → Value w
    structure : TypeId → Fields w → Value w
    time : ℤ → Value w
    duration : ℤ → Value w
    host : w.Host → Value w

  pub data Fields (w : World) : Type 0 where
    empty : Fields w
    field : Str → Value w → Fields w → Fields w

-- `value.TypeID()`; `none`: a call on the nil interface panics.
unfoldable pub type_id : {w : World} → Value w → Option TypeId
type_id nil = none
type_id (integer _) = some integer_id
type_id (float _) = some float_id
type_id (string _) = some string_id
type_id (boolean _) = some bool_id
type_id (plain_module t) = some t
type_id (structure t _) = some t
type_id (time _) = some time_id
type_id (duration _) = some duration_id
type_id {w} (host h) = some (w.host_type h)
