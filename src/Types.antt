-- ===== src/Types.antt =====
-- `cwmp_get_type_string` and `cwmp_get_type_value` of libcwmp/src/cwmp.c: the types of parameters,
-- their names in SOAP and in the device's description file.
mod Cases
use netcwmp.Common.{
  ℕ, ◌+◌, Bool, ◌&&◌, Option, none, some, List, [], ◌∷◌, map, Bytes, codes, bytes_eq, ltb,
  if◌then◌else◌,
}

-- The enumeration of types of libcwmp/include/cwmp/cwmp.h.
pub data ParamType : Type 0 where
  object int unsigned_int string : ParamType
  string16 string32 string64 string128 string256 string1024 : ParamType
  datetime boolean base64 any unknown : ParamType

-- `cwmp_get_type_string`
pub get_type_string : ParamType → Bytes
get_type_string ParamType.object = codes "object"
get_type_string ParamType.string = codes "xsd:string"
get_type_string ParamType.int = codes "xsd:int"
get_type_string ParamType.unsigned_int = codes "xsd:unsignedInt"
get_type_string ParamType.string32 = codes "xsd:string[32]"
get_type_string ParamType.string64 = codes "xsd:string[64]"
get_type_string ParamType.string128 = codes "xsd:string[128]"
get_type_string ParamType.string256 = codes "xsd:string[256]"
get_type_string ParamType.string1024 = codes "xsd:string[1024]"
get_type_string ParamType.boolean = codes "xsd:bool"
get_type_string ParamType.datetime = codes "xsd:DateTime"
get_type_string _ = []

-- `tolower` in the C locale.
abbrev pub to_lower : ℕ → ℕ
to_lower c = if ltb 64 c && ltb c 91 then c + 32 else c

-- `TRstrcasecmp(s, t) == 0`
unfoldable pub case_eq : Bytes → Bytes → Bool
case_eq s t = bytes_eq (map to_lower s) (map to_lower t)

-- `cwmp_get_type_value`; `none` is NULL.
pub get_type_value : Option Bytes → ParamType
unfolding case_eq
get_type_value none = ParamType.unknown
get_type_value (some type) =
    if case_eq type (codes "int")
    then ParamType.int
    else if case_eq type (codes "uint")
    then ParamType.unsigned_int
    else if case_eq type (codes "s")
    then ParamType.string
    else if case_eq type (codes "s16")
    then ParamType.string16
    else if case_eq type (codes "s32")
    then ParamType.string32
    else if case_eq type (codes "s64")
    then ParamType.string64
    else if case_eq type (codes "s128")
    then ParamType.string64
    else if case_eq type (codes "s256")
    then ParamType.string64
    else if case_eq type (codes "s1024")
    then ParamType.string64
    else if case_eq type (codes "dt")
    then ParamType.string64
    else if case_eq type (codes "bool")
    then ParamType.string64
    else if case_eq type (codes "base")
    then ParamType.base64
    else if case_eq type (codes "obj")
    then ParamType.object
    else ParamType.string
