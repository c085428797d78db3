-- ===== src/Types/Cases.antt =====
-- Which type `cwmp_get_type_value` of libcwmp/src/cwmp.c reads from which name.
use netcwmp.Common.{◌≡◌, ◌∙◌, refl, [], map, some, Bytes, codes, bytes_eq}
use netcwmp.Types.{ParamType, to_lower, case_eq, get_type_value}

-- The names that the comments of the code give to the types.
unfoldable pub type_name : ParamType → Bytes
type_name ParamType.object = codes "obj"
type_name ParamType.int = codes "int"
type_name ParamType.unsigned_int = codes "uint"
type_name ParamType.string = codes "s"
type_name ParamType.string16 = codes "s16"
type_name ParamType.string32 = codes "s32"
type_name ParamType.string64 = codes "s64"
type_name ParamType.string128 = codes "s128"
type_name ParamType.string256 = codes "s256"
type_name ParamType.string1024 = codes "s1024"
type_name ParamType.datetime = codes "dt"
type_name ParamType.boolean = codes "bool"
type_name ParamType.base64 = codes "base"
type_name ParamType.any = []
type_name ParamType.unknown = []

-- The type that a name of a type is read as.
pub read_as : ParamType → ParamType
read_as ParamType.string128 = ParamType.string64
read_as ParamType.string256 = ParamType.string64
read_as ParamType.string1024 = ParamType.string64
read_as ParamType.datetime = ParamType.string64
read_as ParamType.boolean = ParamType.string64
read_as ParamType.any = ParamType.string
read_as ParamType.unknown = ParamType.string
read_as t = t

get_type_value-type_name : (t : ParamType) → get_type_value (some (type_name t)) ≡ read_as t
unfolding get_type_value type_name read_as case_eq bytes_eq
get_type_value-type_name ParamType.object = refl
get_type_value-type_name ParamType.int = refl
get_type_value-type_name ParamType.unsigned_int = refl
get_type_value-type_name ParamType.string = refl
get_type_value-type_name ParamType.string16 = refl
get_type_value-type_name ParamType.string32 = refl
get_type_value-type_name ParamType.string64 = refl
get_type_value-type_name ParamType.string128 = refl
get_type_value-type_name ParamType.string256 = refl
get_type_value-type_name ParamType.string1024 = refl
get_type_value-type_name ParamType.datetime = refl
get_type_value-type_name ParamType.boolean = refl
get_type_value-type_name ParamType.base64 = refl
get_type_value-type_name ParamType.any = refl
get_type_value-type_name ParamType.unknown = refl

get_type_value_case :
    (s t : Bytes)
    → map to_lower s ≡ map to_lower t
    → get_type_value (some s) ≡ get_type_value (some t)
unfolding get_type_value case_eq
get_type_value_case s t h = rw h refl

-- A name in any case is read as its type, but the names of the strings of 128, 256 and 1024 bytes,
-- of times and of Booleans are read as strings of 64 bytes; the empty name is read as a string.
pub get_type_value-read_as :
    (t : ParamType) (s : Bytes)
    → map to_lower s ≡ map to_lower (type_name t)
    → get_type_value (some s) ≡ read_as t
get_type_value-read_as t s h = get_type_value_case s (type_name t) h ∙ get_type_value-type_name t
