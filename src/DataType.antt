-- ===== src/DataType.antt =====
-- `enum DLMSDataType` of HES/inc/helper.h. A value of it is cast from a byte of a packet, so any
-- number below 256 occurs, and the enumerators are constants. `type_name` is the table that
-- `DLMSParser::initTypeNames` of HES/inc/push.h fills, with the empty name of `operator[]` elsewhere.
use atlascode.Prelude.{ℕ, ◌==◌, if◌then◌else◌}
use Prim.Native.String.{String}

abbrev pub none : ℕ
none = 0

abbrev pub array : ℕ
array = 1

abbrev pub structure : ℕ
structure = 2

abbrev pub boolean : ℕ
boolean = 3

abbrev pub bit_string : ℕ
bit_string = 4

abbrev pub int32 : ℕ
int32 = 5

abbrev pub uint32 : ℕ
uint32 = 6

abbrev pub octet_string : ℕ
octet_string = 9

abbrev pub string : ℕ
string = 10

abbrev pub string_utf8 : ℕ
string_utf8 = 12

abbrev pub binary_coded_decimal : ℕ
binary_coded_decimal = 13

abbrev pub int8 : ℕ
int8 = 15

abbrev pub int16 : ℕ
int16 = 16

abbrev pub uint8 : ℕ
uint8 = 17

abbrev pub uint16 : ℕ
uint16 = 18

abbrev pub compact_array : ℕ
compact_array = 19

abbrev pub int64 : ℕ
int64 = 20

abbrev pub uint64 : ℕ
uint64 = 21

abbrev pub enum : ℕ
enum = 22

abbrev pub float32 : ℕ
float32 = 23

abbrev pub float64 : ℕ
float64 = 24

abbrev pub datetime : ℕ
datetime = 25

abbrev pub date : ℕ
date = 26

abbrev pub time : ℕ
time = 27

abbrev pub delta_int8 : ℕ
delta_int8 = 28

abbrev pub delta_int16 : ℕ
delta_int16 = 29

abbrev pub delta_int32 : ℕ
delta_int32 = 30

abbrev pub delta_uint8 : ℕ
delta_uint8 = 31

abbrev pub delta_uint16 : ℕ
delta_uint16 = 32

abbrev pub delta_uint32 : ℕ
delta_uint32 = 33

unfoldable pub type_name : ℕ → String
type_name t =
    if t == none
    then "NONE"
    else if t == array
    then "ARRAY"
    else if t == structure
    then "STRUCTURE"
    else if t == boolean
    then "BOOLEAN"
    else if t == bit_string
    then "BIT_STRING"
    else if t == int32
    then "INT32"
    else if t == uint32
    then "UINT32"
    else if t == octet_string
    then "OCTET_STRING"
    else if t == string
    then "STRING"
    else if t == string_utf8
    then "STRING_UTF8"
    else if t == binary_coded_decimal
    then "BCD"
    else if t == int8
    then "INT8"
    else if t == int16
    then "INT16"
    else if t == uint8
    then "UINT8"
    else if t == uint16
    then "UINT16"
    else if t == compact_array
    then "COMPACT_ARRAY"
    else if t == int64
    then "INT64"
    else if t == uint64
    then "UINT64"
    else if t == enum
    then "ENUM"
    else if t == float32
    then "FLOAT32"
    else if t == float64
    then "FLOAT64"
    else if t == datetime
    then "DATETIME"
    else if t == date
    then "DATE"
    else if t == time
    then "TIME"
    else ""
