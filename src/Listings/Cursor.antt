-- ===== src/Listings/Cursor.antt =====
-- src/listings/domain/pagination/cursor.py and the cursor handling of
-- src/listings/adapters/api/routes/listings.py. Python's json and base64 modules, datetime, UUID
-- and the conversion of texts and floats to int are the parameter `Codec`;
-- a token is opaque, so that the type of tokens is a parameter too.
pub mod RoundTrip
use estate_os_service.Base.{
  ℕ, String, Uuid, Time, Bool, true, false, Option, none, some, ◌≡◌, ◌==◌, str_eq, if◌then◌else◌,
}
use estate_os_service.Exec.{Result, ok, err}
use estate_os_service.Json.{
  Json, null, bool, num, other_num, text, arr, obj, Fields, end, field, get,
}
use estate_os_service.Listings.Model.{ListCursor, SearchCursor}

-- What `int(x)` makes of a value; an infinite float raises an OverflowError, NaN a ValueError.
pub data PyInt : Type 0 where
  natural : ℕ → PyInt
  negative not_a_number infinite : PyInt

pub record Codec (Token : Type 0) : Type 0 where
  -- `base64.urlsafe_b64encode(json.dumps(payload).encode("utf-8")).rstrip(b"=")`
  pub to_token : Json → Token
  -- The padding restored, decoded and parsed; none is a ValueError or a TypeError.
  pub from_token : Token → Option Json
  pub isoformat : Time → String
  pub fromisoformat : String → Option Time
  pub uuid_text : Uuid → String
  pub parse_uuid : String → Option Uuid
  pub int_of_text : String → PyInt
  pub int_of_number : String → PyInt
  -- `f"{n}"` of an int
  pub int_text : ℕ → String
  -- Whether a number that is not a natural literal equals 1, as 1.0 does.
  pub is_one : String → Bool

-- What Python documents of these functions: each parser undoes its printer.
pub record IsInverse {Token : Type 0} (c : Codec Token) : Type 0 where
  pub token : (j : Json) → c.from_token (c.to_token j) ≡ some j
  pub iso : (t : Time) → c.fromisoformat (c.isoformat t) ≡ some t
  pub uuid : (i : Uuid) → c.parse_uuid (c.uuid_text i) ≡ some i

pub data Cursor : Type 0 where
  list_cursor : ListCursor → Cursor
  search_cursor : SearchCursor → Cursor

-- `CursorVersionError`, `CursorDecodeError`, `CursorFilterMismatchError`, and the two built-in
-- exceptions that the code does not catch.
pub data CursorError : Type 0 where
  version_error decode_error filter_mismatch_error attribute_error overflow_error : CursorError

abbrev pub payload : {Token : Type 0} → Codec Token → Cursor → Json
payload codec (list_cursor c) = obj (
    field "v" (num 1) (
      field "k" (text "list") (
        field "fp" (text c.fp) (
          field "c" (text (codec.isoformat c.created_at))
            (field "i" (text (codec.uuid_text c.id)) end)))))
payload codec (search_cursor c) = obj (
    field "v" (num 1)
      (field "k" (text "search") (field "fp" (text c.fp) (field "o" (num c.offset) end))))

unfoldable pub encode : {Token : Type 0} → Codec Token → Cursor → Token
encode codec c = codec.to_token (payload codec c)

-- `parsed.get("v") != CURSOR_SCHEMA_VERSION`, where Python has True == 1 == 1.0
abbrev pub is_version_1 : {Token : Type 0} → Codec Token → Option Json → Bool
is_version_1 codec (some (num n)) = n == 1
is_version_1 codec (some (bool b)) = b
is_version_1 codec (some (other_num s)) = codec.is_one s
is_version_1 codec _ = false

-- `datetime.fromisoformat(parsed["c"])`
abbrev pub read_time : {Token : Type 0} → Codec Token → Option Json → Result CursorError Time
read_time codec (some (text s)) = elim (codec.fromisoformat s) [
  | some t ↦ ok t
  | none ↦ err decode_error
]
read_time codec _ = err decode_error

-- `UUID(parsed["i"])`: UUID(None) is a TypeError, any other value that is not a text an
-- AttributeError.
abbrev pub read_uuid : {Token : Type 0} → Codec Token → Option Json → Result CursorError Uuid
read_uuid codec none = err decode_error
read_uuid codec (some null) = err decode_error
read_uuid codec (some (text s)) = elim (codec.parse_uuid s) [
  | some i ↦ ok i
  | none ↦ err decode_error
]
read_uuid codec (some _) = err attribute_error

abbrev pub read_list_cursor :
    {Token : Type 0} → Codec Token → String → Fields → Result CursorError Cursor
read_list_cursor codec fp d = elim (read_time codec (get "c" d)) [
  | err e ↦ err e
  | ok t ↦ elim (read_uuid codec (get "i" d)) [
    | err e ↦ err e
    | ok i ↦ ok (list_cursor (record { fp = fp; created_at = t; id = i }))
  ]
]

-- `int(parsed["o"])`
abbrev pub read_int : {Token : Type 0} → Codec Token → Option Json → PyInt
read_int codec (some (num n)) = natural n
read_int codec (some (bool b)) = natural (if b then 1 else 0)
read_int codec (some (text s)) = codec.int_of_text s
read_int codec (some (other_num s)) = codec.int_of_number s
read_int codec _ = not_a_number

abbrev pub read_search_cursor :
    {Token : Type 0} → Codec Token → String → Fields → Result CursorError Cursor
read_search_cursor codec fp d = elim (read_int codec (get "o" d)) [
  | natural n ↦ ok (search_cursor (record { fp = fp; offset = n }))
  | negative ↦ err decode_error
  | not_a_number ↦ err decode_error
  | infinite ↦ err overflow_error
]

abbrev pub read_kind :
    {Token : Type 0} → Codec Token → Option Json → Option Json → Fields → Result CursorError Cursor
read_kind codec (some (text fp)) (some (text kind)) d =
    if str_eq kind "list"
    then read_list_cursor codec fp d
    else (if str_eq kind "search" then read_search_cursor codec fp d else err decode_error)
read_kind codec _ _ d = err decode_error

abbrev pub read_payload : {Token : Type 0} → Codec Token → Option Json → Result CursorError Cursor
read_payload codec (some (obj d)) =
    if is_version_1 codec (get "v" d)
    then read_kind codec (get "fp" d) (get "k" d) d
    else err version_error
read_payload codec _ = err decode_error

unfoldable pub decode_token : {Token : Type 0} → Codec Token → Token → Result CursorError Cursor
decode_token codec token = read_payload codec (codec.from_token token)

abbrev pub fingerprint : Cursor → String
fingerprint (list_cursor c) = c.fp
fingerprint (search_cursor c) = c.fp

-- `validate_fp`
unfoldable pub validate_fp : Cursor → String → Result CursorError (Unit {0})
validate_fp c expected =
    if str_eq (fingerprint c) expected then ok tt else err filter_mismatch_error

-- The answers of the route, by their `detail`; `server_error` is an exception that it lets through.
pub data HttpError : Type 0 where
  cursor_unsupported_version cursor_invalid cursor_kind_mismatch cursor_filter_mismatch
        server_error :
      HttpError

abbrev pub is_search_cursor : Cursor → Bool
is_search_cursor (list_cursor c) = false
is_search_cursor (search_cursor c) = true

abbrev pub check_fp : Result CursorError (Unit {0}) → Cursor → Result HttpError Cursor
check_fp (ok tt) c = ok c
check_fp (err e) c = err cursor_filter_mismatch

-- "expected_kind = SearchCursor if is_search_mode else ListCursor"
abbrev pub check_kind : Bool → String → Cursor → Result HttpError Cursor
check_kind true fp (list_cursor c) = err cursor_kind_mismatch
check_kind false fp (search_cursor c) = err cursor_kind_mismatch
check_kind _ fp c = check_fp (validate_fp c fp) c

-- How the route reads the `cursor` parameter.
unfoldable pub read_cursor :
    {Token : Type 0} → Codec Token → Bool → String → Token → Result HttpError Cursor
read_cursor codec is_search_mode fp token = elim (decode_token codec token) [
  | ok c ↦ check_kind is_search_mode fp c
  | err e ↦ elim e [
    | version_error ↦ err cursor_unsupported_version
    | decode_error ↦ err cursor_invalid
    | filter_mismatch_error ↦ err server_error
    | attribute_error ↦ err server_error
    | overflow_error ↦ err server_error
  ]
]
