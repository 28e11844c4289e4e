-- ===== src/Listings/Cursor/RoundTrip.antt =====
-- Cursors as tokens: src/listings/domain/pagination/cursor.py and the cursor handling of
-- src/listings/adapters/api/routes/listings.py.
use estate_os_service.Base.{ℕ, String, Time, Bool, true, false, ◌≡◌, refl, some, ◌↔◌, arith, eq_iff}
use estate_os_service.Exec.{ok, err}
use estate_os_service.Json.{num, text, obj, end, field}
use estate_os_service.Listings.Cursor.{
  Codec, IsInverse, Cursor, list_cursor, search_cursor, encode, decode_token, payload, fingerprint,
  is_search_cursor, read_cursor, attribute_error, server_error, validate_fp, check_kind,
}

-- Decoding the token of a cursor, of either kind, gives the cursor back.
pub decode-encode :
    {Token : Type 0} (codec : Codec Token) (c : Cursor)
    → IsInverse codec
    → decode_token codec (encode codec c) ≡ ok c
unfolding decode_token encode
decode-encode codec (list_cursor c) inv =
    rw (inv.token (payload codec (list_cursor c)), inv.iso c.created_at, inv.uuid c.id) refl
decode-encode codec (search_cursor c) inv = rw (inv.token (payload codec (search_cursor c))) refl

read_cursor-encode :
    {Token : Type 0} (codec : Codec Token) (c : Cursor) (mode : Bool) (fp : String)
    → IsInverse codec
    → read_cursor codec mode fp (encode codec c) ≡ check_kind mode fp c
unfolding read_cursor
read_cursor-encode codec c mode fp inv = rw (read_cursor, decode-encode codec c inv) refl

check-IsAccepted :
    (c d : Cursor) (mode : Bool) (fp : String)
    → (check_kind mode fp c ≡ ok d) ↔ ((c ≡ d) × (is_search_cursor c ≡ mode) × (fingerprint c ≡ fp))
unfolding validate_fp
check-IsAccepted (list_cursor c) d true fp = ground arith
check-IsAccepted (list_cursor c) d false fp = ground (arith, eq_iff c.fp fp)
check-IsAccepted (search_cursor c) d true fp = ground (arith, eq_iff c.fp fp)
check-IsAccepted (search_cursor c) d false fp = ground arith

-- The route accepts the token of a cursor exactly when the request is of the cursor's mode and has
-- its fingerprint, and then it reads that cursor.
pub read_cursor-accepts :
    {Token : Type 0} (codec : Codec Token) (c d : Cursor) (mode : Bool) (fp : String)
    → IsInverse codec
    → (read_cursor codec mode fp (encode codec c) ≡ ok d)
      ↔ ((c ≡ d) × (is_search_cursor c ≡ mode) × (fingerprint c ≡ fp))
read_cursor-accepts codec c d mode fp inv =
    rw (read_cursor-encode codec c mode fp inv) (check-IsAccepted c d mode fp)

numeric_id_decoded :
    {Token : Type 0} (codec : Codec Token) (token_fp time : String) (token : Token) (t : Time)
    (n : ℕ)
    → codec.from_token token
      ≡ some (
          obj (
            field "v" (num 1) (
              field "k"
                (text "list")
                (field "fp" (text token_fp) (field "c" (text time) (field "i" (num n) end))))))
    → codec.fromisoformat time ≡ some t
    → decode_token codec token ≡ err attribute_error
unfolding decode_token
numeric_id_decoded codec token_fp time token t n e h = rw (e, h) refl

-- A token whose payload is a list cursor of version 1 with a readable time but a number for its id
-- is not refused as invalid: the conversion to a UUID raises an error that nothing catches.
pub numeric_id_crashes :
    {Token : Type 0} (codec : Codec Token) (mode : Bool) (fp token_fp time : String) (token : Token)
    (t : Time) (n : ℕ)
    → codec.from_token token
      ≡ some (
          obj (
            field "v" (num 1) (
              field "k"
                (text "list")
                (field "fp" (text token_fp) (field "c" (text time) (field "i" (num n) end))))))
    → codec.fromisoformat time ≡ some t
    → read_cursor codec mode fp token ≡ err server_error
unfolding read_cursor
numeric_id_crashes codec mode fp token_fp time token t n e h =
    rw (read_cursor, numeric_id_decoded codec token_fp time token t n e h) refl
