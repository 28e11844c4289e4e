-- ===== src/Sessions/Cookie.antt =====
-- `HmacCookieSigner` and `load_session`: src/sessions/adapters/signing/hmac_cookie_signer.py and
-- src/sessions/adapters/api/cookie.py. Python's base64, hmac, int and UUID are the parameter `Crypto`;
-- cookies and byte strings are opaque.
use estate_os_service.Base.{
  ℕ, Uuid, String, ◌≡◌, refl, ap, Bool, true, false, Option, none, some, List, [], ◌∷◌, ◌==◌,
  if◌then◌else◌,
}
use estate_os_service.Exec.{Result, ok, err}
use estate_os_service.Dict.{Dict, lookup}
use estate_os_service.Sessions.Model.{
  Session, Error, session_not_found, session_revoked, cookie_malformed, cookie_signature_invalid,
}
use estate_os_service.Sessions.UseCases.{Rows}

pub record Crypto (Cookie Bytes : Type 0) : Type 0 where
  -- `f"{id}.{sig}.{version}"` and `cookie_value.split(".")`
  pub join : String → String → String → Cookie
  pub split : Cookie → List String
  -- `_b64u_encode` and `_b64u_decode`; none is a ValueError
  pub b64u_encode : Bytes → String
  pub b64u_decode : String → Option Bytes
  pub byte_length : Bytes → ℕ
  -- `str(version)` and `int(text)`, none for a ValueError. Key versions are only compared, so that a
  -- natural number stands for each int, the negative ones too.
  pub int_text : ℕ → String
  pub parse_int : String → Option ℕ
  -- `hmac.new(key, message, hashlib.sha256).digest()` and `hmac.compare_digest`
  pub hmac : Bytes → Bytes → Bytes
  pub compare_digest : Bytes → Bytes → Bool
  -- `session_id.bytes` and `UUID(bytes=raw)`
  pub uuid_bytes : Uuid → Bytes
  pub uuid_of : Bytes → Uuid

-- What Python documents: each reader undoes its printer, a UUID has 16 bytes, and equal digests
-- compare as equal. Base64 texts and numbers have no dot, so that splitting undoes joining.
pub record IsInverse {Cookie Bytes : Type 0} (c : Crypto Cookie Bytes) : Type 0 where
  pub parts :
      (i s : Bytes) (v : ℕ)
      → c.split (c.join (c.b64u_encode i) (c.b64u_encode s) (c.int_text v))
        ≡ c.b64u_encode i ∷ c.b64u_encode s ∷ c.int_text v ∷ []
  pub base64 : (b : Bytes) → c.b64u_decode (c.b64u_encode b) ≡ some b
  pub int : (n : ℕ) → c.parse_int (c.int_text n) ≡ some n
  pub uuid : (i : Uuid) → c.uuid_of (c.uuid_bytes i) ≡ i
  pub sixteen : (i : Uuid) → c.byte_length (c.uuid_bytes i) ≡ 16
  pub digest : (b : Bytes) → c.compare_digest b b ≡ true

abbrev pub check_session : Option Session → Result Error Session
check_session none = err session_not_found
check_session (some s) = if s.revoked then err session_revoked else ok s

abbrev pub load_verified : Result Error Uuid → Rows → Result Error Session
load_verified (err e) rows = err e
load_verified (ok id) rows = check_session (lookup id rows)

valid_loaded : (s : Session) → s.revoked ≡ false → check_session (some s) ≡ ok s
valid_loaded s valid = ap (λ b. if b then err session_revoked else ok s) valid

module _ {Cookie Bytes : Type 0} where
  abbrev pub sign_with : Crypto Cookie Bytes → Option Bytes → ℕ → Uuid → Option Cookie
  sign_with c none active id = none
  sign_with c (some key) active id = some (
      c.join (c.b64u_encode (c.uuid_bytes id)) (c.b64u_encode (c.hmac key (c.uuid_bytes id)))
        (c.int_text active))

  -- `sign`, none for the KeyError of an active version without a key, which the constructor excludes
  unfoldable pub sign : Crypto Cookie Bytes → Dict Bytes → ℕ → Uuid → Option Cookie
  sign c keys active id = sign_with c (lookup active keys) active id

  abbrev pub check_signature :
      Crypto Cookie Bytes → Option Bytes → Bytes → Bytes → Result Error Uuid
  check_signature c none raw given = err cookie_signature_invalid
  check_signature c (some key) raw given =
      if c.compare_digest (c.hmac key raw) given
      then ok (c.uuid_of raw)
      else err cookie_signature_invalid

  abbrev pub check_parts :
      Crypto Cookie Bytes → Dict Bytes → Option Bytes → Option Bytes → Option ℕ → Result Error Uuid
  check_parts c keys (some raw) (some given) (some version) =
      if c.byte_length raw == 16
      then check_signature c (lookup version keys) raw given
      else err cookie_malformed
  check_parts c keys _ _ _ = err cookie_malformed

  abbrev pub verify_parts : Crypto Cookie Bytes → Dict Bytes → List String → Result Error Uuid
  verify_parts c keys (id ∷ sig ∷ version ∷ []) =
      check_parts c keys (c.b64u_decode id) (c.b64u_decode sig) (c.parse_int version)
  verify_parts c keys _ = err cookie_malformed

  unfoldable pub verify : Crypto Cookie Bytes → Dict Bytes → Cookie → Result Error Uuid
  verify c keys cookie = verify_parts c keys (c.split cookie)

  -- `load_session`
  unfoldable pub load_session :
      Crypto Cookie Bytes → Dict Bytes → Option Cookie → Rows → Result Error Session
  load_session c keys none rows = err session_not_found
  load_session c keys (some cookie) rows = load_verified (verify c keys cookie) rows

  verify_joined :
      (c : Crypto Cookie Bytes) (keys : Dict Bytes) (active : ℕ) (key : Bytes) (id : Uuid)
      → IsInverse c
      → lookup active keys ≡ some key
      → verify c keys (
          c.join
            (c.b64u_encode (c.uuid_bytes id))
            (c.b64u_encode (c.hmac key (c.uuid_bytes id)))
            (c.int_text active))
        ≡ ok id
  unfolding verify
  verify_joined c keys active key id inv h =
      let sig = c.hmac key (c.uuid_bytes id) in
      rw
        (
          inv.parts (c.uuid_bytes id) sig active,
          inv.base64 (c.uuid_bytes id),
          inv.base64 sig,
          inv.int active,
          inv.sixteen id,
          h,
          inv.digest sig,
          inv.uuid id,
        )
        refl

  -- A cookie that was signed under one set of keys loads its session under any other set that still
  -- has the key of its version, as long as the session is stored and not revoked.
  pub load_session-sign :
      (c : Crypto Cookie Bytes) (keys keys' : Dict Bytes) (active : ℕ) (key : Bytes) (id : Uuid)
      (s : Session) (rows : Rows)
      → IsInverse c
      → lookup active keys ≡ some key
      → lookup active keys' ≡ some key
      → lookup id rows ≡ some s
      → s.revoked ≡ false
      → load_session c keys' (sign c keys active id) rows ≡ ok s
  unfolding sign load_session
  load_session-sign c keys keys' active key id s rows inv h h' here valid =
      rw (h, verify_joined c keys' active key id inv h', here) (valid_loaded s valid)
