-- ===== src/Sessions/Tests.antt =====
-- The sessions theorems at an anonymous session 1 and a session 2 of user 9.
use estate_os_service.Base.{
  String, ◌≡◌, refl, ap, false, some, List, [], ◌∷◌, arith, str_eq, eq_iff,
}
use estate_os_service.Exec.{ok}
use estate_os_service.Json.{Fields, obj, num, text, field, end}
use estate_os_service.Dict.{Dict}
use estate_os_service.Strokes.{strokes, count, count-strokes}
use estate_os_service.Sessions.Model.{Session, authenticated, merge}
use estate_os_service.Sessions.UseCases.{Rows, fresh_session, claim_session, prune_stale_anonymous}
use estate_os_service.Sessions.Slices.{Settings, AreSound}
use estate_os_service.Sessions.Histories.{Steps, done, then_step, claims, prunes, sessions-AreSound}
use estate_os_service.Sessions.Cookie.{Crypto, IsInverse, sign, load_session, load_session-sign}
use estate_os_service.Sessions.Owner.{IsBound, session_kept-IsBound}
use estate_os_service.Sessions.Merging.{merge_idem, is_dict}

-- Every document is taken to be two bytes long, and every token is user 9's.
abbrev settings : Settings
settings = record {
  encoded_bytes = λ j. 2;
  favorites_cap = 3;
  prefs_max_bytes = 100;
  debounce_seconds = 60;
  ttl_days = 30;
  validate = λ token. some 9;
}

abbrev visitor : Session
visitor = fresh_session 1 100

abbrev rows : Rows
rows = (1, visitor) ∷ []

abbrev after_claim : Rows
after_claim = (claim_session settings.validate visitor "token" 200 rows).1

abbrev claiming : Steps settings (λ i. false) rows after_claim
claiming = then_step done (claims 1 visitor "token" 200 refl)

sessions-AreSound_example : AreSound settings after_claim
sessions-AreSound_example =
    sessions-AreSound settings (λ i. false) rows after_claim claiming (ground arith)
      (record { own = refl; bound = refl; few = ground arith; small = ground arith }, tt)

abbrev crypto : Crypto (List String) String
crypto = record {
  join = λ i s v. i ∷ s ∷ v ∷ [];
  split = λ c. c;
  b64u_encode = λ b. b;
  b64u_decode = λ t. some t;
  byte_length = λ b. 16;
  int_text = strokes;
  parse_int = λ t. some (count t);
  hmac = λ key message. key;
  compare_digest = str_eq;
  uuid_bytes = strokes;
  uuid_of = count;
}

crypto-IsInverse : IsInverse crypto
crypto-IsInverse = record {
  parts = λ i s v. refl;
  base64 = λ b. refl;
  int = λ n. ap some (count-strokes n);
  uuid = count-strokes;
  sixteen = λ i. refl;
  digest = λ b. (eq_iff b b).1 refl;
}

abbrev old_keys : Dict String
old_keys = (1, "secret") ∷ []

abbrev new_keys : Dict String
new_keys = (1, "secret") ∷ (2, "newer") ∷ []

load_session-sign_example :
    load_session crypto new_keys (sign crypto old_keys 1 1) rows ≡ ok visitor
load_session-sign_example =
    load_session-sign crypto old_keys new_keys 1 "secret" 1 visitor rows crypto-IsInverse refl refl
      refl refl

abbrev prefs : Fields
prefs = field "theme" (text "dark") (field "map" (obj (field "zoom" (num 3) end)) end)

abbrev patch : Fields
patch = field "map" (obj (field "zoom" (num 5) (field "layer" (text "sat") end))) end

merge_idem_example : merge (merge prefs patch) patch ≡ merge prefs patch
unfolding is_dict
merge_idem_example = merge_idem prefs patch refl

abbrev member : Session
member = record (fresh_session 2 100) { kind = authenticated; user_id = some 8 }

abbrev two_rows : Rows
two_rows = (1, visitor) ∷ (2, member) ∷ []

two_rows-AreSound : AreSound settings two_rows
two_rows-AreSound = (
  record { own = refl; bound = refl; few = ground arith; small = ground arith },
  (record { own = refl; bound = refl; few = ground arith; small = ground arith }, tt),
)

abbrev after_both : Rows
after_both =
    (prune_stale_anonymous 30 9000000000000
      (claim_session settings.validate member "token" 200 two_rows).1).1

abbrev attacking : Steps settings (λ i. false) two_rows after_both
attacking = then_step (then_step done (claims 2 member "token" 200 refl)) (prunes 9000000000000)

session_kept-IsBound_example : IsBound 2 8 after_both
session_kept-IsBound_example =
    session_kept-IsBound settings (λ i. false) 2 8 two_rows after_both refl (ground arith)
      two_rows-AreSound (member, refl, refl, refl) attacking
