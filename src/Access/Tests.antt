-- ===== src/Access/Tests.antt =====
-- Instances of the theorems on access, with tokens that are not signed but written out.
use materials_manager.Base.{
  ℕ, ◌+◌, ◌≡◌, ◌⊎◌, refl, Text, text, text_eq, Option, none, some, true, [], ◌∷◌, ◌++◌, find, ltb,
  length, take, drop, suc, zero, lt→ltb, leb, ◌≤◌, ◌&&◌, ap, if◌then◌else◌, arith,
}
use materials_manager.Core.Enums.{Role}
use materials_manager.Core.Calendar.{Time}
use materials_manager.Core.Tx.{ok, actions}
use materials_manager.Model.Accounts.{User}
use materials_manager.Model.Database.{Db, empty_db}
use materials_manager.Access.Tokens.{TokenPair, token_pair, login}
use materials_manager.Access.{
  Claims, remember_token, find_user_by_api_token, authenticate_user_api_token,
  authenticate_management_user,
}
use materials_manager.Access.Sessions.{IsAdmitted, authenticate_management_user-IsAdmitted}
use materials_manager.Access.Login.{whole_seconds, IsCodec, IsSession, login-IsSession}

abbrev keeper : User
keeper = record {
  id = 7;
  username = text "li";
  password_hash = text "pw";
  api_token_hash = text "0123456789-0123456789-0123456789-012";
  api_token_enc = [];
  display_name = text "Li";
  role = Role.warehouse_admin;
  enabled = true;
  version = 3;
}

abbrev db : Db
db = record empty_db { users = keeper ∷ [] }

-- A codec: a mark, the issue, the end, and the claims one after the other with their lengths.
abbrev write_claim : Option Text → Text
write_claim none = 0 ∷ []
write_claim (some s) = suc (length s) ∷ s

abbrev read_claim : Text → Option Text × Text
read_claim [] = (none, [])
read_claim (zero ∷ s) = (none, s)
read_claim (suc n ∷ s) = (some (take n s), drop n s)

abbrev mark : Text
mark = text "this-is-a-token-of-the-materials-manager"

abbrev encode : Claims → Time → Time → Text
encode c issued end_at =
    mark
    ++ issued
      ∷ whole_seconds end_at
      ∷ (write_claim c.sub
          ++ (write_claim c.token_type ++ (write_claim c.version ++ (write_claim c.app_id ++ []))))

abbrev read_claims : Text → Claims
read_claims s =
    let a = read_claim s in
    let b = read_claim a.1 in
    let c = read_claim b.1 in
    let d = read_claim c.1 in record { sub = a.0; token_type = b.0; version = c.0; app_id = d.0 }

abbrev decode_body : Time → Text → Option Claims
decode_body now [] = none
decode_body now (issued ∷ []) = none
decode_body now (issued ∷ end_at ∷ s) =
    if leb issued now && ltb now end_at then some (read_claims s) else none

abbrev decode : Time → Text → Option Claims
decode now token = decode_body now (drop 40 token)

take-append : (s t : Text) → take (length s) (s ++ t) ≡ s
take-append [] t = refl
take-append (c ∷ s) t = ap (λ (r : Text). c ∷ r) (take-append s t)

drop-append : (s t : Text) → drop (length s) (s ++ t) ≡ t
drop-append [] t = refl
drop-append (c ∷ s) t = drop-append s t

read-write : (o : Option Text) (t : Text) → read_claim (write_claim o ++ t) ≡ (o, t)
read-write none t = refl
read-write (some s) t = let e = take-append s t in let f = drop-append s t in cc

read_claims-all :
    (c : Claims)
    → read_claims (
        write_claim c.sub
        ++ (write_claim c.token_type ++ (write_claim c.version ++ (write_claim c.app_id ++ []))))
      ≡ c
read_claims-all c = simp read-write

le→leb : (a b : ℕ) → a ≤ b → leb a b ≡ true
le→leb a b h = ground arith

codec : IsCodec encode decode
codec = record {
  reads = λ c issued end_at now s h.
      rw (le→leb issued now s, lt→ltb now (whole_seconds end_at) h) (ap some (read_claims-all c));
  long = λ c issued end_at. ground arith;
}

abbrev access_end : Time → Time
access_end t = t + 30000000

abbrev refresh_end : Time → Time
refresh_end t = t + 700000000

abbrev plain : Text → Text
plain s = s

abbrev logged_in : TokenPair
logged_in = token_pair encode access_end refresh_end 100 keeper

logs_in :
    login encode text_eq text_eq access_end refresh_end 100 (text "li") (text "pw") db
    ≡ ok (logged_in, db)
unfolding login actions
logs_in = refl

login-IsSession_example :
    (user : User) × (find (λ u. text_eq u.username (text "li")) db.users ≡ some user)
    × (text_eq (text "pw") user.password_hash ≡ true)
    × (user.enabled ≡ true)
    × (db ≡ db)
    × IsSession encode decode codec text_eq text_eq plain plain access_end refresh_end 100 user
        logged_in db
login-IsSession_example =
    login-IsSession encode decode codec text_eq text_eq plain plain access_end refresh_end 100
      (text "li") (text "pw") db (logged_in, db) refl logs_in

abbrev keeper_token : Text
keeper_token = text "0123456789-0123456789-0123456789-012"

abbrev known : User
known = record keeper { api_token_enc = keeper_token }

abbrev known_db : Db
known_db = record db { users = known ∷ [] }

-- The token of the header, which the database has only as a hash, is remembered.
lets_in :
    authenticate_management_user plain plain decode 100 none (some keeper_token) db
    ≡ ok (known, known_db)
unfolding authenticate_management_user authenticate_user_api_token find_user_by_api_token
    remember_token actions
lets_in = refl

authenticate_management_user-IsAdmitted_example :
    (token : Text) × ((◌≡◌ {A = Option Text} (some keeper_token) (some token))
      ⊎ (◌≡◌ {A = Option Text} none (some token)))
    × IsAdmitted plain plain decode 100 token known db
    × (known.enabled ≡ true)
authenticate_management_user-IsAdmitted_example =
    authenticate_management_user-IsAdmitted plain plain decode 100 none (some keeper_token) db
      (known, known_db) lets_in
