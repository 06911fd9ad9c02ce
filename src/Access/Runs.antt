-- ===== src/Access/Runs.antt =====
-- How the guards of the tokens run on a token that is read.
use materials_manager.Base.{
  some-inj, ℕ, ◌≡◌, refl, sym, ap, ◌∙◌, subst, inl, inr, ℤ, pos, Text, text, Option, none, some,
  Bool, true, false, List, [], ◌∷◌, ◌&&◌, ◌||◌, ◌==◌, ==→eq, ==-refl, find, map, contains,
  all_distinct, Bool-cases, arith, if◌then◌else◌,
}
use materials_manager.Core.Errors.{ErrorCode, app}
use materials_manager.Core.Calendar.{Time}
use materials_manager.Core.Tx.{ok, err, raise_if, or_raise, actions}
use materials_manager.Model.Accounts.{User}
use materials_manager.Model.Database.{Db}
use materials_manager.Access.Sessions.{guard-inv}
use materials_manager.Access.Tokens.{token_pair, refresh, checked_user, current_user}
use materials_manager.Access.{
  Claims, user_of, enabled_user, error_of, authenticate_access_token, get_current_mini_program_user,
  int_claim, is_management, is_type,
}

abbrev pub user_ids : List User → List ℕ
user_ids us = map (λ u. u.id) us

pub contains-found :
    (p : User → Bool) (us : List User) (u : User)
    → find p us ≡ some u
    → contains u.id (user_ids us) ≡ true
contains-found p [] u h = absurd (cc)
contains-found p (v ∷ us) u h = elim (Bool-cases (p v)) [
  | inl e ↦
      let k = rw e at h in
      subst (λ (x : User). (x.id == v.id) || contains x.id (user_ids us) ≡ true) (some-inj v u k)
        (ground (arith, ==-refl v.id))
  | inr e ↦ let k = rw e at h in let ih = contains-found p us u k in ground (arith, ih)
]

-- With distinct ids, a user that was found is found by its id.
pub find-by_id :
    (p : User → Bool) (us : List User) (u : User)
    → all_distinct (user_ids us) ≡ true
    → find p us ≡ some u
    → find (λ v. v.id == u.id) us ≡ some u
find-by_id p [] u d h = absurd (cc)
find-by_id p (v ∷ us) u d h = elim (Bool-cases (p v)) [
  | inl e ↦
      let k = rw e at h in
      let same = some-inj v u k in
      subst (λ (x : User). (if v.id == x.id then some v else find (λ w. w.id == x.id) us) ≡ some x)
        same (let r = ==-refl v.id in rw r refl)
  | inr e ↦
      let k = rw e at h in
      let there = contains-found p us u k in
      elim (Bool-cases (v.id == u.id)) [
        | inl f ↦
            let same = ==→eq v.id u.id f in
            let again = subst (λ (n : ℕ). contains n (user_ids us) ≡ true) (sym same) there in
            absurd (ground arith)
        | inr f ↦ rw f (find-by_id p us u (ground arith) k)
      ]
]

-- An enabled user passes the guard. The record is named apart, as a rewrite would enter it.
guarded : (u : User) → u.enabled ≡ true → enabled_user (some u) ≡ some u
guarded u h = ap (λ (b : Bool). if b then some u else none) h

module _ (hash_api_token encrypt_secret : Text → Text) (decode : Time → Text → Option Claims) where
  pub access-run :
      (now : Time) (token : Text) (db : Db) (claims : Claims) (id : ℤ) (u : User)
      → decode now token ≡ some claims
      → is_management claims ≡ true
      → int_claim claims.sub ≡ some id
      → user_of id db ≡ some u
      → u.enabled ≡ true
      → authenticate_access_token hash_api_token encrypt_secret decode now token db ≡ ok (u, db)
  unfolding authenticate_access_token actions
  access-run now token db claims id u signed m sub there on =
      let enabled : enabled_user (user_of id db) ≡ some u = ap enabled_user there ∙ guarded u on in
      rw (or_raise, signed) (rw (raise_if, m) (rw (or_raise, sub) (rw (or_raise, enabled) refl)))

  pub access-refused :
      (now : Time) (token : Text) (db : Db) (claims : Claims)
      → decode now token ≡ some claims
      → is_management claims ≡ false
      → authenticate_access_token hash_api_token encrypt_secret decode now token db
        ≡ err (app (error_of ErrorCode.invalid_token))
  unfolding authenticate_access_token actions
  access-refused now token db claims signed m = rw (or_raise, signed) (rw (raise_if, m) refl)

pub checked-inv :
    (verify_password : Text → Text → Bool) (password : Text) (o : Option User) (u : User)
    → checked_user verify_password password o ≡ some u
    → (o ≡ some u) × (u.enabled ≡ true) × (verify_password password u.password_hash ≡ true)
checked-inv verify_password password none u h = absurd (cc)
checked-inv verify_password password (some v) u h =
    let (e, same) = guard-inv (v.enabled && verify_password password v.password_hash) v u h in
    let both =
      subst (λ (x : User). (x.enabled && verify_password password x.password_hash) ≡ true) same e in
    (ap some same, ground arith, ground arith)

module _ (encode : Claims → Time → Time → Text) (decode : Time → Text → Option Claims)
    (access_end refresh_end : Time → Time) where
  pub refresh-run :
      (now : Time) (token : Text) (db : Db) (claims : Claims) (id version : ℤ) (u : User)
      → decode now token ≡ some claims
      → is_type (text "management_refresh") claims ≡ true
      → int_claim claims.sub ≡ some id
      → int_claim claims.version ≡ some version
      → user_of id db ≡ some u
      → current_user version (some u) ≡ some u
      → refresh encode decode access_end refresh_end now token db
        ≡ ok (token_pair encode access_end refresh_end now u, db)
  unfolding refresh actions
  refresh-run now token db claims id version u signed t sub v there current =
      let found : current_user version (user_of id db) ≡ some u =
        ap (current_user version) there ∙ current in
      rw (or_raise, signed)
        (rw (raise_if, t) (rw (or_raise, sub) (rw (or_raise, v) (rw (or_raise, found) refl))))

  pub refresh-refused :
      (now : Time) (token : Text) (db : Db) (claims : Claims)
      → decode now token ≡ some claims
      → is_type (text "management_refresh") claims ≡ false
      → refresh encode decode access_end refresh_end now token db
        ≡ err (app (error_of ErrorCode.invalid_refresh_token))
  unfolding refresh actions
  refresh-refused now token db claims signed t = rw (or_raise, signed) (rw (raise_if, t) refl)

pub mini_program-refused :
    (decode : Time → Text → Option Claims) (now : Time) (token : Text) (db : Db) (claims : Claims)
    → decode now token ≡ some claims
    → is_type (text "mini_program") claims ≡ false
    → get_current_mini_program_user decode now (some token) db
      ≡ err (app (error_of ErrorCode.invalid_token))
unfolding get_current_mini_program_user actions
mini_program-refused decode now token db claims signed t =
    rw (or_raise, signed) (rw (raise_if, t) refl)

pub current_self : (u : User) → u.enabled ≡ true → current_user (pos u.version) (some u) ≡ some u
current_self u on =
    let both : (u.enabled && (u.version == u.version)) ≡ true = ground (arith, ==-refl u.version) in
    ap (λ (b : Bool). if b then some u else none) both
