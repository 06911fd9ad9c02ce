-- ===== src/Access/Sessions.antt =====
-- What an accepted credential proves, and that the program accepts the tokens that it gives.
use materials_manager.Base.{
  not-false, some-inj, find-true, ◌≡◌, ◌⊎◌, refl, sym, ap, ◌∙◌, subst, inl, inr, ℤ, Text, text_eq,
  Option, none, some, Bool, true, false, [], ◌∷◌, ◌==◌, leb, find, length, truthy, Bool-cases,
  arith, if◌then◌else◌,
}
use materials_manager.Core.Errors.{Failure}
use materials_manager.Core.Calendar.{Time}
use materials_manager.Core.Tx.{Result, ok, err, raise}
use materials_manager.Core.Tx.Inversion.{
  bind-inv, gets-inv, modify-inv, or_raise-inv, or_raise-last, raise_if-inv, pure-inv,
}
use materials_manager.Model.Accounts.{User}
use materials_manager.Model.Database.{Db}
use materials_manager.Access.{
  Claims, is_management, is_user_disabled, int_claim, user_of, enabled_user, has_token,
  remember_token, find_user_by_api_token, authenticate_user_api_token, authenticate_access_token,
  or_else_access, authenticate_bearer, authenticate_management_user,
}

pub guard-inv :
    {A : Type 0} (b : Bool) (v u : A) → (if b then some v else none) ≡ some u → (b ≡ true) × (v ≡ u)
guard-inv true v u h = (refl, cc)
guard-inv false v u h = absurd (cc)

enabled_user-inv :
    (o : Option User) (u : User) → enabled_user o ≡ some u → (o ≡ some u) × (u.enabled ≡ true)
enabled_user-inv none u h = absurd (cc)
enabled_user-inv (some v) u h =
    let (e, same) = guard-inv v.enabled v u h in
    (ap some same, ap (λ (x : User). x.enabled) (sym same) ∙ e)

module _ (decode : Time → Text → Option Claims) (now : Time) where
  -- A token that was signed as one of the management interface, for a user that exists.
  pub record IsAccess (token : Text) (user : User) (db : Db) : Type 0 where
    pub claims : Claims
    pub user_id : ℤ
    pub signed : decode now token ≡ some claims
    pub management : is_management claims ≡ true
    pub sub : int_claim claims.sub ≡ some user_id
    pub of_table : user_of user_id db ≡ some user

module _ (hash_api_token encrypt_secret : Text → Text) (decode : Time → Text → Option Claims) where
  IsAccess-inv :
      (now : Time) (token : Text) (db : Db) (q : User × Db)
      → authenticate_access_token hash_api_token encrypt_secret decode now token db ≡ ok q
      → IsAccess decode now token q.0 db × (q.0.enabled ≡ true) × (q.1 ≡ db)
  unfolding authenticate_access_token
  IsAccess-inv now token db q h =
      let (claims, signed, h1) = or_raise-inv _ _ _ db q h in
      let (m, h2) = raise_if-inv _ _ _ db q h1 in
      let (id, sub, h3) = or_raise-inv _ _ _ db q h2 in
      let h4 = gets-inv _ _ db q h3 in
      let (e, same) = or_raise-last (enabled_user (user_of id db)) _ db q h4 in
      let (there, enabled) = enabled_user-inv (user_of id db) q.0 e in
      (
        record {
          claims = claims;
          user_id = id;
          signed = signed;
          management = not-false _ m;
          sub = sub;
          of_table = there;
        },
        enabled,
        same,
      )

  abbrev pub token_of : Text → User → Bool
  token_of token user = text_eq user.api_token_hash (hash_api_token token)

  remember-inv :
      (token : Text) (o : Option User) (db : Db) (q : Option User × Db) (user : User)
      → ((u : User) → o ≡ some u → token_of token u ≡ true)
      → remember_token hash_api_token encrypt_secret token o db ≡ ok q
      → q.0 ≡ some user
      → token_of token user ≡ true
  unfolding remember_token
  remember-inv token none db q user t h e = absurd (ground (arith, pure-inv none db q h))
  remember-inv token (some u) db q user t h e = elim (Bool-cases (truthy u.api_token_enc)) [
    | inl k ↦
        let h1 = rw (remember_token, k) at h in
        let same : u ≡ user = some-inj u user (sym (pure-inv _ db q h1) ∙ e) in
        subst (λ (x : User). text_eq x.api_token_hash (hash_api_token token) ≡ true) same (t u refl)
    | inr k ↦
        let h1 = rw (remember_token, k) at h in
        let h2 = modify-inv _ _ db q h1 in
        let same = some-inj _ user (sym (pure-inv _ _ q h2) ∙ e) in
        ap (λ (x : User). text_eq x.api_token_hash (hash_api_token token)) (sym same) ∙ t u refl
  ]

  find_user-inv :
      (token : Text) (db : Db) (q : Option User × Db) (user : User)
      → find_user_by_api_token hash_api_token encrypt_secret token db ≡ ok q
      → q.0 ≡ some user
      → token_of token user ≡ true
  unfolding find_user_by_api_token
  find_user-inv token db q user h e = elim (Bool-cases (length token == 36)) [
    | inl k ↦
        let h1 = rw k at h in
        let h2 = gets-inv _ _ db q h1 in
        remember-inv token (find (has_token hash_api_token encrypt_secret token) db.users) db q user
          (find-true (has_token hash_api_token encrypt_secret token) db.users) h2 e
    | inr k ↦ let h1 = rw k at h in absurd (ground (arith, pure-inv _ db q h1))
  ]

  token-inv :
      (token : Text) (db : Db) (q : User × Db)
      → authenticate_user_api_token hash_api_token encrypt_secret token db ≡ ok q
      → (token_of token q.0 ≡ true) × (q.0.enabled ≡ true)
  unfolding authenticate_user_api_token
  token-inv token db q h =
      let (found, s, f, h1) =
        bind-inv (find_user_by_api_token hash_api_token encrypt_secret token) _ db q h in
      let (user, e, h2) = or_raise-inv found _ _ s q h1 in
      let (on, h3) = raise_if-inv _ _ _ s q h2 in
      let same = pure-inv _ s q h3 in
      (
        find_user-inv token db (found, s) q.0 f (e ∙ ap some (sym same)),
        ap (λ (x : User). x.enabled) same ∙ not-false _ on,
      )

  -- What a credential proves of the user that it was accepted for.
  abbrev pub IsAdmitted : Time → Text → User → Db → Type 0
  IsAdmitted now token user db = (token_of token user ≡ true) ⊎ IsAccess decode now token user db

  bearer-inv :
      (now : Time) (token : Text) (db : Db) (r : Result (User × Db)) (q : User × Db)
      → ((p : User × Db) → r ≡ ok p → (token_of token p.0 ≡ true) × (p.0.enabled ≡ true))
      → or_else_access hash_api_token encrypt_secret decode r
          (authenticate_access_token hash_api_token encrypt_secret decode now token)
          db
        ≡ ok q
      → IsAdmitted now token q.0 db × (q.0.enabled ≡ true)
  bearer-inv now token db (ok p) q t h = let (a, b) = t q h in (inl a, b)
  bearer-inv now token db (err (Failure.app e)) q t h =
      elim (Bool-cases (is_user_disabled e.code)) [
        | inl k ↦ let h1 = rw k at h in absurd (cc)
        | inr k ↦ let h1 = rw k at h in let (a, b, c) = IsAccess-inv now token db q h1 in (inr a, b)
      ]
  bearer-inv now token db (err f) q t h = absurd (cc)

  bearer :
      (now : Time) (token : Text) (db : Db) (q : User × Db)
      → authenticate_bearer hash_api_token encrypt_secret decode now token db ≡ ok q
      → IsAdmitted now token q.0 db × (q.0.enabled ≡ true)
  unfolding authenticate_bearer
  bearer now token db q h = elim (Bool-cases (leb (length token) 36)) [
    | inl k ↦
        let h1 = rw k at h in
        bearer-inv now token db (authenticate_user_api_token hash_api_token encrypt_secret token db)
          q (token-inv token db) h1
    | inr k ↦ let h1 = rw k at h in let (a, b, c) = IsAccess-inv now token db q h1 in (inr a, b)
  ]

  -- A user that the management interface lets in is enabled, and has shown a credential: the token of the
  -- header, if there is one, or else the bearer token. It is an interface token whose hash the user has,
  -- or it was signed by the program, for this user and as a token of the management interface.
  pub authenticate_management_user-IsAdmitted :
      (now : Time) (credentials api_token : Option Text) (db : Db) (q : User × Db)
      → authenticate_management_user hash_api_token encrypt_secret decode now credentials api_token
          db
        ≡ ok q
      → (token : Text) × ((api_token ≡ some token) ⊎ (credentials ≡ some token))
        × IsAdmitted now token q.0 db
        × (q.0.enabled ≡ true)
  unfolding authenticate_management_user authenticate_bearer raise
  authenticate_management_user-IsAdmitted now credentials (some (c ∷ token)) db q h =
      let (a, b) = token-inv (c ∷ token) db q h in (c ∷ token, inl refl, inl a, b)
  authenticate_management_user-IsAdmitted now none none db q h = absurd (cc)
  authenticate_management_user-IsAdmitted now none (some []) db q h = absurd (cc)
  authenticate_management_user-IsAdmitted now (some token) none db q h =
      let (a, b) = bearer now token db q h in (token, inr refl, a, b)
  authenticate_management_user-IsAdmitted now (some token) (some []) db q h =
      let (a, b) = bearer now token db q h in (token, inr refl, a, b)
