-- ===== src/MiniProgram/Merge.antt =====
-- `merge_users` moves the identities of one account to another.
use materials_manager.Base.{
  find-true, ℕ, ◌≡◌, ◌≢◌, ◌⊎◌, inl, inr, ap, sym, subst, ◌∙◌, Text, some, true, List, ◌||◌, find,
  All, All-map, if◌then◌else◌, if-true, if-false, ==→eq, Bool-cases, arith,
}
use materials_manager.Core.Common.Inversion.{validate_version-inv}
use materials_manager.Core.Tx.{ok}
use materials_manager.Core.Tx.Inversion.{
  gets-inv, or_raise-inv, raise_if-inv, modify-inv, pure-inv, pure-state,
}
use materials_manager.Model.Stock.{MiniProgramUser}
use materials_manager.Model.Database.{Db}
use materials_manager.MiniProgram.{
  is_user, user_row, owns, owner_of, merged_user, MiniProgramUserMergeRequest, merge_users,
}
use materials_manager.MiniProgram.Merged.{
  IsRowOf, IsKeyed, IsOwnedOnce, All-find, left_over, All-left_over, owner-other, owner-merged,
}

id-of :
    (id : ℕ) (users : List MiniProgramUser) (u : MiniProgramUser)
    → find (is_user id) users ≡ some u
    → u.id ≡ id
id-of id users u h = ==→eq u.id id (find-true (is_user id) users u h)

-- The two accounts of a merge, and what it leaves.
record IsMerge (target_id source_id : ℕ) (db : Db) (q : MiniProgramUser × Db) : Type 0 where
  target : MiniProgramUser
  source : MiniProgramUser
  of_target : user_row target_id db ≡ some target
  of_source : user_row source_id db ≡ some source
  apart : target_id ≢ source_id
  merged : q.0 ≡ merged_user target source
  left :
      q.1.mini_program_users ≡ left_over (merged_user target source) source.id db.mini_program_users

merge_users-inv :
    (target_id : ℕ) (request : MiniProgramUserMergeRequest) (db : Db) (q : MiniProgramUser × Db)
    → merge_users target_id request db ≡ ok q
    → IsMerge target_id request.source_user_id db q
unfolding merge_users
merge_users-inv target_id request db q h =
    let (differ, h1) = raise_if-inv _ _ _ db q h in
    let g1 = gets-inv _ _ db q h1 in
    let g2 = gets-inv _ _ db q g1 in
    let (target, et, h2) = or_raise-inv _ _ _ db q g2 in
    let (source, es, h3) = or_raise-inv _ _ _ db q h2 in
    let h4 = validate_version-inv _ _ _ db q h3 in
    let h5 = validate_version-inv _ _ _ db q h4 in
    let (alike, h6) = raise_if-inv _ _ _ db q h5 in
    let (free, h7) = raise_if-inv _ _ _ db q h6 in
    let h8 = modify-inv _ _ db q h7 in
    record {
      target = target;
      source = source;
      of_target = et;
      of_source = es;
      apart = (λ s. ground (arith, s, differ));
      merged = pure-inv _ _ q h8;
      left = ap (λ (d : Db). d.mini_program_users) (pure-state _ _ q h8);
    }

-- Once a user's row is found, the rows with its id are that row.
IsRowOf-find :
    (id : ℕ) (users : List MiniProgramUser) (u : MiniProgramUser)
    → IsKeyed users
    → find (is_user id) users ≡ some u
    → IsRowOf u users
IsRowOf-find id users u keyed e = All-find (λ v. IsRowOf v users) (is_user id) users u keyed e

module _ (app_id openid : Text) (users : List MiniProgramUser)
    (once : IsOwnedOnce app_id openid users) (id : ℕ) (u : MiniProgramUser)
    (e : find (is_user id) users ≡ some u) (own : owns app_id openid u ≡ true) where
  -- Every user with the identity of `u` is `u`, by its id.
  only-owner : All (λ v. owns app_id openid v ≡ true → v.id ≡ u.id) users
  only-owner =
      All-find
        (λ w.
          owns app_id openid w ≡ true → All (λ v. owns app_id openid v ≡ true → v.id ≡ w.id) users)
        (is_user id) users u once e own

module _ (app_id openid : Text) (users : List MiniProgramUser) (keyed : IsKeyed users)
    (once : IsOwnedOnce app_id openid users) (target source : MiniProgramUser)
    (target_id source_id : ℕ) (et : find (is_user target_id) users ≡ some target)
    (es : find (is_user source_id) users ≡ some source) where
  owners :
      (owns app_id openid target || owns app_id openid source) ≡ true
      → All (λ u. owns app_id openid u ≡ true → (u.id ≡ target.id) ⊎ (u.id ≡ source.id)) users
  owners y = elim (Bool-cases (owns app_id openid target)) [
    | inl o ↦
        All-map (λ v h p. inl (h p)) users
          (only-owner app_id openid users once target_id target et o)
    | inr n ↦
        All-map (λ v h p. inr (h p)) users
          (only-owner app_id openid users once source_id source es
            (ap (λ b. b || owns app_id openid source) (sym n) ∙ y))
  ]

  -- Of the accounts that are left, an identity of the two opens the merged one.
  owner-left_over :
      target.id ≢ source.id
      → find (owns app_id openid) (left_over (merged_user target source) source.id users) ≡ (
          if owns app_id openid target || owns app_id openid source
          then some (merged_user target source)
          else find (owns app_id openid) users)
  owner-left_over d = elim (Bool-cases (owns app_id openid target || owns app_id openid source)) [
    | inl y ↦
        owner-merged app_id openid target source users y d (owners y) target
          (ap (λ n. find (is_user n) users) (id-of target_id users target et) ∙ et)
        ∙ sym (if-true _ _ _ y)
    | inr n ↦
        owner-other app_id openid target source users n d
          (IsRowOf-find target_id users target keyed et)
          (IsRowOf-find source_id users source keyed es)
        ∙ sym (if-false _ _ _ n)
  ]

-- After `merge_users` the source is gone, the target has its id still, and an identity that one of
-- the two had opens the merged account. Any other identity opens the account that it opened before.
-- `id` is a key of the table, and the identity is owned once, as its unique key demands.
pub merge_users-owner :
    (target_user_id : ℕ) (request : MiniProgramUserMergeRequest) (app_id openid : Text) (db : Db)
    (q : MiniProgramUser × Db)
    → IsKeyed db.mini_program_users
    → IsOwnedOnce app_id openid db.mini_program_users
    → merge_users target_user_id request db ≡ ok q
    → (target : MiniProgramUser) × (source : MiniProgramUser) × (user_row target_user_id db
        ≡ some target)
      × (user_row request.source_user_id db ≡ some source)
      × (q.0.id ≡ target_user_id)
      × All (λ u. u.id ≢ request.source_user_id) q.1.mini_program_users
      × (owner_of app_id openid q.1 ≡ (
          if owns app_id openid target || owns app_id openid source
          then some q.0
          else owner_of app_id openid db))
merge_users-owner target_user_id request app_id openid db q keyed once h =
    let m = merge_users-inv target_user_id request db q h in
    let st = id-of target_user_id db.mini_program_users m.target m.of_target in
    let ss = id-of request.source_user_id db.mini_program_users m.source m.of_source in
    let owner =
      owner-left_over app_id openid db.mini_program_users keyed once m.target m.source
        target_user_id request.source_user_id m.of_target m.of_source
        (λ s. m.apart (sym st ∙ s ∙ ss)) in
    (
      m.target,
      m.source,
      m.of_target,
      m.of_source,
      ap (λ (u : MiniProgramUser). u.id) m.merged ∙ st,
      subst (All (λ u. u.id ≢ request.source_user_id)) (sym m.left) (
          subst
            (λ n.
              All (λ u. u.id ≢ n)
                (left_over (merged_user m.target m.source) m.source.id db.mini_program_users))
            ss (All-left_over (merged_user m.target m.source) m.source.id db.mini_program_users)),
      ap (find (owns app_id openid)) m.left
          ∙ owner
          ∙ ap
              (λ u.
                if owns app_id openid m.target || owns app_id openid m.source
                then some u
                else owner_of app_id openid db)
              (sym m.merged),
    )
