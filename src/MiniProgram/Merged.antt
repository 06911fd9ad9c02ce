-- ===== src/MiniProgram/Merged.antt =====
-- Whose account an identity opens after `merge_users`.
use materials_manager.Base.{
  some-inj, any-append, ==-other, ℕ, ◌≡◌, ◌≢◌, ◌⊎◌, inl, inr, refl, ap, sym, subst, ◌∙◌, Text, some,
  Bool, true, false, List, [], ◌∷◌, not, ◌||◌, ◌==◌, find, keep, map, All, if◌then◌else◌, if-true,
  if-false, keep-drops, keep-keeps, find-skips, find-hits, ==→eq, ==-refl, Bool-cases, arith,
}
use materials_manager.Model.Stock.{MiniProgramUser}
use materials_manager.MiniProgram.{is_user, is_identity, owns, write_user, merged_user}

owns-merged_user :
    (app_id openid : Text) (target source : MiniProgramUser)
    → owns app_id openid (merged_user target source)
      ≡ (owns app_id openid target || owns app_id openid source)
owns-merged_user app_id openid target source =
    any-append (is_identity app_id openid) target.identities source.identities

-- The rows with the id of a user are that user: `id` is a key.
abbrev pub IsRowOf : MiniProgramUser → List MiniProgramUser → Type 0
IsRowOf user = All (λ u. u.id ≡ user.id → u ≡ user)

-- `id` is a key of the table.
abbrev pub IsKeyed : List MiniProgramUser → Type 0
IsKeyed users = All (λ user. IsRowOf user users) users

-- The unique key over an identity.
abbrev pub IsOwnedOnce : Text → Text → List MiniProgramUser → Type 0
IsOwnedOnce app_id openid users =
    All
      (λ u.
        owns app_id openid u ≡ true → All (λ v. owns app_id openid v ≡ true → v.id ≡ u.id) users)
      users

pub All-find {κ} :
    (P : MiniProgramUser → Type κ) (f : MiniProgramUser → Bool) (xs : List MiniProgramUser)
    (x : MiniProgramUser)
    → All P xs
    → find f xs ≡ some x
    → P x
All-find P f [] x h e = absurd (cc)
All-find P f (y ∷ ys) x h e = elim (Bool-cases (f y)) [
  | inl t ↦ let k = rw t at e in subst P (some-inj y x k) h.0
  | inr n ↦ let k = rw n at e in All-find P f ys x h.1 k
]

-- The accounts that are left when the source of a merge has gone into its target.
abbrev pub left_over : MiniProgramUser → ℕ → List MiniProgramUser → List MiniProgramUser
left_over merged source_id users =
    keep (λ u. not (is_user source_id u)) (map (write_user merged) users)

pub All-left_over :
    (merged : MiniProgramUser) (source_id : ℕ) (users : List MiniProgramUser)
    → All (λ u. u.id ≢ source_id) (left_over merged source_id users)
All-left_over merged source_id [] = tt
All-left_over merged source_id (u ∷ users) =
    let rest = All-left_over merged source_id users in
    elim (Bool-cases (is_user source_id (write_user merged u))) [
      | inl e ↦ rw e rest
      | inr e ↦ rw e (λ same. ground arith, rest)
    ]

is_user_self : (id : ℕ) (u : MiniProgramUser) → u.id ≡ id → is_user id u ≡ true
is_user_self id u e = rw e (==-refl id)

-- What becomes of one account in the merge.
data Fate (target source u : MiniProgramUser) (users : List MiniProgramUser) : Type 0 where
  gone :
      u.id ≡ source.id
      → left_over (merged_user target source) source.id (u ∷ users)
        ≡ left_over (merged_user target source) source.id users
      → Fate target source u users
  grown :
      u.id ≡ target.id
      → left_over (merged_user target source) source.id (u ∷ users)
        ≡ merged_user target source ∷ left_over (merged_user target source) source.id users
      → Fate target source u users
  kept :
      u.id ≢ source.id
      → u.id ≢ target.id
      → left_over (merged_user target source) source.id (u ∷ users)
        ≡ u ∷ left_over (merged_user target source) source.id users
      → Fate target source u users

fate :
    (target source u : MiniProgramUser) (users : List MiniProgramUser)
    → target.id ≢ source.id
    → Fate target source u users
fate target source u users d = elim (Bool-cases (u.id == target.id)) [
  | inl e ↦
      let same = ==→eq u.id target.id e in
      let w = if-true (u.id == target.id) (merged_user target source) u e in
      Fate.grown same (
        keep-keeps (λ v. not (is_user source.id v)) (write_user (merged_user target source) u)
          (map (write_user (merged_user target source)) users)
          (rw w (rw (==-other target.id source.id d) refl))
        ∙ ap (λ v. v ∷ left_over (merged_user target source) source.id users) w)
  | inr e ↦
      let w = if-false (u.id == target.id) (merged_user target source) u e in
      elim (Bool-cases (u.id == source.id)) [
        | inl f ↦ Fate.gone (==→eq u.id source.id f) (
            keep-drops (λ v. not (is_user source.id v)) (write_user (merged_user target source) u)
              (map (write_user (merged_user target source)) users)
              (ap (λ v. not (is_user source.id v)) w ∙ ap not f))
        | inr f ↦
            Fate.kept (λ s. ground (arith, s, f)) (λ s. ground (arith, s, e))
              (keep-keeps (λ v. not (is_user source.id v))
                  (write_user (merged_user target source) u)
                  (map (write_user (merged_user target source)) users)
                  (ap (λ v. not (is_user source.id v)) w ∙ ap not f)
                ∙ ap (λ v. v ∷ left_over (merged_user target source) source.id users) w)
      ]
]

or-false : (a b : Bool) → (a || b) ≡ false → (a ≡ false) × (b ≡ false)
or-false false b h = (refl, h)
or-false true b h = absurd (cc)

module _ (app_id openid : Text) (target source : MiniProgramUser) where
  abbrev merged : MiniProgramUser
  merged = merged_user target source

  -- An identity that neither of the two has opens the account that it opened before.
  pub owner-other :
      (users : List MiniProgramUser)
      → (owns app_id openid target || owns app_id openid source) ≡ false
      → target.id ≢ source.id
      → IsRowOf target users
      → IsRowOf source users
      → find (owns app_id openid) (left_over merged source.id users)
        ≡ find (owns app_id openid) users
  owner-other [] n d t s = refl
  owner-other (u ∷ users) n d t s =
      let rest = owner-other users n d t.1 s.1 in
      let (nt, ns) = or-false (owns app_id openid target) (owns app_id openid source) n in
      elim (fate target source u users d) [
        | gone e k ↦
            ap (find (owns app_id openid)) k
            ∙ rest
            ∙ sym (find-skips (owns app_id openid) u users (ap (owns app_id openid) (s.0 e) ∙ ns))
        | grown e k ↦
            ap (find (owns app_id openid)) k
            ∙ find-skips (owns app_id openid) merged (left_over merged source.id users)
                (owns-merged_user app_id openid target source ∙ n)
            ∙ rest
            ∙ sym (find-skips (owns app_id openid) u users (ap (owns app_id openid) (t.0 e) ∙ nt))
        | kept e f k ↦
            ap (find (owns app_id openid)) k
            ∙ ap (λ o. if owns app_id openid u then some u else o) rest
      ]

  -- An identity of one of the two opens the merged account.
  pub owner-merged :
      (users : List MiniProgramUser)
      → (owns app_id openid target || owns app_id openid source) ≡ true
      → target.id ≢ source.id
      → All (λ u. owns app_id openid u ≡ true → (u.id ≡ target.id) ⊎ (u.id ≡ source.id)) users
      → (t : MiniProgramUser) → find (is_user target.id) users ≡ some t
      → find (owns app_id openid) (left_over merged source.id users) ≡ some merged
  owner-merged [] y d h t e = absurd (cc)
  owner-merged (u ∷ users) y d h t e = elim (fate target source u users d) [
    | gone f k ↦
        ap (find (owns app_id openid)) k
        ∙ owner-merged users y d h.1 t (
            sym (
              find-skips (is_user target.id) u users (==-other u.id target.id (λ s. d (sym s ∙ f))))
            ∙ e)
    | grown f k ↦
        ap (find (owns app_id openid)) k
        ∙ find-hits (owns app_id openid) merged (left_over merged source.id users)
            (owns-merged_user app_id openid target source ∙ y)
    | kept f g k ↦
        ap (find (owns app_id openid)) k
        ∙ find-skips (owns app_id openid) u (left_over merged source.id users)
            (elim (Bool-cases (owns app_id openid u)) [
              | inl o ↦ elim (h.0 o) [ inl s ↦ absurd (g s) | inr s ↦ absurd (f s) ]
              | inr o ↦ o
            ])
        ∙ owner-merged users y d h.1 t
            (sym (find-skips (is_user target.id) u users (==-other u.id target.id g)) ∙ e)
  ]
