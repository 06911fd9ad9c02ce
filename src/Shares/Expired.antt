-- ===== src/Shares/Expired.antt =====
-- What the clean-up of expired links leaves, and what a revoked link does.
use materials_manager.Base.{
  ◌≡◌, refl, Text, Option, none, some, Bool, true, false, List, [], ◌∷◌, keep, find, All, not,
  Bool-cases, ap, ◌∙◌, subst, inl, inr, arith,
}
use materials_manager.Core.Calendar.{Time}
use materials_manager.Core.Errors.{ErrorCode, AppError, app_error}
use materials_manager.Core.Tx.{ok, actions, raise_if, pure, gets, ◌>>=◌, ◌>>◌}
use materials_manager.Shares.{
  ShareLink, Shares, has_token, is_expired, open_share, open_found, cleanup_expired,
}

find-keep :
    (now : Time) (token : Text) (links : List ShareLink) (share : ShareLink)
    → find (has_token token) links ≡ some share
    → is_expired now share ≡ false
    → find (has_token token) (keep (λ l. not (is_expired now l)) links) ≡ some share
find-keep now token [] share h k = cc
find-keep now token (l ∷ links) share h k = elim (Bool-cases (has_token token l)) [
  | inl t ↦
      let same : l ≡ share = ground arith in
      let live : is_expired now l ≡ false = ap (is_expired now) same ∙ k in
      rw (live, t) (ap some same)
  | inr f ↦
      let later : find (has_token token) links ≡ some share = ground arith in
      let ih = find-keep now token links share later k in
      elim (Bool-cases (is_expired now l)) [ inl e ↦ rw e ih | inr e ↦ rw (e, f) ih ]
]

keep-live :
    (now : Time) (links : List ShareLink)
    → All (λ l. is_expired now l ≡ false) (keep (λ l. not (is_expired now l)) links)
keep-live now [] = tt
keep-live now (l ∷ links) = elim (Bool-cases (is_expired now l)) [
  | inl h ↦ rw h (keep-live now links)
  | inr h ↦ rw h (h, keep-live now links)
]

passed :
    (b : Bool) (e : AppError) (l share : ShareLink) (s t : Shares)
    → (raise_if b e >> pure l) s ≡ ok (share, t)
    → (b ≡ false) × (l ≡ share)
unfolding actions
passed true e l share s t h = absurd cc
passed false e l share s t h = (refl, cc)

open_found-ok :
    (now : Time) (found : Option ShareLink) (s t : Shares) (share : ShareLink)
    → open_found now found s ≡ ok (share, t)
    → (found ≡ some share) × (is_expired now share ≡ false)
unfolding open_found actions
open_found-ok now none s t share h = absurd cc
open_found-ok now (some l) s t share h =
    let r =
      passed (is_expired now l) (app_error ErrorCode.share_expired (some 400)) l share s t h in
    (ap some r.1, subst (λ z. is_expired now z ≡ false) r.1 r.0)

open_found-live :
    (now : Time) (share : ShareLink) (s : Shares)
    → is_expired now share ≡ false
    → open_found now (some share) s ≡ ok (share, s)
unfolding open_found actions
open_found-live now share s h = rw (raise_if, h) refl

-- A link that a token opens, it opens after a clean-up at the same moment, and a clean-up leaves no
-- link that is expired then.
pub cleanup_expired-open :
    (now : Time) (token : Text) (s t : Shares) (share : ShareLink)
    → open_share now token s ≡ ok (share, t)
    → (open_share now token (cleanup_expired now s).1 ≡ ok (share, (cleanup_expired now s).1))
      × All (λ l. is_expired now l ≡ false) (cleanup_expired now s).1.share_links
unfolding open_share cleanup_expired ◌>>=◌ gets
cleanup_expired-open now token s t share h =
    let (there, live) = open_found-ok now (find (has_token token) s.share_links) s t share h in
    let left = (cleanup_expired now s).1 in
    (
      ap (λ o. open_found now o left) (find-keep now token s.share_links share there live)
          ∙ open_found-live now share left live,
      keep-live now s.share_links,
    )
