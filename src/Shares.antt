-- ===== src/Shares.antt =====
-- backend/app/services/share_link_service.py: links that show purchase plans or records to anybody
-- who has their token. A token is what `uuid7_string` gives; it comes with the request here.
pub mod Expired
pub mod Revoked
pub mod Tests
use materials_manager.Base.{
  ℕ, suc, ◌+◌, ◌*◌, Text, text, text_eq, Option, none, some, Bool, true, false, List, [], ◌∷◌, map,
  keep, find, all, any, contains, length, not, ◌&&◌, ◌||◌, ltb, ◌==◌, if◌then◌else◌,
}
use materials_manager.Core.Errors.{ErrorCode, app_error, not_found}
use materials_manager.Core.Enums.{Role, ShareType, ShareExpiryOption}
use materials_manager.Core.Calendar.{Time}
use materials_manager.Model.Accounts.{User}
use materials_manager.Core.Tx.{Tx, ◌>>=◌, ◌>>◌, pure, gets, modify, raise_if, or_raise}

pub record ShareLink : Type 0 where
  pub id : ℕ
  pub token : Text
  pub share_type : ShareType
  pub item_ids : List ℕ
  pub columns : Option (List Text)
  pub expires_at : Option Time
  pub created_by : Option ℕ

-- The table of the links, with the ids of the rows that they can show.
pub record Shares : Type 0 where
  pub share_links : List ShareLink
  pub next_share_id : ℕ
  pub purchase_material_ids : List ℕ
  pub purchase_line_ids : List ℕ

-- `_EXPIRY_DELTAS`, in hours
abbrev pub expiry_hours : ShareExpiryOption → Option ℕ
expiry_hours ShareExpiryOption.hours_24 = some 24
expiry_hours ShareExpiryOption.days_3 = some (3 * 24)
expiry_hours ShareExpiryOption.days_7 = some (7 * 24)
expiry_hours ShareExpiryOption.days_30 = some (30 * 24)
expiry_hours ShareExpiryOption.permanent = none

abbrev pub expires_at_for : Time → ShareExpiryOption → Option Time
expires_at_for now expires_in = elim (expiry_hours expires_in) [
  | none ↦ none
  | some hours ↦ some (now + hours * 3600000000)
]

abbrev pub share_plan_keys : List Text
share_plan_keys =
    text "plan_date"
    ∷ text "material_code"
    ∷ text "category"
    ∷ text "urgency"
    ∷ text "demand_department"
    ∷ text "name"
    ∷ text "model_spec"
    ∷ text "planned_qty"
    ∷ text "actual_demand_person"
    ∷ text "purchase_responsible"
    ∷ text "subitem_no"
    ∷ text "usage"
    ∷ text "status"
    ∷ text "images"
    ∷ []

abbrev pub share_record_keys : List Text
share_record_keys =
    text "plan_date"
    ∷ text "purchase_order_no"
    ∷ text "trace_no"
    ∷ text "category"
    ∷ text "demand_department"
    ∷ text "material_name"
    ∷ text "model_spec"
    ∷ text "purchase_qty"
    ∷ text "actual_demand_person"
    ∷ text "purchase_responsible"
    ∷ text "salesperson"
    ∷ text "subitem_no"
    ∷ text "usage"
    ∷ text "status"
    ∷ text "images"
    ∷ []

abbrev pub allowed_keys : ShareType → List Text
allowed_keys ShareType.purchase_plan = share_plan_keys
allowed_keys ShareType.purchase_record = share_record_keys

unfoldable pub validate_columns : ShareType → Option (List Text) → Tx Shares (Option (List Text))
validate_columns share_type none = pure none
validate_columns share_type (some columns) = do
  raise_if (not (all (λ key. any (text_eq key) (allowed_keys share_type)) columns))
      (app_error ErrorCode.validation_error (some 422))
  pure (some columns)

-- `sorted(set(ids))`
abbrev pub insert_id : ℕ → List ℕ → List ℕ
insert_id n [] = n ∷ []
insert_id n (m ∷ ms) =
    let rest = insert_id n ms in
    if ltb n m then n ∷ m ∷ ms else (if n == m then m ∷ ms else m ∷ rest)

abbrev pub sorted_set : List ℕ → List ℕ
sorted_set [] = []
sorted_set (n ∷ ns) = insert_id n (sorted_set ns)

abbrev shown_ids : ShareType → Shares → List ℕ
shown_ids ShareType.purchase_plan s = s.purchase_material_ids
shown_ids ShareType.purchase_record s = s.purchase_line_ids

abbrev pub new_share :
    ℕ → Text → ShareType → List ℕ → Option (List Text) → Option Time → ℕ → ShareLink
new_share id token share_type ids columns expires_at created_by = record {
  id = id;
  token = token;
  share_type = share_type;
  item_ids = ids;
  columns = columns;
  expires_at = expires_at;
  created_by = some created_by;
}

abbrev pub add_share : ShareLink → Shares → Shares
add_share share s = record s {
  share_links = share ∷ s.share_links;
  next_share_id = suc s.next_share_id;
}

unfoldable pub create_share :
    Time
    → Text
    → ShareType
    → List ℕ
    → ShareExpiryOption
    → ℕ
    → Option (List Text)
    → Tx Shares ShareLink
create_share now token share_type item_ids expires_in created_by columns = do
  found ← gets (λ s. keep (λ id. contains id (shown_ids share_type s)) (sorted_set item_ids))
  raise_if (not (length found == length (sorted_set item_ids))) not_found
  valid ← validate_columns share_type columns
  id ← gets (λ s. s.next_share_id)
  modify (
      add_share (
        new_share id token share_type (sorted_set item_ids) valid (expires_at_for now expires_in)
          created_by))
  pure (
      new_share id token share_type (sorted_set item_ids) valid (expires_at_for now expires_in)
        created_by)

abbrev pub has_token : Text → ShareLink → Bool
has_token token share = text_eq share.token token

-- `expires_at < now`; a link without an end never is.
abbrev pub is_expired : Time → ShareLink → Bool
is_expired now share = elim share.expires_at [ none ↦ false | some at ↦ ltb at now ]

-- The guards of `get_public_share`.
unfoldable pub open_found : Time → Option ShareLink → Tx Shares ShareLink
open_found now found = do
  share ← or_raise found (app_error ErrorCode.share_not_found (some 400))
  raise_if (is_expired now share) (app_error ErrorCode.share_expired (some 400))
  pure share

-- The first part of `get_public_share`: the link that a token opens.
unfoldable pub open_share : Time → Text → Tx Shares ShareLink
open_share now token = gets (λ s. find (has_token token) s.share_links) >>= open_found now

abbrev pub is_super : Role → Bool
is_super Role.super_admin = true
is_super _ = false

abbrev pub may_change : User → ShareLink → Bool
may_change user share =
    is_super user.role || (elim share.created_by [ none ↦ false | some id ↦ id == user.id ])

-- The guards of `revoke_share` and `update_share`.
unfoldable pub own_found : User → Option ShareLink → Tx Shares ShareLink
own_found user found = do
  share ← or_raise found not_found
  raise_if (not (may_change user share)) (app_error ErrorCode.forbidden (some 403))
  pure share

unfoldable pub own_share : Text → User → Tx Shares ShareLink
own_share token user = gets (λ s. find (has_token token) s.share_links) >>= own_found user

abbrev pub remove_share : ℕ → Shares → Shares
remove_share id s = record s { share_links = keep (λ l. not (l.id == id)) s.share_links }

unfoldable pub revoke_share : Text → User → Tx Shares (Unit {0})
revoke_share token user = do share ← own_share token user; modify (remove_share share.id)

abbrev pub put_share : ShareLink → Shares → Shares
put_share share s = record s {
  share_links = map (λ l. if l.id == share.id then share else l) s.share_links;
}

abbrev ends_at : Time → Option ShareExpiryOption → ShareLink → Option Time
ends_at now none share = share.expires_at
ends_at now (some expires_in) share = expires_at_for now expires_in

-- `none` leaves the columns, or the end, as they are.
unfoldable pub update_share :
    Time → Text → User → Option (List Text) → Option ShareExpiryOption → Tx Shares ShareLink
update_share now token user columns expires_in = do
  share ← own_share token user
  shown ← elim columns [
    | none ↦ pure share.columns
    | some keys ↦ validate_columns share.share_type (some keys)
  ]
  modify (put_share (record share { columns = shown; expires_at = ends_at now expires_in share }))
  pure (record share { columns = shown; expires_at = ends_at now expires_in share })

-- `cleanup_expired`, with the number that it returns
unfoldable pub cleanup_expired : Time → Shares → ℕ × Shares
cleanup_expired now s = (
  length (keep (is_expired now) s.share_links),
  record s { share_links = keep (λ l. not (is_expired now l)) s.share_links },
)
