-- ===== src/Shares/Tests.antt =====
-- Runs of the links, and instances of their theorems.
use materials_manager.Base.{◌≡◌, refl, text, none, some, true, false, [], ◌∷◌, All}
use materials_manager.Core.Enums.{Role, ShareType, ShareExpiryOption}
use materials_manager.Core.Tx.{ok, actions}
use materials_manager.Model.Accounts.{User}
use materials_manager.Shares.{
  ShareLink, Shares, is_expired, open_share, open_found, cleanup_expired, validate_columns,
  create_share,
}
use materials_manager.Shares.Expired.{cleanup_expired-open}

abbrev empty : Shares
empty = record {
  share_links = [];
  next_share_id = 1;
  purchase_material_ids = 4 ∷ 5 ∷ 9 ∷ [];
  purchase_line_ids = [];
}

abbrev plans : ShareLink
plans = record {
  id = 1;
  token = text "t1";
  share_type = ShareType.purchase_plan;
  item_ids = 5 ∷ 9 ∷ [];
  columns = none;
  expires_at = none;
  created_by = some 7;
}

abbrev old : ShareLink
old = record plans { id = 2; token = text "t2"; expires_at = some 40 }

abbrev both : Shares
both = record empty { share_links = old ∷ plans ∷ []; next_share_id = 3 }

-- The ids are sorted and stand there once.
creates :
    create_share 10
      (text "t1")
      ShareType.purchase_plan
      (9 ∷ 5 ∷ 9 ∷ [])
      ShareExpiryOption.permanent
      7
      none
      empty
    ≡ ok (plans, record empty { share_links = plans ∷ []; next_share_id = 2 })
unfolding create_share validate_columns actions
creates = refl

opens : open_share 50 (text "t1") both ≡ ok (plans, both)
unfolding open_share open_found actions
opens = refl

cleanup_expired-open_example :
    (open_share 50 (text "t1") (cleanup_expired 50 both).1
      ≡ ok (plans, (cleanup_expired 50 both).1))
    × All (λ l. is_expired 50 l ≡ false) (cleanup_expired 50 both).1.share_links
cleanup_expired-open_example = cleanup_expired-open 50 (text "t1") both both plans opens

abbrev creator : User
creator = record {
  id = 7;
  username = text "li";
  password_hash = [];
  api_token_hash = [];
  api_token_enc = [];
  display_name = text "Li";
  role = Role.read_only;
  enabled = true;
  version = 1;
}
