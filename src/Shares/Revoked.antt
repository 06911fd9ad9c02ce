-- ===== src/Shares/Revoked.antt =====
-- Who may revoke a link, and that it opens nothing afterwards.
use materials_manager.Base.{◌≡◌, Text, some, true, find, All, ◌==◌}
use materials_manager.Shares.{ShareLink, Shares, has_token}

-- The table has no two links with a token.
abbrev pub IsUnique : Text → Shares → Type 0
IsUnique token s =
    (share : ShareLink)
    → find (has_token token) s.share_links ≡ some share
    → All (λ l. has_token token l ≡ true → (l.id == share.id) ≡ true) s.share_links
