-- ===== src/MiniProgram/Warehouse/Outbound/Reads.antt =====
-- What a user of the mini program is shown of the ledger.
use materials_manager.Base.{
  All-take, All-drop, All-append, All-passing, ℕ, ◌-◌, ◌*◌, ◌≡◌, refl, Text, Option, none, some,
  Bool, true, false, List, [], ◌∷◌, ◌||◌, All, map, truthy?, if◌then◌else◌,
}
use materials_manager.Core.Paging.{page_of}
use materials_manager.Core.Paging.Pages.{All-order_rows}
use materials_manager.Model.Stock.{StockOperation, StockOperationLine, MiniProgramUser}
use materials_manager.Model.Database.{Db}
use materials_manager.MiniProgram.Warehouse.Outbound.{
  MiniProgramOperationRead, operation_row, operation_read_rows, is_name, of_user, latest, rows_of,
  list_operations_by_user,
}

or_either : (a b : Bool) → b ≡ false → (a || b) ≡ true → (a || a) ≡ true
or_either true b e h = refl
or_either false b e h = absurd (cc)

module _ (same_text : Text → Text → Bool) where
  -- A name that the database takes for the user's received the material, or executed the operation.
  abbrev pub IsOwn : Text → MiniProgramOperationRead → Type 0
  IsOwn name row =
      (is_name same_text name row.receiver_name || is_name same_text name row.executed_by) ≡ true

  executed_by-own :
      (name : Text) (by receiver : Option Text)
      → same_text [] name ≡ false
      → (is_name same_text name receiver || is_name same_text name by) ≡ true
      → (is_name same_text name receiver
          || is_name same_text name (if truthy? by then by else receiver))
        ≡ true
  executed_by-own name none receiver t h = or_either (is_name same_text name receiver) false refl h
  executed_by-own name (some []) receiver t h =
      or_either (is_name same_text name receiver) (same_text [] name) t h
  executed_by-own name (some (c ∷ s)) receiver t h = h

  operation_read_rows-IsOwn :
      (user : MiniProgramUser) (op : StockOperation) (lines : List StockOperationLine)
      → same_text [] user.display_name ≡ false
      → of_user same_text user op ≡ true
      → All (IsOwn user.display_name) (map (operation_row op) lines)
  operation_read_rows-IsOwn user op [] t h = tt
  operation_read_rows-IsOwn user op (line ∷ lines) t h = (
    executed_by-own user.display_name op.mini_program_user_name_snapshot op.receiver_name t h,
    operation_read_rows-IsOwn user op lines t h,
  )

  rows_of-IsOwn :
      (user : MiniProgramUser) (ops : List StockOperation)
      → same_text [] user.display_name ≡ false
      → All (λ op. of_user same_text user op ≡ true) ops
      → All (IsOwn user.display_name) (rows_of ops)
  unfolding operation_read_rows
  rows_of-IsOwn user [] t h = tt
  rows_of-IsOwn user (op ∷ ops) t h =
      All-append (IsOwn user.display_name) (operation_read_rows op) (rows_of ops)
        (operation_read_rows-IsOwn user op op.lines t h.0) (rows_of-IsOwn user ops t h.1)

  -- A user whose name the database does not take for the empty text is shown, on every page, rows only
  -- of operations that were received or executed by a name that the database takes for this one.
  pub list_operations_by_user-IsOwn :
      (user : MiniProgramUser) (page page_size : ℕ) (db : Db)
      → same_text [] user.display_name ≡ false
      → All (IsOwn user.display_name) (list_operations_by_user same_text user page page_size db).0
  unfolding list_operations_by_user page_of
  list_operations_by_user-IsOwn user page page_size db t =
      let mine = All-passing (of_user same_text user) db.stock_operations in
      rows_of-IsOwn user _ t (
        All-take _ page_size _
          (All-drop _ ((page - 1) * page_size) _ (All-order_rows latest _ _ mine)))
