-- ===== src/Imports/Lite/Imported.antt =====
-- What an import of the lite inventory leaves in its table.
use materials_manager.Base.{
  not-false, ℕ, ◌+◌, ◌≤◌, ◌≡◌, refl, sym, ap, ◌∙◌, subst, Text, Option, none, some, Bool, true,
  false, List, [], ◌∷◌, any, length, All, All-map, truthy, arith,
}
use materials_manager.Core.Tx.{Result, ok, err, Tx, ◌>>◌, ◌>>=◌, pure}
use materials_manager.Core.Tx.Inversion.{bind-inv, raise_if-inv, or_raise-inv, pure-inv}
use materials_manager.Imports.{Row, row_values, value_of, non_empty}
use materials_manager.Imports.Codes.{validate_length}
use materials_manager.Imports.Replaced.{InventorySummary, replace_rows}
use materials_manager.Imports.Replaced.Deduplicated.{replace_rows-IsApart}
use materials_manager.Imports.Numbers.{Number}
use materials_manager.Imports.Lite.Agree.{
  IsAmong, All-IsAmong, All-both, AreApart, IsRepresented, AreStored, apart-AreApart,
  held-IsRepresented, rows-AreStored, length-AreStored,
}
use materials_manager.Imports.Lite.{
  LiteInventory, same_row, lite_row, lite_rows, parse_lite_file, lite_replaced, store_rows,
  written_rows, process_lite_inventory,
}

abbrev Fits : ℕ → Option Text → Type 0
Fits n none = Unit
Fits n (some s) = length s ≤ n

-- A name that is not empty, and texts that the columns have room for.
pub record IsLite (row : LiteInventory) : Type 0 where
  pub named : truthy row.name ≡ true
  pub name : length row.name ≤ 128
  pub model_spec : Fits 255 row.model_spec
  pub unit_name : Fits 32 row.unit_name
  pub remark : Fits 1000 row.remark

validate_length-inv :
    {S A : Type 0} (value : Text) (maximum : ℕ) (k : Tx S A) (s : S) (q : A × S)
    → (validate_length value maximum >> k) s ≡ ok q
    → (length value ≤ maximum) × (k s ≡ ok q)
unfolding validate_length
validate_length-inv value maximum k s q h =
    let (short, rest) = raise_if-inv _ _ k s q h in (ground (arith, short), rest)

Fits-non_empty : (n : ℕ) (s : Text) → length s ≤ n → Fits n (non_empty s)
Fits-non_empty n [] h = tt
Fits-non_empty n (c ∷ s) h = h

lite_row-IsLite :
    (values : List Text) (s : Unit {0}) (q : LiteInventory × Unit {0})
    → lite_row values s ≡ ok q
    → IsLite q.0
unfolding lite_row
lite_row-IsLite values s q h =
    let (named, h1) = raise_if-inv _ _ _ s q h in
    let (name, h2) = validate_length-inv _ _ _ s q h1 in
    let (spec, h3) = validate_length-inv _ _ _ s q h2 in
    let (unit, h4) = validate_length-inv _ _ _ s q h3 in
    let (remark, h5) = validate_length-inv _ _ _ s q h4 in
    let (quantity, t, e, h6) = bind-inv _ _ s q h5 in
    subst IsLite (sym (pure-inv _ t q h6)) (record {
      named = not-false _ named;
      name = name;
      model_spec = Fits-non_empty 255 (value_of 1 values) spec;
      unit_name = Fits-non_empty 32 (value_of 2 values) unit;
      remark = Fits-non_empty 1000 (value_of 4 values) remark;
    })

lite_rows-IsLite :
    (columns : List ℕ) (rows : List Row) (s : Unit {0}) (q : List LiteInventory × Unit {0})
    → lite_rows columns rows s ≡ ok q
    → All IsLite q.0
unfolding lite_rows
lite_rows-IsLite columns [] s q h = subst (All IsLite) (sym (pure-inv _ s q h)) tt
lite_rows-IsLite columns (r ∷ rs) s q h =
    written (λ t p k. lite_rows-IsLite columns rs t p k) (any truthy (row_values columns r)) h
  where
    written :
        ((t : Unit {0}) (p : List LiteInventory × Unit {0})
          → lite_rows columns rs t ≡ ok p
          → All IsLite p.0)
        → (b : Bool)
        → (elim b as (λ _. Tx (Unit {0}) (List LiteInventory)) [
          | false ↦ lite_rows columns rs
          | true ↦ lite_row (row_values columns r) >>= λ row.
              lite_rows columns rs >>= λ rest. pure (row ∷ rest)
        ])
            s
          ≡ ok q
        → All IsLite q.0
    written later false k = later s q k
    written later true k =
        let (row, t, e, k1) = bind-inv _ _ s q k in
        let (rest, u, f, k2) = bind-inv _ _ t q k1 in
        subst (All IsLite) (sym (pure-inv _ u q k2))
          (lite_row-IsLite (row_values columns r) s (row, t) e, later t (rest, u) f)

parse_lite_file-IsLite :
    (rows : List Row) (q : List LiteInventory × Unit {0})
    → parse_lite_file rows tt ≡ ok q
    → All IsLite q.0
unfolding parse_lite_file
parse_lite_file-IsLite rows q h =
    let (found, e, h1) = or_raise-inv _ _ _ tt q h in
    let (parsed, t, f, h2) = bind-inv _ _ tt q h1 in
    let (full, h3) = raise_if-inv _ _ _ t q h2 in
    subst (All IsLite) (sym (pure-inv _ t q h3)) (lite_rows-IsLite found.0 found.1 tt (parsed, t) f)

module _ (as_stored : Number → Option Number) where
  stored-IsLite :
      (rows stored : List LiteInventory)
      → AreStored as_stored rows stored
      → All IsLite rows
      → All IsLite stored
  stored-IsLite [] [] h k = tt
  stored-IsLite [] (s ∷ stored) h k = absurd h
  stored-IsLite (row ∷ rows) [] h k = absurd h
  stored-IsLite (row ∷ rows) (s ∷ stored) h k = (
    record {
      named = ap truthy h.0.name ∙ k.0.named;
      name = subst (λ (t : Text). length t ≤ 128) (sym h.0.name) k.0.name;
      model_spec = subst (Fits 255) (sym h.0.model_spec) k.0.model_spec;
      unit_name = subst (Fits 32) (sym h.0.unit_name) k.0.unit_name;
      remark = subst (Fits 1000) (sym h.0.remark) k.0.remark;
    },
    stored-IsLite rows stored h.1 k.1,
  )

  written_rows-inv :
      (summary : InventorySummary) (o : Option (List LiteInventory))
      (q : InventorySummary × List LiteInventory)
      → written_rows as_stored summary o ≡ ok q
      → (o ≡ some q.1) × (q.0 ≡ summary)
  written_rows-inv summary none q h = absurd (cc)
  written_rows-inv summary (some rows) q h =
      let e : q ≡ (summary, rows) = cc in
      (
        ap (λ (x : InventorySummary × List LiteInventory). some x.1) (sym e),
        ap (λ (x : InventorySummary × List LiteInventory). x.0) e,
      )

  lite_replaced-inv :
      (r : Result (List LiteInventory × Unit {0})) (q : InventorySummary × List LiteInventory)
      → lite_replaced as_stored r ≡ ok q
      → (parsed : List LiteInventory) × (r ≡ ok (parsed, tt))
        × (store_rows as_stored (replace_rows same_row parsed).1 ≡ some q.1)
        × (q.0 ≡ (replace_rows same_row parsed).0)
  lite_replaced-inv (err e) q h = absurd (cc)
  lite_replaced-inv (ok (rows, u)) q h =
      let (stored, same) = written_rows-inv _ _ q h in (rows, refl, stored, same)

  -- The table after an import of rows with these values: what was kept of them, as it is stored.
  pub record IsReplaced (parsed : List LiteInventory) (q : InventorySummary × List LiteInventory)
      : Type 0 where
    pub kept : List LiteInventory
    pub of_file : All (IsAmong parsed) kept
    pub apart : AreApart [] kept
    pub represented : All (IsRepresented kept) parsed
    pub stored : AreStored as_stored kept q.1
    pub lite : All IsLite q.1
    pub imported : q.0.imported_count ≡ length q.1
    pub counted : q.0.imported_count + q.0.deduplicated_count ≡ length parsed

  -- An import of the lite inventory that succeeds has read the file and kept rows of it, where no two agree
  -- in all fields before they are stored, and where every row that was read stands, or one that agrees
  -- with it. The table has exactly these rows, in order, with the quantities that the database stores for theirs;
  -- each has a name, and texts that fit their columns. The two numbers that the import returns are the number of
  -- rows in the table, and what is missing to the number of rows that were read.
  pub process_lite_inventory-IsReplaced :
      (rows : List Row) (table : List LiteInventory) (q : InventorySummary × List LiteInventory)
      → process_lite_inventory as_stored (ok rows) table ≡ ok q
      → (parsed : List LiteInventory) × (parse_lite_file rows tt ≡ ok (parsed, tt))
        × IsReplaced parsed q
  unfolding process_lite_inventory
  process_lite_inventory-IsReplaced rows table q h =
      let (parsed, read, written, same) = lite_replaced-inv (parse_lite_file rows tt) q h in
      let fine =
        All-both IsLite (IsAmong parsed) parsed (parse_lite_file-IsLite rows (parsed, tt) read)
          (All-IsAmong parsed) in
      let (apart, both, held, imported, counted) =
        replace_rows-IsApart same_row (λ r. IsLite r × IsAmong parsed r) parsed fine in
      let kept = (replace_rows same_row parsed).1 in
      let stored = rows-AreStored as_stored kept q.1 written in
      (
        parsed,
        read,
        record {
          kept = kept;
          of_file = All-map (λ r h. h.1) kept both;
          apart = apart-AreApart [] kept apart;
          represented = All-map (held-IsRepresented kept) parsed held;
          stored = stored;
          lite = stored-IsLite kept q.1 stored (All-map (λ r h. h.0) kept both);
          imported =
              ap (λ (s : InventorySummary). s.imported_count) same
              ∙ imported
              ∙ sym (length-AreStored as_stored kept q.1 stored);
          counted =
              ap (λ (s : InventorySummary). s.imported_count + s.deduplicated_count) same ∙ counted;
        },
      )
