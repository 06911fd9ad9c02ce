-- ===== src/Imports/Located.antt =====
-- Where the headers of a table stand, and what the search for them finds.
use materials_manager.Base.{
  ℕ, zero, suc, ◌+◌, ◌<◌, ◌≡◌, ◌⊎◌, inl, inr, sym, ap, ◌∙◌, subst, Text, text_eq, text_eq→eq, none,
  some, false, List, [], ◌∷◌, ◌++◌, map, length, All, Bool-cases, Option-cases, some-inj, arith,
}
use materials_manager.Imports.{Row, cell_text, last_index, header_indexes, locate}

-- No cell has the text.
abbrev pub Lacks : Text → List Text → Type 0
Lacks name cells = All (λ c. text_eq c name ≡ false) cells

-- The cell at this place has the text, and no later one.
abbrev pub IsColumn : Text → List Text → ℕ → Type 0
IsColumn name [] i = ⊥
IsColumn name (c ∷ cs) zero = (c ≡ name) × Lacks name cs
IsColumn name (c ∷ cs) (suc i) = IsColumn name cs i

abbrev pub AreColumns : List Text → List ℕ → List Text → Type 0
AreColumns [] [] cells = Unit
AreColumns (e ∷ es) (i ∷ is) cells = IsColumn e cells i × AreColumns es is cells
AreColumns _ _ cells = ⊥

abbrev pub LacksOne : List Text → List Text → Type 0
LacksOne [] cells = ⊥
LacksOne (e ∷ es) cells = Lacks e cells ⊎ LacksOne es cells

abbrev pub texts : Row → List Text
texts = map (λ c. cell_text c)

-- The first row with all the headers is one of the first twenty.
pub record IsLocated (expected : List Text) (columns : List ℕ) (below rows : List Row)
    : Type 0 where
  pub above : List Row
  pub header : Row
  pub split : rows ≡ above ++ header ∷ below
  pub near : length above < 20
  pub heads : AreColumns expected columns (texts header)
  pub first : All (λ r. LacksOne expected (texts r)) above

last_index-none :
    (i : ℕ) (name : Text) (cells : List Text) → last_index i name cells ≡ none → Lacks name cells
unfolding last_index
last_index-none i name [] h = tt
last_index-none i name (c ∷ cs) h = elim (Option-cases (last_index (suc i) name cs)) [
  | inl e ↦ elim (Bool-cases (text_eq c name)) [
    | inl f ↦ let k = rw (last_index, e, f) at h in absurd (cc)
    | inr f ↦ (f, last_index-none (suc i) name cs e)
  ]
  | inr (j, e) ↦ let k = rw (last_index, e) at h in absurd (cc)
]

last_index-some :
    (i : ℕ) (name : Text) (cells : List Text) (j : ℕ)
    → last_index i name cells ≡ some j
    → (k : ℕ) × (j ≡ i + k) × IsColumn name cells k
unfolding last_index
last_index-some i name [] j h = absurd (cc)
last_index-some i name (c ∷ cs) j h = elim (Option-cases (last_index (suc i) name cs)) [
  | inl e ↦ elim (Bool-cases (text_eq c name)) [
    | inl f ↦
        let k = rw (last_index, e, f) at h in
        (
          0,
          sym (some-inj i j k) ∙ omega arith,
          (text_eq→eq c name f, last_index-none (suc i) name cs e),
        )
    | inr f ↦ let k = rw (last_index, e, f) at h in absurd (cc)
  ]
  | inr (n, e) ↦
      let same = rw (last_index, e) at h in
      let (k, place, column) = last_index-some (suc i) name cs n e in
      (suc k, sym (some-inj n j same) ∙ place ∙ omega arith, column)
]

header_indexes-none : (es cells : List Text) → header_indexes es cells ≡ none → LacksOne es cells
unfolding header_indexes
header_indexes-none [] cells h = cc
header_indexes-none (e ∷ es) cells h = elim (Option-cases (last_index 0 e cells)) [
  | inl f ↦ inl (last_index-none 0 e cells f)
  | inr (i, f) ↦ elim (Option-cases (header_indexes es cells)) [
    | inl g ↦ inr (header_indexes-none es cells g)
    | inr (is, g) ↦ let k = rw (header_indexes, f, g) at h in absurd (cc)
  ]
]

header_indexes-some :
    (es cells : List Text) (columns : List ℕ)
    → header_indexes es cells ≡ some columns
    → AreColumns es columns cells
unfolding header_indexes
header_indexes-some [] cells columns h =
    subst (λ (is : List ℕ). AreColumns [] is cells) (some-inj [] columns h) tt
header_indexes-some (e ∷ es) cells columns h = elim (Option-cases (last_index 0 e cells)) [
  | inl f ↦ let k = rw (header_indexes, f) at h in absurd (cc)
  | inr (i, f) ↦ elim (Option-cases (header_indexes es cells)) [
    | inl g ↦ let k = rw (header_indexes, f, g) at h in absurd (cc)
    | inr (is, g) ↦
        let k = rw (header_indexes, f, g) at h in
        let (n, place, column) = last_index-some 0 e cells i f in
        let here : n ≡ i = omega (arith, place) in
        subst (λ (cs : List ℕ). AreColumns (e ∷ es) cs cells) (some-inj (i ∷ is) columns k)
          (subst (IsColumn e cells) here column, header_indexes-some es cells is g)
  ]
]

-- The rows above the headers, the headers, and their number of rows to look at.
abbrev Splits : List Text → ℕ → List Row → List ℕ → List Row → Type 0
Splits expected n rows columns below =
    (above : List Row) × (header : Row) × (rows ≡ above ++ header ∷ below)
    × (length above < n)
    × AreColumns expected columns (texts header)
    × All (λ r. LacksOne expected (texts r)) above

locate-Splits :
    (expected : List Text) (n : ℕ) (rows : List Row) (columns : List ℕ) (below : List Row)
    → locate (λ h. h) expected n rows ≡ some (columns, below)
    → Splits expected n rows columns below
unfolding locate
locate-Splits expected zero rows columns below h = absurd (cc)
locate-Splits expected (suc n) [] columns below h = absurd (cc)
locate-Splits expected (suc n) (r ∷ rs) columns below h =
    elim (Option-cases (header_indexes expected (texts r))) [
      | inl e ↦
          let k = rw (locate, e) at h in
          let (above, header, split, near, heads, first) =
            locate-Splits expected n rs columns below k in
          (
            r ∷ above,
            header,
            ap (◌∷◌ r) split,
            omega (arith, near),
            heads,
            (header_indexes-none expected (texts r) e, first),
          )
      | inr (is, e) ↦
          let k = rw (locate, e) at h in
          let same = some-inj (is, rs) (columns, below) k in
          (
            [],
            r,
            ap (λ (q : List ℕ × List Row). r ∷ q.1) same,
            omega arith,
            subst (λ (q : List ℕ × List Row). AreColumns expected q.0 (texts r)) same
                (header_indexes-some expected (texts r) is e),
            tt,
          )
    ]

-- What `locate` finds in the first twenty rows.
pub locate-IsLocated :
    (expected : List Text) (rows : List Row) (columns : List ℕ) (below : List Row)
    → locate (λ h. h) expected 20 rows ≡ some (columns, below)
    → IsLocated expected columns below rows
locate-IsLocated expected rows columns below h =
    let (above, header, split, near, heads, first) =
      locate-Splits expected 20 rows columns below h in
    record {
      above = above;
      header = header;
      split = split;
      near = near;
      heads = heads;
      first = first;
    }
