-- ===== src/Listing/Pages.antt =====
-- internal/infra/postgres/trade_repo.go: the size of a page and its cursor.
use order_book_vibranium.Base.{
  ℕ, zero, suc, ◌≤◌, ◌<◌, ◌≡◌, refl, sym, ap, ◌⊎◌, inl, inr, true, Option, none, some, List, [],
  ◌∷◌, ◌++◌, ltb, take, length, length-take, arith, Bool-cases,
}
use order_book_vibranium.Trade
use order_book_vibranium.Listing.{Position, clamp, page, last_position}

-- The size of a page: the limit where it is from 1 to 200, and 50 otherwise.
abbrev pub IsSize : ℕ → ℕ → Type 0
IsSize limit size =
    (0 < limit) × (limit ≤ 200) × (size ≡ limit) ⊎ ((limit ≡ 0) ⊎ (200 < limit)) × (size ≡ 50)

clamp-IsSize : (limit : ℕ) → IsSize limit (clamp limit)
unfolding clamp
clamp-IsSize limit = ground arith

-- The cursor is the time and the id of the last row.
abbrev pub IsLast : List Trade.Trade → Option Position → Type 0
IsLast out next =
    (init : List Trade.Trade) × (t : Trade.Trade) × (out ≡ init ++ t ∷ [])
    × (next ≡ some (record { executed_at = t.executed_at; id = t.id }))

-- A page of the rows of the query, whose cursor is its last row exactly if there were more rows.
abbrev pub IsPage : ℕ → List Trade.Trade → List Trade.Trade × Option Position → Type 0
IsPage limit rows (out, next) =
    (size : ℕ) × IsSize limit size
    × (out ≡ take size rows)
    × ((length rows ≤ size) × (out ≡ rows) × (next ≡ none)
        ⊎ (size < length rows) × (length out ≡ size) × IsLast out next)

last_position-IsLast :
    (t : Trade.Trade) (ts : List Trade.Trade) → IsLast (t ∷ ts) (last_position (t ∷ ts))
unfolding last_position
last_position-IsLast t [] = ([], t, refl, refl)
last_position-IsLast t (u ∷ us) =
    let (init, v, out, next) = last_position-IsLast u us in
    (t ∷ init, v, ap (λ (vs : List Trade.Trade). t ∷ vs) out, next)

take-all : (n : ℕ) (rows : List Trade.Trade) → length rows ≤ n → take n rows ≡ rows
take-all zero [] h = refl
take-all zero (t ∷ ts) h = absurd (omega arith)
take-all (suc n) [] h = refl
take-all (suc n) (t ∷ ts) h = rw (take-all n ts (omega arith)) refl

cut-IsLast :
    (size : ℕ) (rows : List Trade.Trade)
    → 0 < size
    → size < length rows
    → IsLast (take size rows) (last_position (take size rows))
cut-IsLast zero rows h k = absurd (omega (arith, h))
cut-IsLast (suc n) [] h k = absurd (omega (arith, k))
cut-IsLast (suc n) (t ∷ ts) h k = last_position-IsLast t (take n ts)

-- For every limit that a request may give, the size of a page is the limit where that is from 1 to
-- 200 and 50 otherwise, and the page has the first rows of the query: all of them and no cursor if
-- they fit, or else exactly that many, with the time and the id of the last row as the next cursor.
pub page-IsPage :
    (limit : ℕ) (rows : List Trade.Trade) → IsPage limit rows (page (clamp limit) rows)
unfolding page
page-IsPage limit rows =
    let sized = clamp-IsSize limit in
    let positive : 0 < clamp limit = ground (arith, sized) in
    elim (Bool-cases (ltb (clamp limit) (length rows))) [
      | inl e ↦
          let more : clamp limit < length rows = ground arith in
          let full : length (take (clamp limit) rows) ≡ clamp limit =
            length-take (clamp limit) rows (ground arith) in
          let some_rows : ltb 0 (length (take (clamp limit) rows)) ≡ true =
            ground (arith, full, positive) in
          rw e (
            rw some_rows (
              clamp limit,
              sized,
              refl,
              inr (more, full, cut-IsLast (clamp limit) rows positive more),
            ))
      | inr e ↦
          let whole = take-all (clamp limit) rows (ground arith) in
          rw e (clamp limit, sized, sym whole, inl (ground arith, refl, refl))
    ]
