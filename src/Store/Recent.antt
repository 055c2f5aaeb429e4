-- ===== src/Store/Recent.antt =====
-- The recent rows of a table after an insert (internal/db/db.go).
use ns_cas.Base.{
  ℕ, zero, suc, ◌≤◌, ◌<◌, ◌≡◌, refl, sym, ap, ◌∙◌, List, [], ◌∷◌, ◌++◌, length, All, All-append,
  All-mono, arith,
}
use ns_cas.Base.Int.{ℤ, pos, negsuc, ◌≤ℤ◌, ◌<ℤ◌}
use ns_cas.Store.{
  Row, Table, empty_table, insert_row, insert_desc, order_desc, take_rows, limit_rows, query_recent,
}

module _ {A : Type 0} where
  -- No id is beyond the last.
  abbrev pub IsNumbered : Table A → Type 0
  IsNumbered t = All (λ (r : Row A). r.id ≤ t.last_id) t.rows

  -- A row whose id is beyond all others, inserted last, comes out first.
  insert_desc-newest :
      (x r : Row A) (rest : List (Row A))
      → x.id < r.id
      → insert_desc x (r ∷ rest) ≡ r ∷ insert_desc x rest
  unfolding insert_desc
  insert_desc-newest x r rest h = ground arith

  order_desc-newest :
      (r : Row A) (rows : List (Row A))
      → All (λ (x : Row A). x.id < r.id) rows
      → order_desc (rows ++ r ∷ []) ≡ r ∷ order_desc rows
  unfolding order_desc insert_desc
  order_desc-newest r [] h = refl
  order_desc-newest r (x ∷ rows) h =
      ap (insert_desc x) (order_desc-newest r rows h.1)
      ∙ insert_desc-newest x r (order_desc rows) h.0

  pub insert_row-IsNumbered : (a : A) (t : Table A) → IsNumbered t → IsNumbered (insert_row a t)
  unfolding insert_row
  insert_row-IsNumbered a t h =
      All-append _ t.rows _ (All-mono _ _ (λ x p. omega (arith, p)) t.rows h) (omega arith, tt)

  pub query_recent-insert :
      (a : A) (n : ℕ) (t : Table A)
      → IsNumbered t
      → query_recent (pos (suc n)) (insert_row a t)
        ≡ record { id = suc t.last_id; value = a } ∷ query_recent (pos n) t
  unfolding query_recent insert_row limit_rows take_rows
  query_recent-insert a n t h = ap (take_rows (suc n)) (
      order_desc-newest (record { id = suc t.last_id; value = a }) t.rows
        (All-mono _ _ (λ x p. omega (arith, p)) t.rows h))

  pub take_rows-length : (n : ℕ) (rs : List (Row A)) → length (take_rows n rs) ≤ n
  unfolding take_rows
  take_rows-length n [] = omega arith
  take_rows-length zero (r ∷ rs) = omega arith
  take_rows-length (suc n) (r ∷ rs) = omega (arith, take_rows-length n rs)

  -- A positive LIMIT bounds the rows.
  pub query_recent-length :
      (n : ℤ) (t : Table A) → pos 0 <ℤ n → pos (length (query_recent n t)) ≤ℤ n
  unfolding query_recent limit_rows
  query_recent-length (pos n) t h = omega (arith, take_rows-length n (order_desc t.rows))
  query_recent-length (negsuc n) t h = ground arith

  -- The values of a list of rows.
  unfoldable pub values_of : List (Row A) → List A
  values_of [] = []
  values_of (r ∷ rs) = r.value ∷ values_of rs

  unfoldable pub first : ℕ → List A → List A
  first n [] = []
  first zero (a ∷ xs) = []
  first (suc n) (a ∷ xs) = a ∷ first n xs

  -- The table that the values make, the latest first.
  pub data Inserted : List A → Table A → Type 0 where
    nothing : Inserted [] empty_table
    then_one :
        (a : A) {xs : List A} {t : Table A} → Inserted xs t → Inserted (a ∷ xs) (insert_row a t)

  pub Inserted-IsNumbered : {xs : List A} {t : Table A} → Inserted xs t → IsNumbered t
  unfolding empty_table
  Inserted-IsNumbered nothing = tt
  Inserted-IsNumbered (then_one a {xs} {t} h) = insert_row-IsNumbered a t (Inserted-IsNumbered h)

  take_none : (rs : List (Row A)) → take_rows zero rs ≡ []
  unfolding take_rows
  take_none [] = refl
  take_none (r ∷ rs) = refl

  query_recent_zero : (t : Table A) → query_recent (pos 0) t ≡ []
  unfolding query_recent limit_rows
  query_recent_zero t = take_none (order_desc t.rows)

  pub first-zero : (xs : List A) → first zero xs ≡ []
  unfolding first
  first-zero [] = refl
  first-zero (a ∷ xs) = refl

  pub query_recent-Inserted :
      (n : ℕ) {xs : List A} {t : Table A}
      → Inserted xs t
      → values_of (query_recent (pos n) t) ≡ first n xs
  unfolding values_of first query_recent limit_rows take_rows order_desc empty_table
  query_recent-Inserted zero {xs} {t} h = ap values_of (query_recent_zero t) ∙ sym (first-zero xs)
  query_recent-Inserted (suc n) nothing = refl
  query_recent-Inserted (suc n) (then_one a {xs} {t} h) =
      ap values_of (query_recent-insert a n t (Inserted-IsNumbered h))
      ∙ ap (◌∷◌ a) (query_recent-Inserted n h)
