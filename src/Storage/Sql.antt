-- ===== src/Storage/Sql.antt =====
-- The four SQL statements that storage/common issues, over a table as a list of rows with the
-- sequence of its `serial` column, and the UNIQUE (key, name) constraint that both tables of
-- storage/common/migrations have.
pub mod Unique
pub mod Reads
use dlc_stack.Base.{
  ℕ, suc, String, ◌≡◌, Bool, false, not, ◌&&◌, Option, none, some, List, [], ◌∷◌, ◌++◌, ◌==◌,
  if◌then◌else◌, keep, count, exists_in, All, Result, ok, err,
}

-- A statement fails by the constraint, or for a reason of the engine's own.
pub data DbError : Type 0 where
  unique_violation : DbError
  engine : String → DbError

-- What the connection answers of its own to the next statement: nothing, or a failure.
abbrev pub Conn : Type 0
Conn = Option DbError

pub record Table (Row : Type 0) : Type 0 where
  pub rows : List Row
  pub next_id : ℕ

module _ {Row : Type 0} where
  unfoldable pub load : Conn → (Row → Bool) → Table Row → Result DbError (List Row)
  load none p t = ok (keep p t.rows)
  load (some e) p t = err e

  abbrev pub put_row : Table Row → Row → Table Row
  put_row t r = record { rows = t.rows ++ r ∷ []; next_id = suc t.next_id }

  -- A refused INSERT has taken its number from the sequence.
  unfoldable pub insert_into :
      Conn → (Row → Bool) → (ℕ → Row) → Table Row → Result DbError Row × Table Row
  insert_into none clash row t =
      if exists_in clash t.rows
      then (err unique_violation, record t { next_id = suc t.next_id })
      else (ok (row t.next_id), put_row t (row t.next_id))
  insert_into (some e) clash row t = (err e, t)

  unfoldable pub delete : Conn → (Row → Bool) → Table Row → Result DbError ℕ × Table Row
  delete none p t = (ok (count p t.rows), record t { rows = keep (λ r. not (p r)) t.rows })
  delete (some e) p t = (err e, t)

  abbrev pub set_where : (Row → Bool) → (Row → Row) → List Row → List Row
  set_where p f [] = []
  set_where p f (r ∷ rs) = (if p r then f r else r) ∷ set_where p f rs

  unfoldable pub update :
      Conn → (Row → Bool) → (Row → Row) → Table Row → Result DbError ℕ × Table Row
  update none p f t = (ok (count p t.rows), record t { rows = set_where p f t.rows })
  update (some e) p f t = (err e, t)

-- The two columns of the UNIQUE constraint.
module _ {Row : Type 0} (key name : Row → String) where
  abbrev pub is_row : String → String → Row → Bool
  is_row k n r = name r == n && key r == k

  -- No two rows have the same key and name.
  abbrev pub IsUnique : List Row → Type 0
  IsUnique [] = Unit
  IsUnique (r ∷ rs) = All (λ s. is_row (key r) (name r) s ≡ false) rs × IsUnique rs
