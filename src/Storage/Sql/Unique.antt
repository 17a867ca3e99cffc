-- ===== src/Storage/Sql/Unique.antt =====
-- The UNIQUE constraint is kept by the four statements.
use dlc_stack.Base.{
  ℕ, ◌≤◌, String, ◌≡◌, refl, Bool, true, false, not, List, [], ◌∷◌, ◌++◌, inl, inr, arith, eq_iff,
  keep, count, exists_in, All, All-keep, Bool-cases, none, some,
}
use dlc_stack.Storage.Sql.{Conn, Table, insert_into, delete, update, set_where, is_row, IsUnique}

module _ {Row : Type 0} (key name : Row → String) where
  abbrev Differs : String → String → Row → Type 0
  Differs k n s = is_row key name k n s ≡ false

  All-append_one :
      (k n : String) (rs : List Row) (r : Row)
      → All (Differs k n) rs
      → Differs k n r
      → All (Differs k n) (rs ++ r ∷ [])
  All-append_one k n [] r h p = (p, tt)
  All-append_one k n (s ∷ rs) r (q, h) p = (q, All-append_one k n rs r h p)

  is_row_symm : (r s : Row) → Differs (key s) (name s) r → Differs (key r) (name r) s
  is_row_symm r s h = ground (
    arith,
    eq_iff (name r) (name s),
    eq_iff (key r) (key s),
    eq_iff (name s) (name r),
    eq_iff (key s) (key r),
  )

  IsUnique-append :
      (rs : List Row) (r : Row)
      → IsUnique key name rs
      → exists_in (is_row key name (key r) (name r)) rs ≡ false
      → IsUnique key name (rs ++ r ∷ [])
  IsUnique-append [] r u e = (tt, tt)
  IsUnique-append (s ∷ rs) r (h, u) e = (
    All-append_one (key s) (name s) rs r h (is_row_symm s r (ground arith)),
    IsUnique-append rs r u (ground arith),
  )

  pub IsUnique-keep :
      (p : Row → Bool) (rs : List Row) → IsUnique key name rs → IsUnique key name (keep p rs)
  IsUnique-keep p [] u = tt
  IsUnique-keep p (r ∷ rs) (h, u) = elim (Bool-cases (p r)) [
    | inl e ↦ rw e (All-keep (Differs (key r) (name r)) p rs h, IsUnique-keep p rs u)
    | inr e ↦ rw e (IsUnique-keep p rs u)
  ]

  module _ (p : Row → Bool) (f : Row → Row) (same_key : (r : Row) → p r ≡ true → key (f r) ≡ key r)
      (same_name : (r : Row) → p r ≡ true → name (f r) ≡ name r) where
    All-set_where :
        (k n : String) (rs : List Row) → All (Differs k n) rs → All (Differs k n) (set_where p f rs)
    All-set_where k n [] h = tt
    All-set_where k n (r ∷ rs) (q, h) = elim (Bool-cases (p r)) [
      | inl e ↦ rw (e, same_key r e, same_name r e) (q, All-set_where k n rs h)
      | inr e ↦ rw e (q, All-set_where k n rs h)
    ]

    IsUnique-set_where :
        (rs : List Row) → IsUnique key name rs → IsUnique key name (set_where p f rs)
    IsUnique-set_where [] u = tt
    IsUnique-set_where (r ∷ rs) (h, u) = elim (Bool-cases (p r)) [
      | inl e ↦
          rw (e, same_key r e, same_name r e)
            (All-set_where (key r) (name r) rs h, IsUnique-set_where rs u)
      | inr e ↦ rw e (All-set_where (key r) (name r) rs h, IsUnique-set_where rs u)
    ]

    pub IsUnique-update :
        (conn : Conn) (t : Table Row)
        → IsUnique key name t.rows
        → IsUnique key name (update conn p f t).1.rows
    unfolding update
    IsUnique-update none t u = IsUnique-set_where t.rows u
    IsUnique-update (some e) t u = u

  pub IsUnique-insert_into :
      (conn : Conn) (k n : String) (row : ℕ → Row) (t : Table Row)
      → ((i : ℕ) → (key (row i) ≡ k) × (name (row i) ≡ n))
      → IsUnique key name t.rows
      → IsUnique key name (insert_into conn (is_row key name k n) row t).1.rows
  unfolding insert_into
  IsUnique-insert_into none k n row t same u =
      elim (Bool-cases (exists_in (is_row key name k n) t.rows)) [
        | inl e ↦ rw e u
        | inr e ↦
            let (sk, sn) = same t.next_id in
            rw e (IsUnique-append t.rows (row t.next_id) u (rw (sk, sn) e))
      ]
  IsUnique-insert_into (some e) k n row t same u = u

  pub IsUnique-delete :
      (conn : Conn) (p : Row → Bool) (t : Table Row)
      → IsUnique key name t.rows
      → IsUnique key name (delete conn p t).1.rows
  unfolding delete
  IsUnique-delete none p t u = IsUnique-keep (λ r. not (p r)) t.rows u
  IsUnique-delete (some e) p t u = u

  -- A statement that names a key and a name meets at most one row.
  count_of_Differs :
      (k n : String) (rs : List Row) → All (Differs k n) rs → count (is_row key name k n) rs ≡ 0
  count_of_Differs k n [] h = refl
  count_of_Differs k n (r ∷ rs) (q, h) = rw q (count_of_Differs k n rs h)

  pub count_le_one :
      (k n : String) (rs : List Row) → IsUnique key name rs → count (is_row key name k n) rs ≤ 1
  count_le_one k n [] u = omega arith
  count_le_one k n (r ∷ rs) (h, u) = elim (Bool-cases (is_row key name k n r)) [
    | inl e ↦
        let same_key : key r ≡ k = ground (arith, eq_iff (key r) k) in
        let same_name : name r ≡ n = ground (arith, eq_iff (name r) n) in
        rw e (omega (arith, count_of_Differs k n rs (rw (same_key, same_name) at h)))
    | inr e ↦ rw e (count_le_one k n rs u)
  ]
