-- ===== src/Gzip/Scatter.antt =====
-- zimage/gzip.rs: two nested loops that write a buffer, at places that are all different.
use rustfits.Prelude.{ℕ, zero, suc, ◌≤◌, ◌<◌, ◌≡◌, refl, ap, ◌∙◌, ◌≢◌, List, length, get_or, arith}
use native.Mathlib.Decide.{dec_lt}
use rustfits.Gzip.Buffer.{for_range, set, length-set, get_or-set, get_or-set_other}

module _ (columns rows : ℕ) (place value : ℕ → ℕ → ℕ) where
  abbrev pub write_column : ℕ → ℕ → List ℕ → List ℕ
  write_column j count out =
      for_range count (λ (i : ℕ) (out : List ℕ). set out (place i j) (value i j)) out

  abbrev pub write_columns : ℕ → List ℕ → List ℕ
  write_columns count out = for_range count (λ (j : ℕ) (out : List ℕ). write_column j rows out) out

  length-write_column :
      (j count : ℕ) (out : List ℕ) → length (write_column j count out) ≡ length out
  length-write_column j zero out = refl
  length-write_column j (suc i) out =
      length-set (write_column j i out) (place i j) (value i j) ∙ length-write_column j i out

  pub length-write_columns :
      (count : ℕ) (out : List ℕ) → length (write_columns count out) ≡ length out
  length-write_columns zero out = refl
  length-write_columns (suc j) out =
      length-write_column j rows (write_columns j out) ∙ length-write_columns j out

  -- The places of two turns of the loops differ.
  abbrev pub IsInjective : Type 0
  IsInjective =
      (i j k l : ℕ)
      → i < rows
      → j < columns
      → k < rows
      → l < columns
      → place i j ≡ place k l
      → (i ≡ k) × (j ≡ l)

  module _ (distinct : IsInjective) where
    -- A column that is written later leaves the others.
    write_column_other :
        (i j l count : ℕ) (out : List ℕ)
        → i < rows
        → j < columns
        → l < columns
        → count ≤ rows
        → j ≢ l
        → get_or (write_column l count out) (place i j) 0 ≡ get_or out (place i j) 0
    write_column_other i j l zero out _ _ _ _ _ = refl
    write_column_other i j l (suc k) out row col col2 le differs =
        get_or-set_other (write_column l k out) (place k l) (place i j) (value k l) 0
          (λ e. differs ((distinct i j k l row col (omega arith) col2 e).1))
        ∙ write_column_other i j l k out row col col2 (omega arith) differs

    write_column_here :
        (i j count : ℕ) (out : List ℕ)
        → i < count
        → j < columns
        → count ≤ rows
        → place i j < length out
        → get_or (write_column j count out) (place i j) 0 ≡ value i j
    write_column_here i j zero out h _ _ _ = absurd (omega arith)
    write_column_here i j (suc k) out h col le inside =
        let len = length-write_column j k out in
        elim (dec_lt i k) [
          | yes before ↦
              get_or-set_other (write_column j k out) (place k j) (place i j) (value k j) 0 (λ e.
                let same = (distinct i j k j (omega arith) col (omega arith) col e).0 in
                omega arith)
              ∙ write_column_here i j k out before col (omega arith) inside
          | no last ↦
              let e : i ≡ k = omega arith in
              rw e (
                get_or-set (write_column j k out) (place k j) (value k j) 0
                  (let p : place i j ≡ place k j = ap (λ (t : ℕ). place t j) e in omega arith))
        ]

    -- Every place holds its value, whatever the buffer held.
    pub write_columns_lem :
        (i j count : ℕ) (out : List ℕ)
        → i < rows
        → j < count
        → count ≤ columns
        → place i j < length out
        → get_or (write_columns count out) (place i j) 0 ≡ value i j
    write_columns_lem i j zero out _ h _ _ = absurd (omega arith)
    write_columns_lem i j (suc l) out row h le inside =
        let len = length-write_columns l out in
        elim (dec_lt j l) [
          | yes before ↦
              write_column_other i j l rows (write_columns l out) row (omega arith) (omega arith)
                (omega arith) (λ e. omega arith)
              ∙ write_columns_lem i j l out row before (omega arith) inside
          | no last ↦
              let e : j ≡ l = omega arith in
              rw⁻¹ e (
                write_column_here i j rows (write_columns j out) row (omega arith) (omega arith)
                  (omega (arith, length-write_columns j out)))
        ]
