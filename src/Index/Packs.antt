-- ===== src/Index/Packs.antt =====
-- The loop of `StageClaim` in index.go over its candidates: how much it takes.
use go_ds_s3_walrus.Common.{
  ℕ, zero, suc, ◌+◌, ◌≤◌, ◌<◌, String, true, false, ◌≡◌, refl, ◌⊎◌, inl, inr, [], ◌∷◌, arith,
  Bool-cases, take, length, All, sum_of, ltb, ap, ◌∙◌,
}
use go_ds_s3_walrus.Common.Int.{pos, add64-pos, half_word}
use go_ds_s3_walrus.Common.Assoc.{Assoc}
use go_ds_s3_walrus.Index.{StageRow}
use go_ds_s3_walrus.Index.Stage.{scan_keys}
use go_ds_s3_walrus.Index.Claims.{primary_keys}

-- The size column is the length of the value.
abbrev pub IsSized : Assoc StageRow → Type 0
IsSized = All (λ e. e.1.size ≡ pos (length e.1.value))

abbrev pub bytes_of : Assoc StageRow → ℕ
bytes_of = sum_of (λ e. length e.1.value)

-- `n` rows after `total` bytes: they fit, and one more would not.
pub record IsFit (max_bytes total n : ℕ) (rows : Assoc StageRow) : Type 0 where
  pub within : n ≤ length rows
  pub fits : (n ≡ 0) ⊎ (total + bytes_of (take n rows) ≤ max_bytes)
  pub longest : (n ≡ length rows) ⊎ (max_bytes < total + bytes_of (take (suc n) rows))

scan_more :
    (max_bytes total : ℕ) (rows : Assoc StageRow)
    → IsSized rows
    → total + bytes_of rows < half_word
    → (n : ℕ) × (scan_keys (pos max_bytes) true (pos total) rows ≡ primary_keys (take n rows))
      × IsFit max_bytes total n rows
unfolding scan_keys
scan_more max_bytes total [] sized small =
    (0, refl, record { within = omega arith; fits = inl refl; longest = inl refl })
scan_more max_bytes total ((k, row) ∷ rows) sized small = rw sized.0 (
    rw (add64-pos total (length row.value) (omega (arith, small)))
      (elim (Bool-cases (ltb max_bytes (total + length row.value))) [
        | inl over ↦ (
          0,
          ground (arith, over),
          record { within = omega arith; fits = inl refl; longest = inr ground (arith, over) },
        )
        | inr under ↦
            let (n, same, fit) =
              scan_more max_bytes (total + length row.value) rows sized.1 (omega (arith, small)) in
            (
              suc n,
              ground (arith, under, same),
              record {
                within = omega (arith, fit.within);
                fits = inr (fits-cons n fit.fits under);
                longest = longest-cons n fit.longest;
              },
            )
      ]))
  where
    fits-cons :
        (n : ℕ)
        → (n ≡ 0) ⊎ (total + length row.value + bytes_of (take n rows) ≤ max_bytes)
        → ltb max_bytes (total + length row.value) ≡ false
        → total + (length row.value + bytes_of (take n rows)) ≤ max_bytes
    fits-cons zero h under = ground (arith, under)
    fits-cons (suc n) (inl none_more) under = absurd (omega (arith, none_more))
    fits-cons (suc n) (inr fits) under = omega (arith, fits)

    longest-cons :
        (n : ℕ)
        → (n ≡ length rows) ⊎ (max_bytes < total + length row.value + bytes_of (take (suc n) rows))
        → (suc n ≡ suc (length rows))
          ⊎ (max_bytes < total + (length row.value + bytes_of (take (suc n) rows)))
    longest-cons n (inl all) = inl (ap suc all)
    longest-cons n (inr more) = inr (omega (arith, more))

-- The scan takes the first candidate, and after it the longest run of further ones with which the
-- total stays within `max_bytes` (none if already the first exceeds it), where the size column is the
-- length of the value and all sizes together stay below 2^63.
pub scan_keys-IsFit :
    (max_bytes : ℕ) (k : String) (row : StageRow) (rows : Assoc StageRow)
    → IsSized ((k, row) ∷ rows)
    → bytes_of ((k, row) ∷ rows) < half_word
    → (n : ℕ) × (scan_keys (pos max_bytes) false (pos 0) ((k, row) ∷ rows)
        ≡ k ∷ primary_keys (take n rows))
      × IsFit max_bytes (length row.value) n rows
unfolding scan_keys
scan_keys-IsFit max_bytes k row rows sized small =
    let (n, same, fit) =
      scan_more max_bytes (length row.value) rows sized.1 (omega (arith, small)) in
    (
      n,
      rw sized.0 (
          rw (add64-pos 0 (length row.value) (omega (arith, small))) (
            ap (λ (x : ℕ). k ∷ scan_keys (pos max_bytes) true (pos x) rows) (omega arith)
            ∙ ap (λ ks. k ∷ ks) same)),
      fit,
    )
