-- ===== src/Index/Schema/Versions.antt =====
-- The versions of the schema of index.go, and that the statements of `migrate` fit them.
use go_ds_s3_walrus.Common.{
  String, true, false, ◌≡◌, refl, List, [], ◌∷◌, arith, eq_iff, str_eq, inl, inr, Bool-cases, All,
}
use go_ds_s3_walrus.Common.Texts.{append, append-longer}
use go_ds_s3_walrus.Index.Schema.{
  Catalogue, column_names, index_columns, staging_columns, staging_table, migration,
}
use go_ds_s3_walrus.Index.Schema.Columns.{has_column, is_table, Keeps, Usable}
use go_ds_s3_walrus.Index.Schema.Traces.{Fits, there}

-- The columns of the index table since its first version.
abbrev pub first_columns : List String
first_columns =
    "key" ∷ "blob_id" ∷ "size" ∷ "deletable" ∷ "end_epoch" ∷ "expires_at" ∷ "created_at"
    ∷ "updated_at" ∷ []

-- A schema of some earlier version: the index table is missing or has its first columns, with any of the later ones;
-- the staging table is missing or has all of its columns.
pub record IsEarlier (table : String) (c : Catalogue) : Type 0 where
  pub index : All (λ n. Usable table n c) first_columns
  pub staging : All (λ n. Usable (staging_table table) n c) (column_names staging_columns)

-- The schema that the statements of index.go need.
pub record IsCurrent (table : String) (c : Catalogue) : Type 0 where
  pub index : All (λ n. has_column table n c ≡ true) (column_names index_columns)
  pub staging :
      All (λ n. has_column (staging_table table) n c ≡ true) (column_names staging_columns)

pub staging-apart : (table : String) → str_eq (staging_table table) table ≡ false
unfolding staging_table
staging-apart table = elim (Bool-cases (str_eq (append table "_staging") table)) [
  | inl same ↦
      absurd (append-longer table "_staging" (λ e. absurd (cc e)) ((eq_iff _ table).0 same))
  | inr apart ↦ apart
]

pub staging-apart-flip : (table : String) → str_eq table (staging_table table) ≡ false
staging-apart-flip table = ground (
  arith,
  staging-apart table,
  eq_iff table (staging_table table),
  eq_iff (staging_table table) table,
)

-- What the statements on the index table need stays.
pub record Stable (table : String) (c : Catalogue) : Type 0 where
  pub is_there : is_table table c ≡ true
  pub key : has_column table "key" c ≡ true
  pub expires_at : has_column table "expires_at" c ≡ true
  pub blob_id : has_column table "blob_id" c ≡ true

pub Keeps-Stable :
    {table : String} {c c' : Catalogue} → Keeps c c' → Stable table c → Stable table c'
Keeps-Stable {table} k s = record {
  is_there = k.tables table s.is_there;
  key = k.columns table "key" s.key;
  expires_at = k.columns table "expires_at" s.expires_at;
  blob_id = k.columns table "blob_id" s.blob_id;
}

pub migration-Fits : (table : String) (c : Catalogue) → IsEarlier table c → Fits (migration table) c
unfolding migration
migration-Fits table c old =
    let st = staging_table table in
    (
      tt,
      λ c₁ r₁.
          let s₁ : Stable table c₁ = record {
            is_there = r₁.gives;
            key = there table "key" c₁ (r₁.usable table "key" (ground arith) old.index.0) r₁.gives;
            expires_at =
                there table "expires_at" c₁
                  (r₁.usable table "expires_at" (ground arith) old.index.1.1.1.1.1.0) r₁.gives;
            blob_id =
                there table "blob_id" c₁ (r₁.usable table "blob_id" (ground arith) old.index.1.0)
                  r₁.gives;
          } in
          (
            s₁.is_there,
            λ c₂ r₂.
                let s₂ = Keeps-Stable r₂.keeps s₁ in
                (
                  s₂.is_there,
                  λ c₃ r₃.
                      let s₃ = Keeps-Stable r₃.keeps s₂ in
                      (
                        s₃.is_there,
                        λ c₄ r₄.
                            let s₄ = Keeps-Stable r₄.keeps s₃ in
                            (
                              s₄.is_there,
                              λ c₅ r₅.
                                  let s₅ = Keeps-Stable r₅.keeps s₄ in
                                  (
                                    s₅.is_there,
                                    λ c₆ r₆.
                                        let s₆ = Keeps-Stable r₆.keeps s₅ in
                                        (
                                          s₆.key,
                                          λ c₇ r₇.
                                              let s₇ = Keeps-Stable r₇.keeps s₆ in
                                              (
                                                s₇.expires_at,
                                                λ c₈ r₈.
                                                    let s₈ = Keeps-Stable r₈.keeps s₇ in
                                                    (
                                                      s₈.blob_id,
                                                      λ c₉ r₉. (
                                                        tt,
                                                        λ c₁₀ r₁₀. (
                                                          there st "created_at" c₁₀
                                                            (r₁₀.usable st "created_at"
                                                            (ground arith)
                                                            (r₉.usable st "created_at" refl (
                                                            r₈.usable st "created_at" refl (
                                                            r₇.usable st "created_at" refl (
                                                            r₆.usable st "created_at" refl (
                                                            r₅.usable st "created_at" refl (
                                                            r₄.usable st "created_at" refl (
                                                            r₃.usable st "created_at" refl (
                                                            r₂.usable st "created_at" refl (
                                                            r₁.usable st "created_at"
                                                            (ground
                                                            (arith, staging-apart-flip table))
                                                            (old.staging.1.1.1.0)))))))))))
                                                            r₁₀.gives,
                                                          λ c₁₁ r₁₁. tt,
                                                        ),
                                                      ),
                                                    ),
                                              ),
                                        ),
                                  ),
                            ),
                      ),
                ),
          ),
    )
