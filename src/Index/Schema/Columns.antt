-- ===== src/Index/Schema/Columns.antt =====
-- What the statements of `migrate` in index.go do to the columns of a table.
use mathlib.Core.Path.{subst}
use go_ds_s3_walrus.Common.{
  String, Bool, true, false, not, ◌||◌, ◌≡◌, refl, ap, sym, ◌∙◌, Option, none, some, List, [], ◌∷◌,
  ◌++◌, contains, arith, eq_iff, str_eq, ◌⊎◌, inl, inr, Bool-cases, Option-cases,
}
use go_ds_s3_walrus.Common.Assoc.{lookup, insert, lookup-insert}
use go_ds_s3_walrus.Index.Moves.{is_some}
use go_ds_s3_walrus.Index.Schema.{
  Column, Catalogue, Ddl, create_table, add_column, create_index, column_names, put_index, run_ddl,
}

abbrev pub column_in : Option (List Column) → String → Bool
column_in none n = false
column_in (some cols) n = contains (column_names cols) n

-- Whether a table has a column, and whether it is there.
abbrev pub has_column : String → String → Catalogue → Bool
has_column t n c = column_in (lookup t c.tables) n

abbrev pub is_table : String → Catalogue → Bool
is_table t c = is_some (lookup t c.tables)

contains-with :
    (cols : List Column) (col : Column) (n : String)
    → contains (column_names (cols ++ col ∷ [])) n
      ≡ (contains (column_names cols) n || str_eq col.name n)
contains-with [] col n = ground arith
contains-with (x ∷ cols) col n = ground (arith, contains-with cols col n)

-- The columns that are there stay.
pub record Keeps (c c' : Catalogue) : Type 0 where
  pub columns : (t n : String) → has_column t n c ≡ true → has_column t n c' ≡ true
  pub tables : (t : String) → is_table t c ≡ true → is_table t c' ≡ true

Keeps-insert :
    (c : Catalogue) (table : String) (cols : List Column)
    → ((n : String) → has_column table n c ≡ true → contains (column_names cols) n ≡ true)
    → Keeps c (record c { tables = insert table cols c.tables })
Keeps-insert c table cols more = record {
  columns = λ t n h. elim (Bool-cases (str_eq table t)) [
    | inl same ↦
        rw (lookup-insert table cols c.tables t, same)
          (more n (subst (λ x. has_column x n c ≡ true) (sym ((eq_iff table t).0 same)) h))
    | inr other ↦ rw (lookup-insert table cols c.tables t, other) h
  ];
  tables = λ t h. rw (lookup-insert table cols c.tables t) (ground (arith, h));
}

-- What a statement needs: a table that it adds to, a column that it indexes.
abbrev pub Needs : Ddl → Catalogue → Type 0
Needs (create_table t cols) c = Unit
Needs (add_column t col) c = is_table t c ≡ true
Needs (create_index name t col) c = has_column t col c ≡ true

-- What there is after it.
abbrev pub Gives : Ddl → Catalogue → Type 0
Gives (create_table t cols) c = is_table t c ≡ true
Gives (add_column t col) c = has_column t col.name c ≡ true
Gives (create_index name t col) c = has_column t col c ≡ true

-- A table is not there yet, or has a column.
abbrev pub Usable : String → String → Catalogue → Type 0
Usable t n c = (is_table t c ≡ false) ⊎ (has_column t n c ≡ true)

-- A statement that creates the table creates it with the column.
abbrev pub creates_with : String → String → Ddl → Bool
creates_with t n (create_table t' cols) = not (str_eq t' t) || contains (column_names cols) n
creates_with t n (add_column t' col) = true
creates_with t n (create_index name t' col) = true

-- What a statement does, where it has what it needs: it succeeds.
pub record IsRun (d : Ddl) (c c' : Catalogue) : Type 0 where
  pub run : run_ddl d c ≡ some c'
  pub keeps : Keeps c c'
  pub gives : Gives d c'
  pub usable : (t n : String) → creates_with t n d ≡ true → Usable t n c → Usable t n c'

table_there : (o : Option (List Column)) → is_some o ≡ true → (cols : List Column) × (o ≡ some cols)
table_there none h = absurd (cc h)
table_there (some cols) h = (cols, refl)

Keeps-same : (c c' : Catalogue) → c'.tables ≡ c.tables → Keeps c c'
Keeps-same c c' same = record { columns = λ t n h. rw same h; tables = λ t h. rw same h }

-- Every statement runs where it has what it needs.
create_table-IsRun :
    (t : String) (cols : List Column) (c : Catalogue)
    → (c' : Catalogue) × IsRun (create_table t cols) c c'
create_table-IsRun t cols c = elim (Option-cases (lookup t c.tables)) [
  | inr (old, there) ↦ (
    c,
    record {
      run = unfold run_ddl in rw there refl;
      keeps = Keeps-same c c refl;
      gives = rw there refl;
      usable = λ t' n h u. u;
    },
  )
  | inl missing ↦ (
    record c { tables = insert t cols c.tables },
    record {
      run = unfold run_ddl in rw missing refl;
      keeps = Keeps-insert c t cols (λ n h. absurd (cc (rw missing at h)));
      gives = rw (lookup-insert t cols c.tables t, (eq_iff t t).1 refl) refl;
      usable = λ t' n h u. elim (Bool-cases (str_eq t t')) [
        | inl same ↦ inr (rw (lookup-insert t cols c.tables t', same) (rw same at h))
        | inr other ↦ rw (lookup-insert t cols c.tables t', other) u
      ];
    },
  )
]

add_column-IsRun :
    (t : String) (col : Column) (c : Catalogue)
    → is_table t c ≡ true
    → (c' : Catalogue) × IsRun (add_column t col) c c'
add_column-IsRun t col c h =
    let (cols, there) = table_there (lookup t c.tables) h in
    elim (Bool-cases (contains (column_names cols) col.name)) [
      | inl old ↦ (
        c,
        record {
          run = unfold run_ddl in rw (there, old) refl;
          keeps = Keeps-same c c refl;
          gives = rw (there, old) refl;
          usable = λ t' n k u. u;
        },
      )
      | inr new ↦
          let keeps =
            Keeps-insert c t (cols ++ col ∷ [])
              (λ n k. contains-with cols col n ∙ rw (rw there at k) refl) in
          (
            record c { tables = insert t (cols ++ col ∷ []) c.tables },
            record {
              run = unfold run_ddl in rw (there, new) refl;
              keeps = keeps;
              gives =
                  rw (lookup-insert t (cols ++ col ∷ []) c.tables t, (eq_iff t t).1 refl)
                    (contains-with cols col col.name ∙ ground (arith, eq_iff col.name col.name));
              usable = λ t' n k u. elim (Bool-cases (str_eq t t')) [
                | inl same ↦ elim u [
                  | inl missing ↦
                      absurd (cc (missing, h, ap (λ x. is_table x c) ((eq_iff t t').0 same)))
                  | inr has ↦ inr (keeps.columns t' n has)
                ]
                | inr other ↦ rw (lookup-insert t (cols ++ col ∷ []) c.tables t', other) u
              ];
            },
          )
    ]

create_index-IsRun :
    (name t col : String) (c : Catalogue)
    → has_column t col c ≡ true
    → (c' : Catalogue) × IsRun (create_index name t col) c c'
create_index-IsRun name t col c h = elim (Option-cases (lookup t c.tables)) [
  | inl missing ↦ absurd (cc (rw missing at h))
  | inr (cols, there) ↦ (
    record c { indexes = put_index name c.indexes },
    record {
      run = unfold run_ddl in rw (there, rw there at h) refl;
      keeps = Keeps-same c (record c { indexes = put_index name c.indexes }) refl;
      gives = h;
      usable = λ t' n k u. u;
    },
  )
]

pub Needs-IsRun : (d : Ddl) (c : Catalogue) → Needs d c → (c' : Catalogue) × IsRun d c c'
Needs-IsRun (create_table t cols) c h = create_table-IsRun t cols c
Needs-IsRun (add_column t col) c h = add_column-IsRun t col c h
Needs-IsRun (create_index name t col) c h = create_index-IsRun name t col c h
