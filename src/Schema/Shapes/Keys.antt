-- ===== src/Schema/Shapes/Keys.antt =====
-- The foreign keys of two shapes: `_diff_foreign_keys` and `group_foreign_keys` of
-- snekql/_schema_shape.py.
use snekql.Prelude.{
  ℕ, Bool, true, false, ◌&&◌, ◌||◌, Option, none, some, List, [], ◌∷◌, ◌++◌, leb, Text, text_eq,
  codes, map, if◌then◌else◌,
}
use snekql.Schema.Startup.{matched, drift}
use snekql.Schema.Shapes.{
  fact, Evidence, ◌and◌, Issue, groups_differ, key_differs, key_missing, key_extra, text_before,
  sorted_names, list_eq,
}

pub record ForeignKeyShape : Type 0 where
  pub column_name : Text
  pub target_table : Text
  pub target_column : Text
  pub on_delete : Text
  pub on_update : Text
  pub constraint_id : Option Text
  pub position : ℕ

-- `_foreign_key_facts`
abbrev pub key_facts : ForeignKeyShape → List Text
key_facts k = k.target_table ∷ k.target_column ∷ k.on_delete ∷ k.on_update ∷ []

-- The order of tuples of texts
pub facts_before : List Text → List Text → Bool
unfolding text_before
facts_before [] [] = false
facts_before [] (t ∷ ts) = true
facts_before (s ∷ ss) [] = false
facts_before (s ∷ ss) (t ∷ ts) = text_before s t || (text_eq s t && facts_before ss ts)

-- `==`, to which the constraint and the position do not count
abbrev pub key_eq : ForeignKeyShape → ForeignKeyShape → Bool
key_eq j k = list_eq text_eq (j.column_name ∷ key_facts j) (k.column_name ∷ key_facts k)

-- `sorted` by the facts, which keeps the order of equals
pub insert_key : ForeignKeyShape → List ForeignKeyShape → List ForeignKeyShape
unfolding facts_before
insert_key k [] = k ∷ []
insert_key k (j ∷ js) =
    let rest = insert_key k js in
    if facts_before (key_facts j) (key_facts k) then j ∷ rest else k ∷ j ∷ js

pub sorted_keys : List ForeignKeyShape → List ForeignKeyShape
unfolding insert_key
sorted_keys [] = []
sorted_keys (k ∷ ks) = insert_key k (sorted_keys ks)

-- `list.remove`, or none where it is not there
pub remove_key : ForeignKeyShape → List ForeignKeyShape → Option (List ForeignKeyShape)
unfolding list_eq
remove_key k [] = none
remove_key k (j ∷ js) =
    let rest = remove_key k js in
    if key_eq j k then some js else elim rest [ none ↦ none | some is ↦ some (j ∷ is) ]

-- What is left of both sides once exact matches are taken away one by one
pub unmatched :
    List ForeignKeyShape → List ForeignKeyShape → List ForeignKeyShape × List ForeignKeyShape
unfolding remove_key
unmatched [] actual = ([], actual)
unmatched (k ∷ ks) actual = elim (remove_key k actual) [
  | some rest ↦ unmatched ks rest
  | none ↦ let left = unmatched ks actual in (k ∷ left.0, left.1)
]

-- Pairs that differ, and then what one side has more
pub key_issues : Text → List ForeignKeyShape → List ForeignKeyShape → List Issue
key_issues n [] [] = []
key_issues n [] (k ∷ ks) = key_extra n ∷ key_issues n [] ks
key_issues n (j ∷ js) [] = key_missing n ∷ key_issues n js []
key_issues n (j ∷ js) (k ∷ ks) = key_differs n ∷ key_issues n js ks

pub of_column : Text → List ForeignKeyShape → List ForeignKeyShape
of_column n [] = []
of_column n (k ∷ ks) =
    let rest = of_column n ks in if text_eq k.column_name n then k ∷ rest else rest

abbrev pub any_issue : List Issue → Bool
any_issue [] = false
any_issue (i ∷ is) = true

unfoldable pub with_fact : Text → List Issue → Evidence Issue
with_fact n is = (
  is,
  fact (codes "foreign_key.relationships") (some n) (if any_issue is then drift else matched) ∷ [],
)

unfoldable pub compare_columns_keys :
    List ForeignKeyShape → List ForeignKeyShape → List Text → Evidence Issue
unfolding ◌and◌ with_fact key_issues unmatched sorted_keys of_column
compare_columns_keys expected actual [] = ([], [])
compare_columns_keys expected actual (n ∷ ns) =
    let rest = unmatched (sorted_keys (of_column n expected)) (sorted_keys (of_column n actual)) in
    with_fact n (key_issues n rest.0 rest.1) and compare_columns_keys expected actual ns

abbrev pub key_columns : List ForeignKeyShape → List Text
key_columns ks = map (λ (k : ForeignKeyShape). k.column_name) ks

-- Groups of keys by constraint; one without an identity is a group of its own.
abbrev pub same_constraint : Option Text → Option Text → Bool
same_constraint (some s) (some t) = text_eq s t
same_constraint _ _ = false

-- A group sorted by position, which keeps the order of equals
pub insert_position : ForeignKeyShape → List ForeignKeyShape → List ForeignKeyShape
insert_position k [] = k ∷ []
insert_position k (j ∷ js) =
    let rest = insert_position k js in if leb k.position j.position then k ∷ j ∷ js else j ∷ rest

pub put_in_group : ForeignKeyShape → List (List ForeignKeyShape) → List (List ForeignKeyShape)
unfolding insert_position
put_in_group k [] = (k ∷ []) ∷ []
put_in_group k ([] ∷ gs) = [] ∷ put_in_group k gs
put_in_group k ((j ∷ js) ∷ gs) =
    let rest = put_in_group k gs in
    if same_constraint j.constraint_id k.constraint_id
    then insert_position k (j ∷ js) ∷ gs
    else (j ∷ js) ∷ rest

-- From the last key to the first, so that equals come in their order
pub group_foreign_keys : List ForeignKeyShape → List (List ForeignKeyShape)
unfolding put_in_group
group_foreign_keys [] = []
group_foreign_keys (k ∷ ks) = put_in_group k (group_foreign_keys ks)

abbrev pub group_facts : List ForeignKeyShape → List (List Text)
group_facts ks = map (λ (k : ForeignKeyShape). k.column_name ∷ key_facts k) ks

abbrev pub group_eq : List ForeignKeyShape → List ForeignKeyShape → Bool
group_eq g h = list_eq (list_eq text_eq) (group_facts g) (group_facts h)

pub remove_group :
    List ForeignKeyShape → List (List ForeignKeyShape) → Option (List (List ForeignKeyShape))
unfolding list_eq
remove_group g [] = none
remove_group g (h ∷ hs) =
    let rest = remove_group g hs in
    if group_eq h g then some hs else elim rest [ none ↦ none | some is ↦ some (h ∷ is) ]

-- `==` of the two Counters: each group as often on both sides
pub same_groups : List (List ForeignKeyShape) → List (List ForeignKeyShape) → Bool
unfolding remove_group
same_groups [] [] = true
same_groups [] (h ∷ hs) = false
same_groups (g ∷ gs) hs = elim (remove_group g hs) [
  | none ↦ false
  | some rest ↦ same_groups gs rest
]

-- The groups make an issue only where the columns made none.
unfoldable pub with_groups : Bool → Evidence Issue → Evidence Issue
with_groups true (is, fs) = (is, fs ++ fact (codes "foreign_keys.grouping") none matched ∷ [])
with_groups false (i ∷ is, fs) =
    (i ∷ is, fs ++ fact (codes "foreign_keys.grouping") none drift ∷ [])
with_groups false ([], fs) =
    (groups_differ ∷ [], fs ++ fact (codes "foreign_keys.grouping") none drift ∷ [])

-- A fact where neither side has a key
unfoldable pub no_keys : List ForeignKeyShape → List ForeignKeyShape → Evidence Issue
no_keys [] [] = ([], fact (codes "foreign_key.relationships") none matched ∷ [])
no_keys _ _ = ([], [])

unfoldable pub compare_foreign_keys : List ForeignKeyShape → List ForeignKeyShape → Evidence Issue
unfolding ◌and◌ no_keys compare_columns_keys with_groups same_groups group_foreign_keys sorted_names
compare_foreign_keys expected actual =
    with_groups (same_groups (group_foreign_keys expected) (group_foreign_keys actual)) (
      no_keys expected actual
      and compare_columns_keys expected actual
          (sorted_names (key_columns expected ++ key_columns actual)))
