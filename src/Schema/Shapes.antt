-- ===== src/Schema/Shapes.antt =====
-- `compare_table_shapes` of snekql/_schema_shape.py. The texts of issues and facts are left out: an
-- issue is named by what differs, and a fact has its kind, its object and its status.
pub mod Forms
pub mod Keys
pub mod Tables
pub mod Evidence
pub mod KeysAgree
pub mod Verdict
pub mod Verified
mod Examples
use snekql.Prelude.{
  ℕ, zero, suc, Bool, true, false, not, ◌&&◌, ◌||◌, Option, none, some, List, [], ◌∷◌, ◌++◌, ◌==◌,
  ltb, Text, text_eq, is_one_of, codes, map, if◌then◌else◌,
}
use snekql.Checks.{CheckExpression, Value}
use snekql.Schema.Startup.{Status, matched, drift}

pub record Fact : Type 0 where
  pub kind : Text
  pub object_name : Option Text
  pub status : Status

abbrev pub Evidence : Type 0 → Type 0
Evidence A = List A × List Fact

abbrev pub fact : Text → Option Text → Status → Fact
fact kind object status = record { kind = kind; object_name = object; status = status }

-- `_TableComparison.check`, with an issue where it does not match
pub check : {A : Type 0} → Text → Option Text → Bool → A → Evidence A
check kind object true issue = ([], fact kind object matched ∷ [])
check kind object false issue = (issue ∷ [], fact kind object drift ∷ [])

infixr 4 ◌and◌
unfoldable pub ◌and◌ : {A : Type 0} → Evidence A → Evidence A → Evidence A
(is, fs) and (js, gs) = (is ++ js, fs ++ gs)

abbrev pub nothing : {A : Type 0} → Evidence A
nothing = ([], [])

pub data Issue : Type 0 where
  storage_options_differ groups_differ : Issue
  column_missing column_extra index_missing index_extra check_missing check_differs : Text → Issue
  column_differs index_differs : Text → List Text → Issue
  key_differs key_missing key_extra : Text → Issue

pub record LiteralDefaultShape : Type 0 where
  pub mariadb : Bool
  pub value : Value

-- A catalog shows a default as text; a model may also expect a literal.
pub data ServerDefault : Type 0 where
  text_default : Text → ServerDefault
  literal_default : LiteralDefaultShape → ServerDefault

pub record ColumnShape : Type 0 where
  pub name : Text
  pub storage_type : Text
  pub nullable : Bool
  pub primary_key : Bool
  pub auto_increment : Bool
  pub server_default : Option ServerDefault
  pub collation : Option Text
  pub datetime_precision : Option ℕ
  pub unsigned : Option Bool

pub record IndexShape : Type 0 where
  pub name : Text
  pub column_names : List Text
  pub unique : Bool
  pub partial : Option Bool
  pub prefix_lengths : Option (List (Option ℕ))
  pub index_type : Option Text
  pub condition : Option CheckExpression

abbrev pub bool_eq : Bool → Bool → Bool
bool_eq true b = b
bool_eq false b = not b

abbrev pub number_eq : ℕ → ℕ → Bool
number_eq m n = m == n

pub option_eq : {A : Type 0} → (A → A → Bool) → Option A → Option A → Bool
option_eq eq none none = true
option_eq eq (some a) (some b) = eq a b
option_eq eq _ _ = false

pub list_eq : {A : Type 0} → (A → A → Bool) → List A → List A → Bool
list_eq eq [] [] = true
list_eq eq (a ∷ as') (b ∷ bs) = eq a b && list_eq eq as' bs
list_eq eq _ _ = false

abbrev pub both_none : {A : Type 0} → Option A → Option A → Bool
both_none none none = true
both_none _ _ = false

-- A property that is passed over where neither side has it
pub check_optional :
    {A : Type 0} → (A → A → Bool) → Text → Text → Option A → Option A → Evidence Text
unfolding option_eq check
check_optional eq kind name expected actual =
    if both_none expected actual
    then nothing
    else check kind (some name) (option_eq eq expected actual) kind

-- A dict from names: the last entry of a name wins, at the place of the first.
pub put : {A : Type 0} → Text → A → List (Text × A) → List (Text × A)
put n a [] = (n, a) ∷ []
put n a ((m, b) ∷ d) = let rest = put n a d in if text_eq n m then (n, a) ∷ d else (m, b) ∷ rest

pub put_all : {A : Type 0} → List (Text × A) → List (Text × A) → List (Text × A)
unfolding put
put_all d [] = d
put_all d ((n, a) ∷ xs) = put_all (put n a d) xs

pub get : {A : Type 0} → Text → List (Text × A) → Option A
get n [] = none
get n ((m, a) ∷ d) = let rest = get n d in if text_eq n m then some a else rest

abbrev pub keys : {A : Type 0} → List (Text × A) → List Text
keys [] = []
keys ((n, a) ∷ d) = n ∷ keys d

-- Code points in order, as Python compares strings
pub text_before : Text → Text → Bool
text_before [] [] = false
text_before [] (d ∷ t) = true
text_before (c ∷ s) [] = false
text_before (c ∷ s) (d ∷ t) = ltb c d || (c == d && text_before s t)

-- `sorted` of a set of names
pub insert_name : Text → List Text → List Text
unfolding text_before
insert_name n [] = n ∷ []
insert_name n (m ∷ ms) =
    let rest = insert_name n ms in
    if text_eq n m then m ∷ ms else if text_before n m then n ∷ m ∷ ms else m ∷ rest

pub sorted_names : List Text → List Text
unfolding insert_name
sorted_names [] = []
sorted_names (n ∷ ns) = insert_name n (sorted_names ns)

-- The names that are not among the others
pub without : List Text → List Text → List Text
without ns [] = []
without ns (m ∷ ms) = let rest = without ns ms in if is_one_of m ns then rest else m ∷ rest

-- A fact for each name, which is on both sides or is drift
pub presence : Text → List Text → List Text → List Text → List Fact
presence kind expected actual [] = []
presence kind expected actual (n ∷ ns) =
    fact kind (some n) (if is_one_of n expected && is_one_of n actual then matched else drift)
    ∷ presence kind expected actual ns

-- The names of both sides: what is missing, what is extra, and a fact for each
pub compare_names : Text → (Text → Issue) → (Text → Issue) → List Text → List Text → Evidence Issue
unfolding without sorted_names presence
compare_names kind missing extra expected actual = (
  map missing (without actual expected) ++ map extra (without expected actual),
  presence kind expected actual (sorted_names (expected ++ actual)),
)

-- The differences of one object make one issue.
abbrev pub gathered : (List Text → Issue) → Evidence Text → Evidence Issue
gathered make ([], fs) = ([], fs)
gathered make (d ∷ ds, fs) = (make (d ∷ ds) ∷ [], fs)

-- The objects of the model that are in the catalog too
pub compare_each :
    {A : Type 0}
    → (Text → List Text → Issue)
    → (A → A → Evidence Text)
    → List (Text × A)
    → List (Text × A)
    → Evidence Issue
unfolding ◌and◌
compare_each make compare actual [] = nothing
compare_each make compare actual ((n, a) ∷ expected) =
    elim (get n actual) [ none ↦ nothing | some b ↦ gathered (make n) (compare a b) ]
    and compare_each make compare actual expected
