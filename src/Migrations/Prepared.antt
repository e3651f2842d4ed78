-- ===== src/Migrations/Prepared.antt =====
-- What a prepared declaration is, and that a complete history pins it down.
use snekql.Prelude.{
  ℕ, suc, ◌≤◌, ◌≡◌, ◌↔◌, refl, sym, ap, ◌∙◌, true, false, List, [], ◌∷◌, arith, length, take, Text,
  ok, >>=-ok, ok-injective, subst,
}
use snekql.Migrations.{
  Digest, Item, str, other, dict, Migration, MigrationPlan, MigrationRecord, history_record,
  is_blank, contains, encodable, is_empty, prepare_body, prepare_named, prepare_item, prepare_items,
  prepare_migrations, max_migration_name_length, validate_history_prefix,
}
use snekql.Migrations.Prefix.{InOrder, records, validate_history_prefix_iff}

-- The texts pass every check of the loop.
abbrev pub Passes : Text → Text → Type 0
Passes name sql =
    (is_empty name ≡ false)
    × (length name ≤ max_migration_name_length)
    × (is_blank sql ≡ false)
    × (contains 0 name ≡ false)
    × (contains 0 sql ≡ false)
    × (encodable name ≡ true)
    × (encodable sql ≡ true)

abbrev pub prepared_as : Digest → ℕ → Text → Text → Migration
prepared_as digest position name sql = record {
  position = position;
  name = name;
  checksum = digest sql;
  sql = sql;
}

-- Item by item: two texts that pass, at positions that count up from `position`.
abbrev pub ArePrepared : Digest → ℕ → List (Item × Item) → MigrationPlan → Type 0
ArePrepared digest position [] [] = Unit {0}
ArePrepared digest position [] (m ∷ ms) = ⊥
ArePrepared digest position (i ∷ items) [] = ⊥
ArePrepared digest position ((name, body) ∷ items) (m ∷ ms) =
    (name ≡ str m.name)
    × (body ≡ str m.sql)
    × (m ≡ prepared_as digest position m.name m.sql)
    × Passes m.name m.sql
    × ArePrepared digest (suc position) items ms

module _ (digest : Digest) (position : ℕ) where
  body_sound :
      (name sql : Text) (m : Migration)
      → prepare_body digest position name sql ≡ ok m
      → (prepared_as digest position name sql ≡ m)
        × (is_blank sql ≡ false)
        × (contains 0 name ≡ false)
        × (contains 0 sql ≡ false)
        × (encodable name ≡ true)
        × (encodable sql ≡ true)
  unfolding prepare_body
  body_sound name sql m h = ground arith

  named_sound :
      (name sql : Text) (m : Migration)
      → prepare_named digest position name (str sql) ≡ ok m
      → (prepared_as digest position name sql ≡ m) × Passes name sql
  unfolding prepare_named
  named_sound name sql m h = ground (arith, body_sound name sql m)

  named_complete :
      (name sql : Text)
      → Passes name sql
      → prepare_named digest position name (str sql) ≡ ok (prepared_as digest position name sql)
  unfolding prepare_named prepare_body
  named_complete name sql (h0, h1, h2, h3, h4, h5, h6) = ground arith

  named_item :
      (name sql : Text)
      → Passes name sql
      → prepare_item digest position (str name) (str sql)
        ≡ ok (prepared_as digest position name sql)
  unfolding prepare_item
  named_item name sql p = named_complete name sql p

  item_sound :
      (name body : Item) (m : Migration)
      → prepare_item digest position name body ≡ ok m
      → (name ≡ str m.name)
        × (body ≡ str m.sql)
        × (m ≡ prepared_as digest position m.name m.sql)
        × Passes m.name m.sql
  unfolding prepare_item
  item_sound (str name) (str sql) m h =
      let (e, p) = named_sound name sql m h in
      subst
        (λ x.
          (str name ≡ str x.name)
          × (str sql ≡ str x.sql)
          × (x ≡ prepared_as digest position x.name x.sql)
          × Passes x.name x.sql)
        e (refl, refl, refl, p)
  item_sound (str name) other m h = absurd (unfold prepare_named in ground arith)
  item_sound other body m h = absurd (cc)

items_sound :
    (digest : Digest) (position : ℕ) (items : List (Item × Item)) (plan : MigrationPlan)
    → prepare_items digest position items ≡ ok plan
    → ArePrepared digest position items plan
unfolding prepare_items
items_sound digest position [] [] h = tt
items_sound digest position [] (m ∷ ms) h = cc
items_sound digest position ((name, body) ∷ items) plan h =
    let (m, em, h') = >>=-ok _ (prepare_item digest position name body) h in
    let (ms, ems, h'') = >>=-ok _ (prepare_items digest (suc position) items) h' in
    let head = item_sound digest position name body m em in
    subst (ArePrepared digest position ((name, body) ∷ items)) (ok-injective h'')
      (head.0, head.1, head.2, head.3, items_sound digest (suc position) items ms ems)

items_complete :
    (digest : Digest) (position : ℕ) (items : List (Item × Item)) (plan : MigrationPlan)
    → ArePrepared digest position items plan
    → prepare_items digest position items ≡ ok plan
unfolding prepare_items
items_complete digest position [] [] h = refl
items_complete digest position [] (m ∷ ms) h = absurd h
items_complete digest position (i ∷ items) [] h = absurd h
items_complete digest position ((name, body) ∷ items) (m ∷ ms) (en, eb, em, p, rest) =
    rw (en, eb)
      (ground (
        arith,
        named_item digest position m.name m.sql p,
        em,
        items_complete digest (suc position) items ms rest,
      ))

-- A declared dictionary is prepared into a plan exactly where its items are, in order, pairs of
-- exact strings with a name of 1 to 255 characters, a body that is not blank, no NUL and no lone
-- surrogate in either; the plan numbers them from 1 and digests each whole body.
pub prepare_migrations_iff :
    (digest : Digest) (items : List (Item × Item)) (plan : MigrationPlan)
    → (prepare_migrations digest (dict items) ≡ ok plan) ↔ ArePrepared digest 1 items plan
unfolding prepare_migrations
prepare_migrations_iff digest items plan =
    (items_sound digest 1 items plan, items_complete digest 1 items plan)

ArePrepared-InOrder :
    (digest : Digest) (position : ℕ) (items : List (Item × Item)) (plan : MigrationPlan)
    → ArePrepared digest position items plan
    → InOrder position plan
ArePrepared-InOrder digest position [] [] h = tt
ArePrepared-InOrder digest position [] (m ∷ ms) h = absurd h
ArePrepared-InOrder digest position (i ∷ items) [] h = tt
ArePrepared-InOrder digest position ((name, body) ∷ items) (m ∷ ms) h =
    (ap (λ (x : Migration). x.position) h.2, ArePrepared-InOrder digest (suc position) items ms h.4)

pub prepare_migrations-InOrder :
    (digest : Digest) (items : List (Item × Item)) (plan : MigrationPlan)
    → prepare_migrations digest (dict items) ≡ ok plan
    → InOrder 1 plan
prepare_migrations-InOrder digest items plan h =
    ArePrepared-InOrder digest 1 items plan ((prepare_migrations_iff digest items plan).0 h)

-- Where the digest is injective, a record determines the migration.
same_record :
    (digest : Digest)
    → ((s t : Text) → digest s ≡ digest t → s ≡ t)
    → (position : ℕ) (m n : Migration) → m ≡ prepared_as digest position m.name m.sql
    → n ≡ prepared_as digest position n.name n.sql
    → history_record m ≡ history_record n
    → m ≡ n
unfolding history_record
same_record digest injective position m n em en e = ground (
  arith,
  em,
  en,
  ap (λ (r : MigrationRecord). r.name) e,
  injective m.sql n.sql,
  ap (λ (r : MigrationRecord). r.checksum) e,
  ap (λ (x : Migration). x.checksum) em,
  ap (λ (x : Migration). x.checksum) en,
)

same_records :
    (digest : Digest)
    → ((s t : Text) → digest s ≡ digest t → s ≡ t)
    → (position : ℕ) (items others : List (Item × Item)) (p q : MigrationPlan)
    → ArePrepared digest position items p
    → ArePrepared digest position others q
    → records p ≡ records q
    → p ≡ q
same_records digest inj position items others [] [] hp hq e = refl
same_records digest inj position items others [] (n ∷ ns) hp hq e = absurd (cc)
same_records digest inj position items others (m ∷ ms) [] hp hq e = absurd (cc)
same_records digest inj position [] others (m ∷ ms) (n ∷ ns) hp hq e = absurd hp
same_records digest inj position (i ∷ items) [] (m ∷ ms) (n ∷ ns) hp hq e = absurd hq
same_records digest inj position ((a, b) ∷ items) ((c, d) ∷ others) (m ∷ ms) (n ∷ ns) hp hq e = cc (
  same_record digest inj position m n hp.2 hq.2 (cc),
  same_records digest inj (suc position) items others ms ns hp.4 hq.4 (cc),
)

take_all {ℓ} : {A : Type ℓ} (xs : List A) → take (length xs) xs ≡ xs
take_all [] = refl
take_all (x ∷ xs) = ap (◌∷◌ x) (take_all xs)

length-records : (p : MigrationPlan) → length (records p) ≡ length p
length-records [] = refl
length-records (m ∷ ms) = ap suc (length-records ms)

-- Under a digest without collisions, two declarations that both accept one history as complete are
-- prepared into the same plan: same names, same order, same bodies.
pub complete_history_determines_plan :
    (digest : Digest)
    → ((s t : Text) → digest s ≡ digest t → s ≡ t)
    → (items others : List (Item × Item)) (p q : MigrationPlan) (history : List MigrationRecord)
    → prepare_migrations digest (dict items) ≡ ok p
    → prepare_migrations digest (dict others) ≡ ok q
    → validate_history_prefix history p true 0 ≡ ok tt
    → validate_history_prefix history q true 0 ≡ ok tt
    → p ≡ q
complete_history_determines_plan digest inj items others p q history ep eq hp hq =
    same_records digest inj 1 items others p q ((prepare_migrations_iff digest items p).0 ep)
      ((prepare_migrations_iff digest others q).0 eq)
      (sym (complete p (prepare_migrations-InOrder digest items p ep) hp)
        ∙ complete q (prepare_migrations-InOrder digest others q eq) hq)
  where
    complete :
        (r : MigrationPlan)
        → InOrder 1 r
        → validate_history_prefix history r true 0 ≡ ok tt
        → history ≡ records r
    complete r o h =
        let (l, e, m) = (validate_history_prefix_iff history r true 0 o).0 h in
        let full : length history ≡ length r = omega arith in
        e ∙ ap (λ n. records (take n r)) full ∙ ap records (take_all r)
