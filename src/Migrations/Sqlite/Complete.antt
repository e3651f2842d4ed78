-- ===== src/Migrations/Sqlite/Complete.antt =====
-- What the read-only check reports.
use snekql.Prelude.{
  take, false, ◌↔◌, ℕ, ◌≤◌, ◌≡◌, refl, sym, ap, ◌∙◌, true, false, Option, List, [], ◌∷◌, ◌++◌, map,
  arith, length, take, drop, take-append-drop, subst, Result, ok, err,
}
use snekql.Migrations.{
  MigrationPlan, MigrationRecord, MigrationStatus, HistoryError, history_record, names,
  validate_history_prefix,
}
use snekql.Migrations.Prefix.{InOrder, records, validate_history_prefix_iff}
use snekql.Migrations.Sqlite.{
  History, absent, unknown, v1, v2, verify_sqlite_migrations, minimum_or_all,
}

names-append : (p q : MigrationPlan) → names (p ++ q) ≡ names p ++ names q
unfolding names
names-append [] q = refl
names-append (m ∷ p) q = ap (◌∷◌ m.name) (names-append p q)

names_of_records : (p : MigrationPlan) → map (λ (r : MigrationRecord). r.name) (records p) ≡ names p
unfolding names history_record
names_of_records [] = refl
names_of_records (m ∷ p) = ap (◌∷◌ m.name) (names_of_records p)

-- What a status says of a plan and of the history that was found, which is accepted: with no
-- history, nothing is applied and nothing is required; otherwise the rows are the records of the
-- first migrations of the plan, enough of them, and the names of the rows are applied. The names
-- that are pending complete those of the plan.
abbrev pub Reports : MigrationPlan → ℕ → History → MigrationStatus → Type 0
Reports plan minimum absent st =
    (minimum ≡ 0)
    × (st.applied ≡ [])
    × (st.history_present ≡ false)
    × (st.applied ++ st.pending ≡ names plan)
Reports plan minimum (v2 rows) st =
    (length rows ≤ length plan)
    × (rows ≡ records (take (length rows) plan))
    × (minimum ≤ length rows)
    × (st.applied ≡ map (λ (r : MigrationRecord). r.name) rows)
    × (st.history_present ≡ true)
    × (st.applied ++ st.pending ≡ names plan)
Reports plan minimum _ st = ⊥

reported : MigrationPlan → List MigrationRecord → MigrationStatus
reported plan rows = record {
  applied = map (λ (r : MigrationRecord). r.name) rows;
  history_present = true;
  pending = names (drop (length rows) plan);
}

append_cancel : {A : Type 0} (xs : List A) {ys zs : List A} → xs ++ ys ≡ xs ++ zs → ys ≡ zs
append_cancel [] h = h
append_cancel (x ∷ xs) h = append_cancel xs (cc)

-- The rows of an accepted history and the names left are those of the plan.
split_names :
    (plan : MigrationPlan) (rows : List MigrationRecord)
    → rows ≡ records (take (length rows) plan)
    → map (λ (r : MigrationRecord). r.name) rows ++ names (drop (length rows) plan) ≡ names plan
split_names plan rows prefix =
    ap (λ n. n ++ names (drop (length rows) plan))
      (ap (map (λ (r : MigrationRecord). r.name)) prefix
        ∙ names_of_records (take (length rows) plan))
    ∙ sym (names-append (take (length rows) plan) (drop (length rows) plan))
    ∙ ap names (take-append-drop (length rows) plan)

same_status :
    {a b : MigrationStatus}
    → a.applied ≡ b.applied
    → a.history_present ≡ b.history_present
    → a.pending ≡ b.pending
    → a ≡ b
same_status h k l = cc

-- For a plan in order, the check succeeds with a status exactly where that is what the history
-- calls for: applied are the names of the stored rows (none without a history), which are a
-- long enough beginning of the plan, pending the names of the rest of the plan in order, and the
-- history is said to be present where it is.
pub verify_sqlite_migrations-Reports :
    (plan : MigrationPlan) (minimum : Option ℕ) (h : History) (st : MigrationStatus)
    → InOrder 1 plan
    → (verify_sqlite_migrations plan true minimum h ≡ ok st)
      ↔ Reports plan (minimum_or_all plan minimum) h st
unfolding verify_sqlite_migrations reported
verify_sqlite_migrations-Reports plan minimum absent st o = (λ e. ground arith, λ e. ground arith)
verify_sqlite_migrations-Reports plan minimum unknown st o = (λ e. cc, λ e. absurd e)
verify_sqlite_migrations-Reports plan minimum (v1 l) st o = (λ e. cc, λ e. absurd e)
verify_sqlite_migrations-Reports plan minimum (v2 rows) st o = (to, from)
  where
    least : ℕ
    least = minimum_or_all plan minimum

    valid : (validate_history_prefix rows plan false least ≡ ok tt) ↔ (
        (length rows ≤ length plan)
        × (rows ≡ records (take (length rows) plan))
        × (least ≤ length rows))
    valid = validate_history_prefix_iff rows plan false least o

    to :
        verify_sqlite_migrations plan true minimum (v2 rows) ≡ ok st
        → Reports plan least (v2 rows) st
    to e = go (validate_history_prefix rows plan false least) refl
      where
        go :
            (r : Result HistoryError (Unit {0}))
            → validate_history_prefix rows plan false least ≡ r
            → Reports plan least (v2 rows) st
        go (err x) q = absurd (ground (arith, q))
        go (ok u) q =
            let (short, prefix, enough) = valid.0 q in
            subst (Reports plan least (v2 rows)) found
              (short, prefix, enough, refl, refl, split_names plan rows prefix)
          where
            found : reported plan rows ≡ st
            found = unfold reported in ground (arith, q, e)

    from :
        Reports plan least (v2 rows) st
        → verify_sqlite_migrations plan true minimum (v2 rows) ≡ ok st
    from (short, prefix, enough, applied, present, together) =
        rw (valid.1 (short, prefix, enough)) (
          ap ok (
            same_status (sym applied) (sym present) (
              append_cancel (map (λ (r : MigrationRecord). r.name) rows) (
                split_names plan rows prefix
                ∙ sym together
                ∙ ap (λ xs. xs ++ st.pending) applied))))
