-- ===== src/Chunks/Examples.antt =====
-- Three rows in chunks of two.
use snekql.Prelude.{
  ℕ, zero, suc, ◌≡◌, refl, ◌≤◌, true, false, none, some, List, [], ◌∷◌, length, take, drop,
  take-append-drop, All, arith, err,
}
use snekql.Chunks.{
  stop_iteration, not_open, not_locked, enter, exit, next, new_stream, materialize, consume,
}
use snekql.Chunks.Whole.{Fetches, join, consume_whole}
use snekql.Chunks.Ownership.{Try, try_all, refusal, closing_result, owner_only}

abbrev fetch_rows : ℕ → List ℕ → List ℕ × List ℕ
fetch_rows n rows = (take n rows, drop n rows)

length-take : (n : ℕ) (rows : List ℕ) → length (take n rows) ≤ n
length-take zero rows = omega arith
length-take (suc n) [] = omega arith
length-take (suc n) (x ∷ xs) = omega (arith, length-take n xs)

fetch_rows-moves : (rows : List ℕ) → take 2 rows ≡ [] → rows ≡ []
fetch_rows-moves [] h = refl
fetch_rows-moves (x ∷ xs) h = cc

fetch_rows-Fetches : Fetches fetch_rows 2
fetch_rows-Fetches = record {
  whole = λ rows. take-append-drop 2 rows;
  bounded = λ rows. length-take 2 rows;
  moves = fetch_rows-moves;
}

consume_whole_example :
    (chunks : List (List ℕ)) × (consume {Raw = ℕ} {Row = ℕ} some fetch_rows 2 4 7
        (enter 7 true true (some (1 ∷ 2 ∷ 3 ∷ [])) new_stream).1
      ≡ some (chunks, stop_iteration))
    × (join chunks ≡ 1 ∷ 2 ∷ 3 ∷ [])
    × All (λ c. (1 ≤ length c) × (length c ≤ 2)) chunks
unfolding materialize
consume_whole_example =
    consume_whole some fetch_rows 2 4 7 (1 ∷ 2 ∷ 3 ∷ []) (1 ∷ 2 ∷ 3 ∷ []) fetch_rows-Fetches refl
      (omega arith)

abbrev tries : List Try
tries =
    record { by = 7; nested_ok = true; fetches = true }
    ∷ record { by = 8; nested_ok = true; fetches = true }
    ∷ record { by = 7; nested_ok = true; fetches = false }
    ∷ []

owner_only_example :
    let s =
      try_all {Raw = ℕ} {Row = ℕ} some fetch_rows 2 tries
        (enter {Raw = ℕ} 7 true true (some (1 ∷ 2 ∷ 3 ∷ [])) new_stream).1 in
    let (r, u) = exit 7 true false s in
    (next {Raw = ℕ} {Row = ℕ} some fetch_rows 2 8 true true s ≡ (err (refusal true), s))
    × (exit 8 true false s ≡ (err (refusal true), s))
    × (r ≡ closing_result false)
    × (u.cursor ≡ none)
    × (u.stream_owner ≡ none)
    × (u.locked ≡ false)
    × ((next {Raw = ℕ} {Row = ℕ} some fetch_rows 2 7 true true u).0 ≡ err not_open)
    × ((exit 7 true false u).0 ≡ err not_locked)
owner_only_example =
    owner_only some fetch_rows 2 7 8 (1 ∷ 2 ∷ 3 ∷ []) tries true true false (λ h. ground arith)
