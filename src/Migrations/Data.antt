-- ===== src/Migrations/Data.antt =====
-- A declaration of two migrations. Texts are code points; the digest that stands for SHA-256 here is
-- the identity, which has no collisions.
use snekql.Prelude.{List, [], ◌∷◌}
use snekql.Migrations.{Digest, Item, str, MigrationPlan, MigrationRecord}

abbrev pub plain : Digest
plain s = s

abbrev pub items : List (Item × Item)
items = (str (b'a' ∷ []), str (b'X' ∷ [])) ∷ (str (b'b' ∷ []), str (b'Y' ∷ [])) ∷ []

abbrev pub plan : MigrationPlan
plan =
    record { position = 1; name = b'a' ∷ []; checksum = b'X' ∷ []; sql = b'X' ∷ [] }
    ∷ record { position = 2; name = b'b' ∷ []; checksum = b'Y' ∷ []; sql = b'Y' ∷ [] }
    ∷ []

abbrev pub one_row : List MigrationRecord
one_row = record { position = 1; name = b'a' ∷ []; checksum = b'X' ∷ [] } ∷ []
