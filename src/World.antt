-- ===== src/World.antt =====
-- The tables together with all else that the services reach over the network: another system, of a
-- state `W`, whose calls may raise at any time.
use sd_platform.Common.{◌≡◌, Result, ok, err}
use sd_platform.Common.Actions.{Exec}
use sd_platform.Db.{Db}

pub record World (W : Type 0) : Type 0 where
  pub db : Db
  pub outside : W

module _ {W : Type 0} where
  abbrev pub world_of {ℓ} : {A : Type ℓ} → Db → Result A × W → Result A × World W
  world_of db (r, w) = (r, record { db = db; outside = w })

  world_of_ok :
      {A : Type 0} (db : Db) (r : Result A × W) (a : A) (t : World W)
      → world_of db r ≡ (ok a, t)
      → (r ≡ (ok a, t.outside)) × (t.db ≡ db)
  world_of_ok db (ok b, w) a t e = (cc, cc)
  world_of_ok db (err x, w) a t e = cc

  -- a call of the other system
  abbrev pub outside {ℓ} : {A : Type ℓ} → (W → Result A × W) → World W → Result A × World W
  outside m s = world_of s.db (m s.outside)

  abbrev pub committed {ℓ} : {A : Type ℓ} → World W → Result (A × Db) → Result A × World W
  committed s (ok (a, db)) = (ok a, record s { db = db })
  committed s (err e) = (err e, s)

  -- a transaction on the tables: it commits with a result, and rolls back with an exception
  abbrev pub on_tables : {A : Type 0} → (Db → Result (A × Db)) → Exec (World W) A
  on_tables t s = committed s (t s.db)

  -- What a call of the other system that gives a value leaves.
  pub outside_ok :
      {A : Type 0} (m : W → Result A × W) (s : World W) (a : A) (t : World W)
      → outside m s ≡ (ok a, t)
      → (m s.outside ≡ (ok a, t.outside)) × (t.db ≡ s.db)
  outside_ok m s a t e = world_of_ok s.db (m s.outside) a t e
