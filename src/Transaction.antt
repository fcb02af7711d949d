-- ===== src/Transaction.antt =====
-- `async with session_factory.begin() as session`: the body works on the database that it sees, and
-- what it wrote is kept if it returns and rolled back if it raises.
use muti_agent.Prelude.{◌≡◌, refl}
use muti_agent.Result.{Result, ok, err}

module _ {S E A : Type 0} where
  -- The database after the block, from the one before it and what the body did.
  abbrev pub close : S → S × Result E A → S × Result E A
  close before (after, ok a) = (after, ok a)
  close before (after, err e) = (before, err e)

  abbrev pub begin : (S → S × Result E A) → S → S × Result E A
  begin body db = close db (body db)

  pub close-err :
      (before : S) (done : S × Result E A) (e : E)
      → (close before done).1 ≡ err e
      → (close before done).0 ≡ before
  close-err before (after, ok a) e h = cc
  close-err before (after, err raised) e h = refl
