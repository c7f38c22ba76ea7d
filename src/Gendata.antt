-- ===== src/Gendata.antt =====
-- rust/src/gendata.rs: `main` fills a database with entries whose value is their key.
use hcache.Base.{
  ℕ, zero, suc, ◌+◌, ◌≤◌, ◌<◌, ◌≡◌, ◌≢◌, refl, ◌∙◌, ite, some, ◌∷◌, ◌++◌, arith, Text,
  text_discrete, ℕ_discrete, if◌then◌else◌,
}
use hcache.Base.Run.{Run, ok, fault, panicked}
use hcache.External.Rocks.{Rocks, IsReliable}
use hcache.Std.Decimal.{decimal}
use mathlib.Core.Path.{subst}

-- `format!("{}-{}", prefix, i)`
unfoldable pub numbered : Text → ℕ → Text
numbered prefix i = prefix ++ 0x2d ∷ decimal i

module _ ⦃r : Rocks⦄ where
  -- `put_opt(…).unwrap()`
  put_or_panic : r.Db → Text → Text → Run r.Db
  put_or_panic db key value =
      let (done, db') = r.put_opt db key value in if done then ok db' else fault panicked

  -- the loop of `main`, from `i` on
  unfoldable pub put_each : Text → ℕ → ℕ → r.Db → Run r.Db
  unfolding put_or_panic numbered
  put_each prefix i zero db = ok db
  put_each prefix i (suc left) db = elim (put_or_panic db (numbered prefix i) (numbered prefix i)) [
    | ok db' ↦ put_each prefix (suc i) left db'
    | fault e ↦ fault e
  ]

  -- the database that `main` leaves; the source puts 30000000 entries
  unfoldable pub main : Text → ℕ → r.Db → Run r.Db
  unfolding put_each
  main prefix count db = put_each prefix 0 count db

  put_once :
      IsReliable
      → (prefix : Text) (i left : ℕ) (db : r.Db)
      → put_each prefix i (suc left) db
        ≡ put_each prefix (suc i) left (r.put_opt db (numbered prefix i) (numbered prefix i)).1
  unfolding put_each put_or_panic
  put_once reliable prefix i left db =
      rw (put_each, put_or_panic, reliable.puts db (numbered prefix i) (numbered prefix i)) refl

  -- Each entry is there, and the keys that are none of them are as before.
  record Filled (prefix : Text) (i left : ℕ) (db db' : r.Db) : Type 0 where
    pub there :
        (j : ℕ) → i ≤ j → j < i + left → r.get db' (numbered prefix j) ≡ some (numbered prefix j)
    pub others : (k : Text) → ((j : ℕ) → numbered prefix j ≢ k) → r.get db' k ≡ r.get db k
    pub kept : (k : Text) → r.get db k ≡ some k → r.get db' k ≡ some k

  put_each-Filled :
      IsReliable
      → (prefix : Text) (i left : ℕ) (db : r.Db)
      → (db' : r.Db) × (put_each prefix i left db ≡ ok db') × Filled prefix i left db db'
  unfolding put_each
  put_each-Filled reliable prefix i zero db = (
    db,
    refl,
    record {
      there = λ j lo hi. absurd (omega (arith, lo, hi));
      others = λ k ne. refl;
      kept = λ k e. e;
    },
  )
  put_each-Filled reliable prefix i (suc left) db =
      let name = numbered prefix i in
      let db₁ = (r.put_opt db name name).1 in
      let (db', run, filled) = put_each-Filled reliable prefix (suc i) left db₁ in
      let one : (k : Text) → r.get db₁ k ≡ ite (text_discrete name k) (some name) (r.get db k) =
        λ k. r.get-put_opt db name k name (reliable.puts db name name) in
      (
        db',
        put_once reliable prefix i left db ∙ run,
        record {
          there = λ j lo hi. elim (ℕ_discrete i j) [
            | yes p ↦ filled.kept (numbered prefix j) (
                subst (λ x. r.get db₁ (numbered prefix x) ≡ some (numbered prefix x)) p
                  (ground (arith, one name)))
            | no p ↦ filled.there j (omega (arith, lo, p)) (omega (arith, hi))
          ];
          others = λ k ne. filled.others k ne ∙ ground (arith, one k, ne i);
          kept = λ k e. filled.kept k (elim (text_discrete name k) [
            | yes p ↦ ground (arith, one k)
            | no p ↦ ground (arith, one k)
          ]);
        },
      )

  -- On a device where no write fails, the generator ends without a panic, for any prefix and any
  -- count of entries; every entry below the count is in the database with its key for its value,
  -- and a key that no number makes is as it was.
  pub main-reads :
      IsReliable
      → (prefix : Text) (count : ℕ) (db : r.Db) (j : ℕ) (k : Text) → j < count
      → ((i : ℕ) → numbered prefix i ≢ k)
      → (db' : r.Db) × (main prefix count db ≡ ok db')
        × (r.get db' (numbered prefix j) ≡ some (numbered prefix j))
        × (r.get db' k ≡ r.get db k)
  unfolding main
  main-reads reliable prefix count db j k lt ne =
      let (db', run, filled) = put_each-Filled reliable prefix 0 count db in
      (db', run, filled.there j (omega arith) (omega (arith, lt)), filled.others k ne)
