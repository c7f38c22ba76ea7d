-- ===== src/Client/Bench/Names.antt =====
-- The keys and values of the benchmarks of client/src/client.rs: each its own, and fit for a path.
use hcache.Base.{ℕ, ◌≤◌, ◌<◌, ◌^◌, ◌≡◌, arith, true, ◌∷◌, ◌++◌, Text, codes, length, length-append}
use hcache.External.Uri.{Fits, all_plain}
use hcache.Std.Decimal.{decimal}
use hcache.Std.Repeat.{length-repeat, repeat-inj, repeat-Lacks}
use hcache.Std.Split.{Lacks}
use hcache.Client.{keyed}
use hcache.Client.Check.{key_of}
use hcache.Client.Numbered.{key_of-inj}
use hcache.Client.Plain.{
  all_plain-append, decimal-plain, decimal-Lacks, repeat-plain, length-decimal-u32,
}
use hcache.Client.Bench.{long_key, long_zset, long_value}

pub long_key-inj : (i j : ℕ) → long_key i ≡ long_key j → i ≡ j
unfolding long_key
long_key-inj i j e = key_of-inj i j (repeat-inj (key_of i) (key_of j) e)

pub long_key-Lacks : (i : ℕ) → Lacks 0x2f (long_key i)
unfolding long_key key_of
long_key-Lacks i =
    repeat-Lacks 0x2f 16 (key_of i) (omega arith, (omega arith, (omega arith, decimal-Lacks i)))

pub long_zset-Lacks : (i : ℕ) → Lacks 0x2f (long_zset i)
unfolding long_zset
long_zset-Lacks i =
    repeat-Lacks 0x2f 16 (codes "zset" ++ decimal i)
      (omega arith, (omega arith, (omega arith, (omega arith, decimal-Lacks i))))

long_key-plain : (i : ℕ) → all_plain (long_key i) ≡ true
unfolding long_key key_of all_plain
long_key-plain i = repeat-plain 16 (key_of i) (decimal-plain i)

long_zset-plain : (i : ℕ) → all_plain (long_zset i) ≡ true
unfolding long_zset all_plain
long_zset-plain i = repeat-plain 16 (codes "zset" ++ decimal i) (decimal-plain i)

long_value-plain : (i : ℕ) → all_plain (long_value i) ≡ true
unfolding long_value
long_value-plain i = repeat-plain 32 (decimal i) (decimal-plain i)

length-long_key : (i : ℕ) → i < 2 ^ 32 → length (long_key i) ≤ 208
unfolding long_key key_of
length-long_key i lt = omega (arith, length-repeat 16 (key_of i), length-decimal-u32 i lt)

length-long_zset : (i : ℕ) → i < 2 ^ 32 → length (long_zset i) ≤ 224
unfolding long_zset
length-long_zset i lt =
    omega (arith, length-repeat 16 (codes "zset" ++ decimal i), length-decimal-u32 i lt)

length-long_value : (i : ℕ) → i < 2 ^ 32 → length (long_value i) ≤ 320
unfolding long_value
length-long_value i lt = omega (arith, length-repeat 32 (decimal i), length-decimal-u32 i lt)

Fits-below :
    (host t : Text) → all_plain t ≡ true → length t ≤ 600 → length host ≤ 64000 → Fits host t
Fits-below host t plain short low = record {
  plain = plain;
  short = omega (arith, length-append host t, short, low);
}

module _ (host : Text) (low : length host ≤ 64000) (i : ℕ) (lt : i < 2 ^ 32) where
  pub Fits-query : Fits host (keyed (codes "query") (long_key i))
  unfolding keyed all_plain
  Fits-query =
      Fits-below host (keyed (codes "query") (long_key i)) (long_key-plain i)
        (omega (arith, length-long_key i lt)) low

  pub Fits-del : Fits host (keyed (codes "del") (long_key i))
  unfolding keyed all_plain
  Fits-del =
      Fits-below host (keyed (codes "del") (long_key i)) (long_key-plain i)
        (omega (arith, length-long_key i lt)) low

  pub Fits-del_set : Fits host (keyed (codes "del") (long_zset i))
  unfolding keyed all_plain
  Fits-del_set =
      Fits-below host (keyed (codes "del") (long_zset i)) (long_zset-plain i)
        (omega (arith, length-long_zset i lt)) low

  pub Fits-zadd : Fits host (keyed (codes "zadd") (long_zset i))
  unfolding keyed all_plain
  Fits-zadd =
      Fits-below host (keyed (codes "zadd") (long_zset i)) (long_zset-plain i)
        (omega (arith, length-long_zset i lt)) low

  pub Fits-zrange : Fits host (keyed (codes "zrange") (long_zset i))
  unfolding keyed all_plain
  Fits-zrange =
      Fits-below host (keyed (codes "zrange") (long_zset i)) (long_zset-plain i)
        (omega (arith, length-long_zset i lt)) low

  pub Fits-zrmv : Fits host (keyed (codes "zrmv") (long_zset i ++ 0x2f ∷ long_value i))
  unfolding keyed all_plain
  Fits-zrmv =
      Fits-below host (keyed (codes "zrmv") (long_zset i ++ 0x2f ∷ long_value i))
        (all_plain-append (long_zset i) (0x2f ∷ long_value i) (long_zset-plain i)
          (long_value-plain i))
        (omega (
          arith,
          length-append (long_zset i) (0x2f ∷ long_value i),
          length-long_zset i lt,
          length-long_value i lt,
        ))
        low
