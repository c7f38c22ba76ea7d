-- ===== src/Router/Paths.antt =====
-- `hyper_handler` (rust/src/hcache.rs): which key a path names.
use hcache.Base.{ℕ, suc, ◌≡◌, refl, arith, [], ◌∷◌, ◌++◌, Text, text_discrete, codes, ℕ_discrete}
use hcache.Base.Run.{ok}
use mathlib.Core.List.{append_assoc}
use hcache.Std.Split.{split_once, splitn, splitn-append, splitn-Lacks, Lacks}
use hcache.Http.{Method}
use hcache.Router
use hcache.Router.{route}

-- `/name/rest`
abbrev pub path_of : Text → Text → Text
path_of name rest = 0x2f ∷ name ++ 0x2f ∷ rest

splitn-path_of :
    (n : ℕ) (name rest : Text)
    → Lacks 0x2f name
    → splitn (suc (suc (suc n))) 0x2f (path_of name rest) ≡ [] ∷ name ∷ splitn (suc n) 0x2f rest
splitn-path_of n name rest plain =
    rw
      (splitn-append 0x2f [] tt (suc n) (name ++ 0x2f ∷ rest), splitn-append 0x2f name plain n rest)
      refl

-- A GET of /query/key names the key if it has no slash.
pub route-query :
    (key : Text)
    → Lacks 0x2f key
    → route Method.get (path_of (codes "query") key) ≡ ok (Router.query key)
unfolding route text_discrete
route-query key plain =
    rw (splitn-path_of 1 (codes "query") key (omega arith), splitn-Lacks 0x2f key plain 1) refl

pub route-del :
    (key : Text)
    → Lacks 0x2f key
    → route Method.get (path_of (codes "del") key) ≡ ok (Router.del key)
unfolding route text_discrete
route-del key plain =
    rw (splitn-path_of 1 (codes "del") key (omega arith), splitn-Lacks 0x2f key plain 1) refl

pub route-zrange :
    (key : Text) → route Method.post (path_of (codes "zrange") key) ≡ ok (Router.zrange key)
unfolding route text_discrete splitn
route-zrange key = rw (splitn-path_of 0 (codes "zrange") key (omega arith)) refl

pub route-add : route Method.post (codes "/add") ≡ ok Router.add
unfolding route text_discrete splitn split_once ℕ_discrete
route-add = refl

pub route-batch : route Method.post (codes "/batch") ≡ ok Router.batch
unfolding route text_discrete splitn split_once ℕ_discrete
route-batch = refl

pub route-list : route Method.post (codes "/list") ≡ ok Router.list
unfolding route text_discrete splitn split_once ℕ_discrete
route-list = refl

pub route-zadd :
    (key : Text) → route Method.post (path_of (codes "zadd") key) ≡ ok (Router.zadd key)
unfolding route text_discrete splitn
route-zadd key = rw (splitn-path_of 0 (codes "zadd") key (omega arith)) refl

-- A GET of /zrmv/key/value names the key and the value if the key has no slash; the value may have
-- some.
pub route-zrmv :
    (key value : Text)
    → Lacks 0x2f key
    → route Method.get (path_of (codes "zrmv") (key ++ 0x2f ∷ value)) ≡ ok (Router.zrmv key value)
unfolding route text_discrete splitn
route-zrmv key value plain =
    rw
      (
        splitn-path_of 1 (codes "zrmv") (key ++ 0x2f ∷ value) (omega arith),
        splitn-append 0x2f key plain 0 value,
      )
      refl

-- If the first part of a key has no slash, a POST of /zadd names the whole key `a/b`, and a GET of
-- /zrmv that spells the same key and a value names the key `a` and another value.
pub slash_mismatch :
    (a b value : Text)
    → Lacks 0x2f a
    → (route Method.post (path_of (codes "zadd") (a ++ 0x2f ∷ b))
        ≡ ok (Router.zadd (a ++ 0x2f ∷ b)))
      × (route Method.get (path_of (codes "zrmv") ((a ++ 0x2f ∷ b) ++ 0x2f ∷ value))
          ≡ ok (Router.zrmv a (b ++ 0x2f ∷ value)))
slash_mismatch a b value plain = (
  route-zadd (a ++ 0x2f ∷ b),
  rw (append_assoc a (0x2f ∷ b) (0x2f ∷ value)) (route-zrmv a (b ++ 0x2f ∷ value) plain),
)
