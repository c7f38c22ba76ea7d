-- ===== src/Storage/ZsetKey.antt =====
-- `get_zset_key` and `decode_zset_key` (rust/src/storage.rs).
use hcache.Base.{◌≡◌, sym, ap, ◌∙◌, Option, some, arith, Text}
use hcache.Base.Run.{ok}
use hcache.Std.Split.{split_once, splitn, Lacks, split_once-append}
use hcache.Storage.{get_zset_key, decode_zset_key}

-- The key of a member on the disk is read back as the name of its set and its value, if the name
-- has no zero byte; the value may have some.
pub decode-get_zset_key : (k v : Text) → Lacks 0 k → decode_zset_key (get_zset_key k v) ≡ ok (k, v)
unfolding decode_zset_key get_zset_key splitn
decode-get_zset_key k v h = ground (arith, split_once-append 0 k v h)

-- Names with no zero byte do not collide.
pub get_zset_key_inj :
    (k v j u : Text)
    → Lacks 0 k
    → Lacks 0 j
    → get_zset_key k v ≡ get_zset_key j u
    → (k ≡ j) × (v ≡ u)
unfolding get_zset_key
get_zset_key_inj k v j u hk hj e =
    let same : ◌≡◌ {A = Text × Option Text} (k, some v) (j, some u) =
      sym (split_once-append 0 k v hk) ∙ ap (split_once 0) e ∙ split_once-append 0 j u hj in
    ground arith
