-- ===== src/Router.antt =====
-- rust/src/hcache.rs, `hyper_handler`: which handler a request goes to.
pub mod Paths
use hcache.Base.{ℕ, Option, none, some, List, Text, text_discrete, ite, codes, get_elem?}
use hcache.Base.Run.{Run, ok, fault, panicked, ◌>>=◌}
use hcache.External.Cuckoo.{Cuckoo}
use hcache.External.Rocks.{Rocks}
use hcache.External.Hasher.{Hasher}
use hcache.External.Serde.{Serde}
use hcache.Std.Split.{splitn}
use hcache.Std.Walk.{Walk}
use hcache.Cluster.{Net, World}
use hcache.Handlers.{
  handle_query, handle_del, handle_add, handle_zadd, handle_zrange, handle_zrmv, handle_batch,
  handle_list,
}
use hcache.Http.{Method, Request, Response, success, not_found}

-- What a request asks for. `greeting` is a GET of anything else, which is answered with "ok";
-- `unknown` is a POST of anything else, and `unsupported` any other method.
pub data Route : Type 0 where
  query del : Text → Route
  zrmv : Text → Text → Route
  init greeting add batch list : Route
  zadd zrange : Text → Route
  update_cluster unknown unsupported : Route

-- `path[i]`
unfoldable pub part : List Text → ℕ → Run Text
part path i = elim (get_elem? path i) [ none ↦ fault panicked | some t ↦ ok t ]

unfoldable pub get_route : List Text → Run Route
unfolding part
get_route path = part path 1 >>= λ name.
    ite (text_discrete name (codes "query")) (part path 2 >>= λ key. ok (query key)) (
      ite (text_discrete name (codes "del")) (part path 2 >>= λ key. ok (del key)) (
        ite (text_discrete name (codes "zrmv"))
          (part path 2 >>= λ key. part path 3 >>= λ value. ok (zrmv key value))
          (ite (text_discrete name (codes "init")) (ok init) (ok greeting))))

unfoldable pub post_route : List Text → Run Route
unfolding part
post_route path = part path 1 >>= λ name. ite (text_discrete name (codes "add")) (ok add) (
    ite (text_discrete name (codes "batch")) (ok batch) (
      ite (text_discrete name (codes "list")) (ok list) (
        ite (text_discrete name (codes "zadd")) (part path 2 >>= λ key. ok (zadd key)) (
          ite (text_discrete name (codes "zrange")) (part path 2 >>= λ key. ok (zrange key))
            (ite (text_discrete name (codes "updateCluster")) (ok update_cluster) (ok unknown))))))

-- `path().splitn(4, "/")` of a GET, `splitn(3, "/")` of a POST
unfoldable pub route : Method → Text → Run Route
unfolding get_route post_route
route Method.get path = get_route (splitn 4 0x2f path)
route Method.post path = post_route (splitn 3 0x2f path)
route Method.other path = ok unsupported

-- The requests that work on the cluster's data. /init and /updateCluster are in the module `Init`.
module _ ⦃c : Cuckoo⦄ ⦃r : Rocks⦄ ⦃h : Hasher⦄ ⦃s : Serde⦄ ⦃walk : Walk⦄ (net : Net)
    (node : ℕ) where
  unfoldable pub dispatch :
      (World → Run (Response × World))
      → (Option Text → World → Run (Response × World))
      → Route
      → Option Text
      → World
      → Run (Response × World)
  dispatch on_init on_update (query key) body w = handle_query net node key w
  dispatch on_init on_update (del key) body w = handle_del net node key w
  dispatch on_init on_update (zrmv key value) body w = handle_zrmv net node key value w
  dispatch on_init on_update init body w = on_init w
  dispatch on_init on_update greeting body w = ok (success (codes "ok"), w)
  dispatch on_init on_update add body w = handle_add net node body w
  dispatch on_init on_update batch body w = handle_batch net node body w
  dispatch on_init on_update list body w = handle_list net node body w
  dispatch on_init on_update (zadd key) body w = handle_zadd net node key body w
  dispatch on_init on_update (zrange key) body w = handle_zrange net node key body w
  dispatch on_init on_update update_cluster body w = on_update body w
  dispatch on_init on_update unknown body w = ok (not_found, w)
  dispatch on_init on_update unsupported body w =
      ok (record { status = 404; body = codes "404 not found" }, w)

  -- `hyper_handler`, over what it does for /init and /updateCluster
  unfoldable pub hyper_handler :
      (World → Run (Response × World))
      → (Option Text → World → Run (Response × World))
      → Request
      → World
      → Run (Response × World)
  unfolding route dispatch
  hyper_handler on_init on_update req w =
      route req.method req.path >>= λ where_to. dispatch on_init on_update where_to req.body w
