-- ===== src/Client/Calls.antt =====
-- client/src/client.rs: what each call of a client comes to, given what the handler does.
use hcache.Base.{ℕ, ◌≡◌, refl, Option, none, some, List, [], ◌∷◌, ◌++◌, Text, codes}
use hcache.Base.Run.{Run, ok, ◌>>=◌}
use hcache.Dto.{InsrtRequest, ScoreValue}
use hcache.External.Cuckoo.{Cuckoo}
use hcache.External.Rocks.{Rocks}
use hcache.External.Hasher.{Hasher}
use hcache.External.Serde.{Serde, AllSmall}
use hcache.External.Uri.{Site, Fits}
use hcache.Std.Walk.{Walk}
use hcache.Cluster.{Net, World}
use hcache.Http.{Method, Response, success}
use hcache.Router
use hcache.Router.{route, hyper_handler, dispatch}
use hcache.Router.Paths.{
  route-query, route-del, route-add, route-batch, route-list, route-zadd, route-zrange, route-zrmv,
}
use hcache.Handlers.{
  found, items_found, entries_found, handle_query, handle_del, handle_add, handle_batch,
  handle_list, handle_zadd, handle_zrange, handle_zrmv,
}
use hcache.Client
use hcache.Client.{Startup, keyed, request, closed, value_of, done_of, entries_of, items_of}
use hcache.Client.Spec.{Command, Allowed, nonempty}
use mathlib.Core.Path.{subst}

module _ ⦃c : Cuckoo⦄ ⦃r : Rocks⦄ ⦃h : Hasher⦄ ⦃s : Serde⦄ ⦃walk : Walk⦄ (site : Site) (net : Net)
    (startup : Startup) (node : ℕ) where
  -- what a call comes to, once its URI is read, its path is routed, its handler has run and its
  -- response is read
  request-reply :
      {A : Type 0} (method : Method) (path t body : Text) (where_to : Router.Route) (w w' : World)
      (resp : Response) (read : Response × World → Run (A × World)) (a : A)
      → path ≡ 0x2f ∷ t
      → Fits site.host path
      → route method (0x2f ∷ t) ≡ ok where_to
      → dispatch net node startup.on_init startup.on_update where_to (some body) w ≡ ok (resp, w')
      → read (resp, w') ≡ ok (a, w')
      → (request site net startup node method (site.host ++ path) body w >>= read) ≡ ok (a, w')
  unfolding request hyper_handler closed
  request-reply method path t body where_to w w' resp read a e fits routed runs reads =
      let fits' : Fits site.host (0x2f ∷ t) = subst (Fits site.host) e fits in
      rw (e, site.path_of-Fits t fits', hyper_handler, routed, runs) reads

  value_of-found : (x : Option Text) (w : World) → value_of (found x, w) ≡ ok (x, w)
  unfolding value_of
  value_of-found none w = refl
  value_of-found (some v) w = refl

  pub query-run :
      (key : Text) (x : Option Text) (w w' : World)
      → Allowed site.host (Command.query key)
      → handle_query net node key w ≡ ok (found x, w')
      → Client.query site net startup node key w ≡ ok (x, w')
  unfolding keyed Client.query dispatch
  query-run key x w w' (plain, fits) runs =
      request-reply Method.get (keyed (codes "query") key) (codes "query" ++ 0x2f ∷ key) []
        (Router.query key) w w' (found x) value_of x refl fits (route-query key plain) runs
        (value_of-found x w')

  pub del-run :
      (key : Text) (w w' : World)
      → Allowed site.host (Command.del key)
      → handle_del net node key w ≡ ok (success [], w')
      → Client.del site net startup node key w ≡ ok (some tt, w')
  unfolding keyed Client.del dispatch done_of
  del-run key w w' (plain, fits) runs =
      request-reply Method.get (keyed (codes "del") key) (codes "del" ++ 0x2f ∷ key) []
        (Router.del key) w w' (success []) done_of (some tt) refl fits (route-del key plain) runs
        refl

  pub add-run :
      (key value : Text) (w w' : World)
      → Allowed site.host (Command.add key value)
      → handle_add net node (some (s.write_insrt (record { key = key; value = value }))) w
        ≡ ok (success [], w')
      → Client.add site net startup node key value w ≡ ok (some tt, w')
  unfolding Client.add dispatch done_of
  add-run key value w w' fits runs =
      request-reply Method.post (codes "/add") (codes "add")
        (s.write_insrt (record { key = key; value = value })) Router.add w w' (success []) done_of
        (some tt) refl fits route-add runs refl

  pub batch-run :
      (kvs : List InsrtRequest) (w w' : World)
      → Allowed site.host (Command.batch kvs)
      → handle_batch net node (some (s.write_entries kvs)) w ≡ ok (success [], w')
      → Client.batch site net startup node kvs w ≡ ok (some tt, w')
  unfolding Client.batch dispatch done_of
  batch-run kvs w w' fits runs =
      request-reply Method.post (codes "/batch") (codes "batch") (s.write_entries kvs) Router.batch
        w w' (success []) done_of (some tt) refl fits route-batch runs refl

  entries_of-entries_found :
      (entries : List InsrtRequest) (w : World)
      → entries_of (entries_found net node entries, w) ≡ ok (nonempty entries, w)
  unfolding entries_of entries_found
  entries_of-entries_found [] w = refl
  entries_of-entries_found (entry ∷ entries) w = rw (s.read-write_entries (entry ∷ entries)) refl

  pub list-run :
      (keys : List Text) (entries : List InsrtRequest) (w w' : World)
      → Allowed site.host (Command.list keys)
      → handle_list net node (some (s.write_keys keys)) w ≡ ok (entries_found net node entries, w')
      → Client.list site net startup node keys w ≡ ok (nonempty entries, w')
  unfolding Client.list dispatch
  list-run keys entries w w' fits runs =
      request-reply Method.post (codes "/list") (codes "list") (s.write_keys keys) Router.list w w'
        (entries_found net node entries) entries_of (nonempty entries) refl fits route-list runs
        (entries_of-entries_found entries w')

  pub zadd-run :
      (key : Text) (score : ℕ) (value : Text) (w w' : World)
      → Allowed site.host (Command.zadd key score value)
      → handle_zadd net node key
          (some (s.write_score_value (record { score = score; value = value })))
          w
        ≡ ok (success [], w')
      → Client.zadd site net startup node key score value w ≡ ok (some tt, w')
  unfolding keyed Client.zadd dispatch done_of
  zadd-run key score value w w' (small, fits) runs =
      request-reply Method.post (keyed (codes "zadd") key) (codes "zadd" ++ 0x2f ∷ key)
        (s.write_score_value (record { score = score; value = value })) (Router.zadd key) w w'
        (success []) done_of (some tt) refl fits (route-zadd key) runs refl

  pub items_of-found :
      (items : List ScoreValue) (w : World)
      → AllSmall items
      → items_of (items_found (some items), w) ≡ ok (some items, w)
  unfolding items_of items_found
  items_of-found items w small = rw (s.read-write_scores items small) refl

  pub items_of-none : (w : World) → items_of (items_found none, w) ≡ ok (none, w)
  unfolding items_of items_found
  items_of-none w = refl

  pub zrange-run :
      (key : Text) (lo hi : ℕ) (items : Option (List ScoreValue)) (w w' : World)
      → Allowed site.host (Command.zrange key lo hi)
      → handle_zrange net node key
          (some (s.write_score_range (record { min_score = lo; max_score = hi })))
          w
        ≡ ok (items_found items, w')
      → items_of (items_found items, w') ≡ ok (items, w')
      → Client.zrange site net startup node key lo hi w ≡ ok (items, w')
  unfolding keyed Client.zrange dispatch
  zrange-run key lo hi items w w' (le, small, fits) runs reads =
      request-reply Method.post (keyed (codes "zrange") key) (codes "zrange" ++ 0x2f ∷ key)
        (s.write_score_range (record { min_score = lo; max_score = hi })) (Router.zrange key) w w'
        (items_found items) items_of items refl fits (route-zrange key) runs reads

  pub zrmv-run :
      (key value : Text) (w w' : World)
      → Allowed site.host (Command.zrmv key value)
      → handle_zrmv net node key value w ≡ ok (success [], w')
      → Client.zrmv site net startup node key value w ≡ ok (some tt, w')
  unfolding keyed Client.zrmv dispatch done_of
  zrmv-run key value w w' (plain, fits) runs =
      request-reply Method.get (keyed (codes "zrmv") (key ++ 0x2f ∷ value))
        (codes "zrmv" ++ 0x2f ∷ key ++ 0x2f ∷ value) [] (Router.zrmv key value) w w' (success [])
        done_of (some tt) refl fits (route-zrmv key value plain) runs refl
