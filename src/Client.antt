-- ===== src/Client.antt =====
-- client/src/client.rs: the calls of a client. A handler that ends in a panic or an error closes the
-- connection, and the `unwrap` of the client's request panics.
pub mod Spec
pub mod View
pub mod Calls
pub mod Commands
pub mod Reads
pub mod Session
pub mod Flood
pub mod Plain
pub mod Bench
pub mod Known
pub mod Answers
pub mod Numbered
pub mod Lengths
pub mod Check
pub mod Passes
pub mod Expected
pub mod Ranked
pub mod CheckSets
pub mod PassesSets
pub mod Scored
pub mod Removals
use hcache.Base.{ℕ, Option, none, some, List, [], ◌∷◌, ◌++◌, Text, codes, ◌==◌, if◌then◌else◌}
use hcache.Base.Run.{Run, ok, fault, panicked, ◌>>=◌}
use hcache.Dto.{InsrtRequest, ScoreValue}
use hcache.External.Cuckoo.{Cuckoo}
use hcache.External.Rocks.{Rocks}
use hcache.External.Hasher.{Hasher}
use hcache.External.Serde.{Serde}
use hcache.External.Uri.{Site}
use hcache.Std.Walk.{Walk}
use hcache.Cluster.{Net, World}
use hcache.Http.{Method, Response, unwrap}
use hcache.Router.{hyper_handler}

-- `/name/key`
unfoldable pub keyed : Text → Text → Text
keyed name key = 0x2f ∷ name ++ 0x2f ∷ key

-- What a node does for /init and /updateCluster.
pub record Startup ⦃c : Cuckoo⦄ ⦃r : Rocks⦄ : Type 0 where
  pub on_init : World → Run (Response × World)
  pub on_update : Option Text → World → Run (Response × World)

module _ ⦃c : Cuckoo⦄ ⦃r : Rocks⦄ ⦃h : Hasher⦄ ⦃s : Serde⦄ ⦃walk : Walk⦄ where
  unfoldable pub closed : Run (Response × World) → Run (Response × World)
  closed (ok (resp, w)) = ok (resp, w)
  closed (fault e) = fault panicked

  -- `StatusCode::OK => Some(value), _ => None`
  unfoldable pub value_of : Response × World → Run (Option Text × World)
  value_of (resp, w) = ok (if resp.status == 200 then some resp.body else none, w)

  -- `StatusCode::OK => Ok(()), _ => Err(())`
  unfoldable pub done_of : Response × World → Run (Option (Unit {0}) × World)
  done_of (resp, w) = ok (if resp.status == 200 then some tt else none, w)

  unfoldable pub entries_of : Response × World → Run (Option (List InsrtRequest) × World)
  entries_of (resp, w) = ok (if resp.status == 200 then s.read_batch resp.body else none, w)

  unfoldable pub items_of : Response × World → Run (Option (List ScoreValue) × World)
  items_of (resp, w) =
      if resp.status == 200
      then (unwrap (s.read_scores resp.body) >>= λ items. ok (some items, w))
      else ok (none, w)

  module _ (site : Site) (net : Net) (startup : Startup) (node : ℕ) where
    -- `CLIENT.get(uri.parse().unwrap())`, or `CLIENT.request` of what `Request::builder` made
    unfoldable pub request : Method → Text → Text → World → Run (Response × World)
    unfolding closed
    request method uri body w = unwrap (site.path_of uri) >>= λ path. closed (
        hyper_handler net node startup.on_init startup.on_update
          (record { method = method; path = path; body = some body }) w)

    unfoldable pub query : Text → World → Run (Option Text × World)
    unfolding request value_of
    query key w = request Method.get (site.host ++ keyed (codes "query") key) [] w >>= value_of

    unfoldable pub del : Text → World → Run (Option (Unit {0}) × World)
    unfolding request done_of
    del key w = request Method.get (site.host ++ keyed (codes "del") key) [] w >>= done_of

    unfoldable pub add : Text → Text → World → Run (Option (Unit {0}) × World)
    unfolding request done_of
    add key value w =
        request Method.post (site.host ++ codes "/add")
          (s.write_insrt (record { key = key; value = value })) w
        >>= done_of

    unfoldable pub batch : List InsrtRequest → World → Run (Option (Unit {0}) × World)
    unfolding request done_of
    batch kvs w =
        request Method.post (site.host ++ codes "/batch") (s.write_entries kvs) w >>= done_of

    unfoldable pub list : List Text → World → Run (Option (List InsrtRequest) × World)
    unfolding request entries_of
    list keys w =
        request Method.post (site.host ++ codes "/list") (s.write_keys keys) w >>= entries_of

    unfoldable pub zadd : Text → ℕ → Text → World → Run (Option (Unit {0}) × World)
    unfolding request done_of
    zadd key score value w =
        request Method.post (site.host ++ keyed (codes "zadd") key)
          (s.write_score_value (record { score = score; value = value })) w
        >>= done_of

    unfoldable pub zrange : Text → ℕ → ℕ → World → Run (Option (List ScoreValue) × World)
    unfolding request items_of
    zrange key min_score max_score w =
        request Method.post (site.host ++ keyed (codes "zrange") key)
          (s.write_score_range (record { min_score = min_score; max_score = max_score })) w
        >>= items_of

    unfoldable pub zrmv : Text → Text → World → Run (Option (Unit {0}) × World)
    unfolding request done_of
    zrmv key value w =
        request Method.get (site.host ++ keyed (codes "zrmv") (key ++ 0x2f ∷ value)) [] w
        >>= done_of
