-- ===== src/Client/Known.antt =====
-- client/src/client.rs: the calls of a client through one node of a cluster whose cache is known.
use hcache.Base.{none, ℕ, ◌≤◌, ◌<◌, ◌^◌, ◌≡◌, sym, ap, ◌∙◌, some, List, Text}
use hcache.Base.Run.{ok}
use hcache.Dto.{InsrtRequest, ScoreValue}
use hcache.External.Cuckoo.{Cuckoo}
use hcache.External.Rocks.{Rocks}
use hcache.External.Hasher.{Hasher}
use hcache.External.Serde.{Serde}
use hcache.External.Uri.{Site}
use hcache.Std.Walk.{Walk}
use hcache.Cluster.{Net, World, delivered}
use hcache.Client
use hcache.Client.{Startup}
use hcache.Client.Spec.{
  Command, Reply, Cache, Answers, Allowed, next, got, answered, listing, ranking, nonempty, Scores,
}
use hcache.Client.View.{view, owns}
use hcache.Client.Commands.{ask, IsUp}
use hcache.Client.Reads.{IsSmall}
use hcache.Client.Session.{command-Serves, next-IsSmall}
use mathlib.Core.Path.{subst}
use hcache.Client.Answers.{
  called, done-answer, del-answer, batch-answer, query-answer, Lists, list-answer, zadd-answer,
  zrmv-answer, Ranks, zrange-answer, zrange-answer-none, ranking-inj, answered-inj, got-inj,
  listing-inj,
}

module _ ⦃c : Cuckoo⦄ ⦃r : Rocks⦄ ⦃h : Hasher⦄ ⦃s : Serde⦄ ⦃walk : Walk⦄ (site : Site) (net : Net)
    (startup : Startup) (n node : ℕ) (small : n ≤ 2 ^ 32) (member : node < n)
    (delivers : (i : ℕ) → net.delivery i ≡ delivered) where
  -- The cluster is up, and its cache is the one that is given.
  pub record Holds (a : Cache) (w : World) : Type 0 where
    pub up : IsUp net n w
    pub same : view n w ≡ a
    pub below : IsSmall a

  Holds-Serves :
      (a : Cache) (w : World) (cmd : Command)
      → Holds a w
      → Allowed site.host cmd
      → (reply : Reply) × (w' : World) × (ask site net startup node cmd w ≡ ok (reply, w'))
        × Answers a cmd reply
        × Holds (next (owns n node) cmd a) w'
  Holds-Serves a w cmd holds allowed =
      let (reply, w', run, answers, after, up) =
        command-Serves site net startup n small delivers node cmd w holds.up member
          (subst IsSmall (sym holds.same) holds.below) allowed in
      (
        reply,
        w',
        run,
        subst (λ x. Answers x cmd reply) holds.same answers,
        record {
          up = up;
          same = after ∙ ap (next (owns n node) cmd) holds.same;
          below = next-IsSmall (owns n node) site.host cmd a allowed holds.below;
        },
      )

  pub add-Holds :
      (a : Cache) (w : World) (key value : Text)
      → Holds a w
      → Allowed site.host (Command.add key value)
      → (w' : World) × (Client.add site net startup node key value w ≡ ok (some tt, w'))
        × Holds (next (owns n node) (Command.add key value) a) w'
  unfolding ask
  add-Holds a w key value holds allowed =
      let (reply, w', run, answers, after) =
        Holds-Serves a w (Command.add key value) holds allowed in
      (
        w',
        called (Client.add site net startup node key value w) answered reply (some tt) w'
            answered-inj run (done-answer a key value reply answers),
        after,
      )

  pub del-Holds :
      (a : Cache) (w : World) (key : Text)
      → Holds a w
      → Allowed site.host (Command.del key)
      → (w' : World) × (Client.del site net startup node key w ≡ ok (some tt, w'))
        × Holds (next (owns n node) (Command.del key) a) w'
  unfolding ask
  del-Holds a w key holds allowed =
      let (reply, w', run, answers, after) = Holds-Serves a w (Command.del key) holds allowed in
      (
        w',
        called (Client.del site net startup node key w) answered reply (some tt) w' answered-inj run
            (del-answer a key reply answers),
        after,
      )

  pub batch-Holds :
      (a : Cache) (w : World) (kvs : List InsrtRequest)
      → Holds a w
      → Allowed site.host (Command.batch kvs)
      → (w' : World) × (Client.batch site net startup node kvs w ≡ ok (some tt, w'))
        × Holds (next (owns n node) (Command.batch kvs) a) w'
  unfolding ask
  batch-Holds a w kvs holds allowed =
      let (reply, w', run, answers, after) = Holds-Serves a w (Command.batch kvs) holds allowed in
      (
        w',
        called (Client.batch site net startup node kvs w) answered reply (some tt) w' answered-inj
            run (batch-answer a kvs reply answers),
        after,
      )

  pub query-Holds :
      (a : Cache) (w : World) (key : Text)
      → Holds a w
      → Allowed site.host (Command.query key)
      → (w' : World) × (Client.query site net startup node key w ≡ ok (a.keys key, w')) × Holds a w'
  unfolding ask
  query-Holds a w key holds allowed =
      let (reply, w', run, answers, after) = Holds-Serves a w (Command.query key) holds allowed in
      (
        w',
        called (Client.query site net startup node key w) got reply (a.keys key) w'
            (got-inj (a.keys key)) run (query-answer a key reply answers),
        after,
      )

  pub list-Holds :
      (a : Cache) (w : World) (keys : List Text)
      → Holds a w
      → Allowed site.host (Command.list keys)
      → (entries : List InsrtRequest) × (w' : World) × (Client.list site net startup node keys w
          ≡ ok (nonempty entries, w'))
        × Lists a keys entries
        × Holds a w'
  unfolding ask
  list-Holds a w keys holds allowed =
      let (reply, w', run, answers, after) = Holds-Serves a w (Command.list keys) holds allowed in
      let (entries, e, lists) = list-answer a keys reply answers in
      (
        entries,
        w',
        called (Client.list site net startup node keys w) listing reply (nonempty entries) w'
            (listing-inj (nonempty entries)) run e,
        lists,
        after,
      )

  pub zadd-Holds :
      (a : Cache) (w : World) (key : Text) (score : ℕ) (value : Text)
      → Holds a w
      → Allowed site.host (Command.zadd key score value)
      → (w' : World) × (Client.zadd site net startup node key score value w ≡ ok (some tt, w'))
        × Holds (next (owns n node) (Command.zadd key score value) a) w'
  unfolding ask
  zadd-Holds a w key score value holds allowed =
      let (reply, w', run, answers, after) =
        Holds-Serves a w (Command.zadd key score value) holds allowed in
      (
        w',
        called (Client.zadd site net startup node key score value w) answered reply (some tt) w'
            answered-inj run (zadd-answer a key score value reply answers),
        after,
      )

  pub zrmv-Holds :
      (a : Cache) (w : World) (key value : Text)
      → Holds a w
      → Allowed site.host (Command.zrmv key value)
      → (w' : World) × (Client.zrmv site net startup node key value w ≡ ok (some tt, w'))
        × Holds (next (owns n node) (Command.zrmv key value) a) w'
  unfolding ask
  zrmv-Holds a w key value holds allowed =
      let (reply, w', run, answers, after) =
        Holds-Serves a w (Command.zrmv key value) holds allowed in
      (
        w',
        called (Client.zrmv site net startup node key value w) answered reply (some tt) w'
            answered-inj run (zrmv-answer a key value reply answers),
        after,
      )

  pub zrange-Holds :
      (a : Cache) (w : World) (key : Text) (lo hi : ℕ) (f : Scores)
      → Holds a w
      → Allowed site.host (Command.zrange key lo hi)
      → a.sets key ≡ some f
      → (items : List ScoreValue) × (w' : World) × (Client.zrange site net startup node key lo hi w
          ≡ ok (some items, w'))
        × Ranks f lo hi items
        × Holds a w'
  unfolding ask
  zrange-Holds a w key lo hi f holds allowed set =
      let (reply, w', run, answers, after) =
        Holds-Serves a w (Command.zrange key lo hi) holds allowed in
      let (items, e, ranks) = zrange-answer a key lo hi f reply set answers in
      (
        items,
        w',
        called (Client.zrange site net startup node key lo hi w) ranking reply (some items) w'
            (ranking-inj (some items)) run e,
        ranks,
        after,
      )

  pub zrange-Holds-none :
      (a : Cache) (w : World) (key : Text) (lo hi : ℕ)
      → Holds a w
      → Allowed site.host (Command.zrange key lo hi)
      → a.sets key ≡ none
      → (w' : World) × (Client.zrange site net startup node key lo hi w ≡ ok (none, w'))
        × Holds a w'
  unfolding ask
  zrange-Holds-none a w key lo hi holds allowed absent =
      let (reply, w', run, answers, after) =
        Holds-Serves a w (Command.zrange key lo hi) holds allowed in
      (
        w',
        called (Client.zrange site net startup node key lo hi w) ranking reply none w'
            (ranking-inj none) run (zrange-answer-none a key lo hi reply absent answers),
        after,
      )
