-- ===== src/Client/Session.antt =====
-- client/src/client.rs: the commands of any number of clients, one after the other, each to any node
-- of the cluster.
use hcache.Base.{
  ℕ, ◌≤◌, ◌<◌, ◌^◌, ◌≡◌, refl, sym, inl, inr, Bool-cases, Option-cases, Bool, none, List, [], ◌∷◌,
  arith, Text, text_discrete,
}
use hcache.Base.Run.{Run, ok, ◌>>=◌}
use hcache.External.Cuckoo.{Cuckoo}
use hcache.External.Rocks.{Rocks}
use hcache.External.Hasher.{Hasher}
use hcache.External.Serde.{Serde}
use hcache.External.Uri.{Site}
use hcache.Std.Walk.{Walk}
use hcache.Storage.Views.{last_value}
use hcache.Cluster.{Net, World, delivered}
use hcache.Handlers.Routed.{IsServing}
use hcache.Client.{Startup}
use hcache.Client.Spec.{Command, Reply, Cache, Answers, Allowed, next}
use hcache.Client.View.{view, owns}
use hcache.Client.Commands.{
  ask, Serves, IsUp, query-Serves, del-Serves, add-Serves, zadd-Serves, zrmv-Serves,
}
use hcache.Client.Reads.{IsSmall, batch-Serves, list-Serves, zrange-Serves}
use mathlib.Core.Path.{subst}

-- A command and the node that it is sent to.
abbrev pub Sent : Type 0
Sent = ℕ × Command

abbrev pub AllSent : ℕ → Text → List Sent → Type 0
AllSent n host [] = Unit
AllSent n host ((node, cmd) ∷ cmds) = (node < n) × Allowed host cmd × AllSent n host cmds

pub next-IsSmall :
    (mine : Text → Bool) (host : Text) (cmd : Command) (a : Cache)
    → Allowed host cmd
    → IsSmall a
    → IsSmall (next mine cmd a)
next-IsSmall mine host (Command.query key) a allowed h = h
next-IsSmall mine host (Command.del key) a allowed h = λ k v score e. h k v score (ground arith)
next-IsSmall mine host (Command.add key value) a allowed h =
    λ k v score e. h k v score (ground arith)
next-IsSmall mine host (Command.batch kvs) a allowed h = λ k v score e.
    h k v score (elim (Bool-cases (mine k)) [
      | inl f ↦ ground arith
      | inr f ↦ elim (Option-cases (last_value k kvs none)) [
        | inl g ↦ ground arith
        | inr (x, g) ↦ ground arith
      ]
    ])
next-IsSmall mine host (Command.list keys) a allowed h = h
next-IsSmall mine host (Command.zadd key new value) a allowed h = λ k v score e.
    elim (text_discrete key k) [
      | yes p ↦ elim (text_discrete value v) [
        | yes q ↦ ground (arith, allowed.0)
        | no q ↦ ground (arith, h k v score)
      ]
      | no p ↦ h k v score (ground arith)
    ]
next-IsSmall mine host (Command.zrange key lo hi) a allowed h = h
next-IsSmall mine host (Command.zrmv key value) a allowed h = λ k v score e.
    h k v score
      (elim (Option-cases (a.sets key)) [ inl f ↦ ground arith | inr (x, f) ↦ ground arith ])

-- A history of commands and replies that the specification allows, from one cache to another.
pub data History (owner_of : ℕ → Text → Bool)
    : Cache → List Sent → List Reply → Cache → Type 0 where
  nothing : (a : Cache) → History owner_of a [] [] a
  then :
      (a b : Cache) (node : ℕ) (cmd : Command) (reply : Reply) (cmds : List Sent)
      (replies : List Reply)
      → Answers a cmd reply
      → History owner_of (next (owner_of node) cmd a) cmds replies b
      → History owner_of a ((node, cmd) ∷ cmds) (reply ∷ replies) b

module _ ⦃c : Cuckoo⦄ ⦃r : Rocks⦄ ⦃h : Hasher⦄ ⦃s : Serde⦄ ⦃walk : Walk⦄ (site : Site) (net : Net)
    (startup : Startup) where
  unfoldable pub play : List Sent → World → Run (List Reply × World)
  unfolding ask
  play [] w = ok ([], w)
  play ((node, cmd) ∷ cmds) w = ask site net startup node cmd w >>= λ (reply, w').
      play cmds w' >>= λ (replies, w''). ok (reply ∷ replies, w'')

  module _ (n : ℕ) (small : n ≤ 2 ^ 32) (delivers : (i : ℕ) → net.delivery i ≡ delivered) where
    IsUp-IsServing : (node : ℕ) (w : World) → IsUp net n w → node < n → IsServing net n node w
    IsUp-IsServing node w up member = record {
      formed = up.formed;
      delivers = delivers;
      member = member;
      small = small;
    }

    -- every command is served
    pub command-Serves :
        (node : ℕ) (cmd : Command) (w : World)
        → IsUp net n w
        → node < n
        → IsSmall (view n w)
        → Allowed site.host cmd
        → Serves site net startup n node cmd w
    command-Serves node (Command.query key) w up member below allowed =
        query-Serves site net startup n node w (IsUp-IsServing node w up member) up.sound key
          allowed
    command-Serves node (Command.del key) w up member below allowed =
        del-Serves site net startup n node w (IsUp-IsServing node w up member) up.sound key allowed
    command-Serves node (Command.add key value) w up member below allowed =
        add-Serves site net startup n node w (IsUp-IsServing node w up member) up.sound key value
          allowed
    command-Serves node (Command.batch kvs) w up member below allowed =
        batch-Serves site net startup n node w (IsUp-IsServing node w up member) up.sound kvs
          allowed
    command-Serves node (Command.list keys) w up member below allowed =
        list-Serves site net startup n node w (IsUp-IsServing node w up member) up.sound keys
          allowed
    command-Serves node (Command.zadd key score value) w up member below allowed =
        zadd-Serves site net startup n node w (IsUp-IsServing node w up member) up.sound key score
          value allowed
    command-Serves node (Command.zrange key lo hi) w up member below allowed =
        zrange-Serves site net startup n node w (IsUp-IsServing node w up member) up.sound key lo hi
          allowed below
    command-Serves node (Command.zrmv key value) w up member below allowed =
        zrmv-Serves site net startup n node w (IsUp-IsServing node w up member) up.sound key value
          allowed

    -- In a formed cluster of at most 2 ^ 32 nodes, with every call delivered, sorted sets whose
    -- indexes agree and scores that are `u32`: any list of commands of the client, each sent to any
    -- node, in paths of plain bytes that the parser of URIs takes, with no slash in the key of a
    -- GET, scores that are `u32` and ranges that are not reversed, runs without a panic; the
    -- replies and the changes are those of one cache of keys and sorted sets that runs the commands
    -- one after the other, where a /zadd sets a score also under a key that has a value, and a
    -- batch keeps the sorted sets of the keys of the node that it is sent to and takes away those
    -- of its other keys; and the cluster is left formed, with indexes that agree.
    pub play-History :
        (cmds : List Sent) (w : World)
        → IsUp net n w
        → IsSmall (view n w)
        → AllSent n site.host cmds
        → (replies : List Reply) × (w' : World) × (play cmds w ≡ ok (replies, w'))
          × History (owns n) (view n w) cmds replies (view n w')
          × IsUp net n w'
    unfolding play
    play-History [] w up below sent = ([], w, refl, History.nothing (view n w), up)
    play-History ((node, cmd) ∷ cmds) w up below sent =
        let (member, allowed, rest) = sent in
        let (reply, w₁, run, answers, same, up₁) =
          command-Serves node cmd w up member below allowed in
        let below₁ : IsSmall (view n w₁) =
          subst IsSmall (sym same)
            (next-IsSmall (owns n node) site.host cmd (view n w) allowed below) in
        let (replies, w', runs, history, up') = play-History cmds w₁ up₁ below₁ rest in
        (
          reply ∷ replies,
          w',
          rw (run, runs) refl,
          History.then (view n w) (view n w') node cmd reply cmds replies answers
              (subst (λ a. History (owns n) a cmds replies (view n w')) same history),
          up',
        )
