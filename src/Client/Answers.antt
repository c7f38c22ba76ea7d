-- ===== src/Client/Answers.antt =====
-- What a known cache answers to the calls of client/src/client.rs.
use hcache.Base.{none, leb, ◌&&◌, if◌then◌else◌, ℕ, ◌≡◌, refl, sym, ◌∙◌, Option, some, List, Text}
use Prim.Native.Nat.{min}
use hcache.Base.Run.{Run, ok, fault, ◌>>=◌}
use hcache.Dto.{InsrtRequest, ScoreValue}
use hcache.Std.HashSet
use hcache.ZSet.{at_score}
use hcache.ZSet.Range.{count_item, AscendsFrom}
use hcache.Handlers.Listed.{count_entry, if_value}
use hcache.Client.Spec.{
  Command, Reply, Cache, Answers, got, answered, listing, ranking, nonempty, Scores,
}
use mathlib.Core.Path.{subst}

abbrev wrapped : {A W : Type 0} → (A → Reply) → A × W → Run (Reply × W)
wrapped wrap (x, w) = ok (wrap x, w)

none_apart : {A : Type 0} {a : A} → ¬ (none ≡ some a)
none_apart e = cc

some_inj : {A : Type 0} {a b : A} → some a ≡ some b → a ≡ b
some_inj e = cc

-- A call that is wrapped in a reply, unwrapped.
pub called :
    {A W : Type 0} (call : Run (A × W)) (wrap : A → Reply) (reply : Reply) (a : A) (w : W)
    → ((x : A) → wrap x ≡ wrap a → x ≡ a)
    → (call >>= wrapped wrap) ≡ ok (reply, w)
    → reply ≡ wrap a
    → call ≡ ok (a, w)
called (ok (x, w')) wrap reply a w inj e f =
    let same : wrap x ≡ wrap a = cc in let here : w' ≡ w = cc in rw (inj x same, here) refl
called (fault why) wrap reply a w inj e f = cc

pub done-answer :
    (a : Cache) (key value : Text) (reply : Reply)
    → Answers a (Command.add key value) reply
    → reply ≡ answered (some tt)
done-answer a key value _ (Answers.added _ _) = refl

pub del-answer :
    (a : Cache) (key : Text) (reply : Reply)
    → Answers a (Command.del key) reply
    → reply ≡ answered (some tt)
del-answer a key _ (Answers.deleted _) = refl

pub batch-answer :
    (a : Cache) (kvs : List InsrtRequest) (reply : Reply)
    → Answers a (Command.batch kvs) reply
    → reply ≡ answered (some tt)
batch-answer a kvs _ (Answers.batched _) = refl

pub query-answer :
    (a : Cache) (key : Text) (reply : Reply)
    → Answers a (Command.query key) reply
    → reply ≡ got (a.keys key)
query-answer a key _ (Answers.looked_up _) = refl

-- The list of a /list has each key that is asked for once, with its value.
abbrev pub Lists : Cache → List Text → List InsrtRequest → Type 0
Lists a keys entries =
    (k v : Text) → count_entry k v entries ≡ if_value v (a.keys k) (min 1 (HashSet.occurs k keys))

pub list-answer :
    (a : Cache) (keys : List Text) (reply : Reply)
    → Answers a (Command.list keys) reply
    → (entries : List InsrtRequest) × (reply ≡ listing (nonempty entries)) × Lists a keys entries
list-answer a keys _ (Answers.collected _ entries counts) = (entries, refl, counts)

pub zadd-answer :
    (a : Cache) (key : Text) (score : ℕ) (value : Text) (reply : Reply)
    → Answers a (Command.zadd key score value) reply
    → reply ≡ answered (some tt)
zadd-answer a key score value _ (Answers.set_score _ _ _) = refl

pub zrmv-answer :
    (a : Cache) (key value : Text) (reply : Reply)
    → Answers a (Command.zrmv key value) reply
    → reply ≡ answered (some tt)
zrmv-answer a key value _ (Answers.removed _ _) = refl

-- The list of a /zrange of a set: in ascending order, each value with a score in the range, once.
pub record Ranks (f : Scores) (lo hi : ℕ) (items : List ScoreValue) : Type 0 where
  pub sorted : AscendsFrom lo items
  pub counted :
      (s : ℕ) (v : Text)
      → count_item s v items ≡ (if leb lo s && leb s hi then at_score (f v) s else 0)

pub zrange-answer :
    (a : Cache) (key : Text) (lo hi : ℕ) (f : Scores) (reply : Reply)
    → a.sets key ≡ some f
    → Answers a (Command.zrange key lo hi) reply
    → (items : List ScoreValue) × (reply ≡ ranking (some items)) × Ranks f lo hi items
zrange-answer a key lo hi f _ set (Answers.no_set _ _ _ e) = absurd (none_apart (sym e ∙ set))
zrange-answer a key lo hi f _ set (Answers.ranged _ _ _ items g e sorted counted) =
    let same : g ≡ f = some_inj (sym e ∙ set) in
    (
      items,
      refl,
      record {
        sorted = sorted;
        counted =
            subst
              (λ x.
                (s : ℕ) (v : Text)
                → count_item s v items ≡ (if leb lo s && leb s hi then at_score (x v) s else 0))
              same counted;
      },
    )

pub zrange-answer-none :
    (a : Cache) (key : Text) (lo hi : ℕ) (reply : Reply)
    → a.sets key ≡ none
    → Answers a (Command.zrange key lo hi) reply
    → reply ≡ ranking none
zrange-answer-none a key lo hi _ absent (Answers.no_set _ _ _ e) = refl
zrange-answer-none a key lo hi _ absent (Answers.ranged _ _ _ items g e sorted counted) =
    absurd (none_apart (sym absent ∙ e))

pub ranking-inj : (y x : Option (List ScoreValue)) → ranking x ≡ ranking y → x ≡ y
ranking-inj y x e = cc

pub answered-inj : (x : Option (Unit {0})) → answered x ≡ answered (some tt) → x ≡ some tt
answered-inj x e = cc

pub got-inj : (y x : Option Text) → got x ≡ got y → x ≡ y
got-inj y x e = cc

pub listing-inj : (y x : Option (List InsrtRequest)) → listing x ≡ listing y → x ≡ y
listing-inj y x e = cc
