-- ===== src/Init/Loader.antt =====
-- rust/src/hcache.rs, `handle_init`: the first /init starts a thread that opens the databases of
-- INIT_DIRS, with a thread for each, and waits for these. Their steps and the requests that the node
-- serves meanwhile come in any order.
pub mod Phases
pub mod Loaded
use hcache.Base.{
  ℕ, ◌≡◌, ◌≢◌, Option, none, some, List, [], ◌∷◌, ◌++◌, Text, codes, ◌==◌, if◌then◌else◌, get_elem?,
  set,
}
use hcache.Base.Run.{Run, ok, ◌>>=◌}
use hcache.External.Cuckoo.{Cuckoo}
use hcache.External.Rocks.{Rocks}
use hcache.External.Hasher.{Hasher}
use hcache.External.Serde.{Serde}
use hcache.Http.{Response, success}
use hcache.Storage.{Storage, load_state_init, load_state_loading, load_state_loaded}
use hcache.Shard.{shard_of_slice}
use hcache.Init.{Dialer, Waiting, waits, returned, try_load_peers}

abbrev pub Entries : Type 0
Entries = List (Text × Text)

-- A thread that loads one database: the `count` and `me` that it read when it began, the entries that
-- it has been through, and those that its iterator has left.
pub record Thread : Type 0 where
  pub seen : Option (ℕ × ℕ)
  pub past : Entries
  pub rest : Entries

-- The thread that `handle_init` spawns: it was not spawned; it has paths to open, `none` for one that
-- fails to open, and then waits for the threads; it is done.
pub data Phase : Type 0 where
  idle : Phase
  opening : List (Option Entries) → Phase
  finished : Phase

-- An iterator's thread is through.
abbrev pub IsRead : Thread → Type 0
IsRead t = (t.rest ≡ []) × (t.seen ≢ none)

abbrev pub AllRead : List Thread → Type 0
AllRead [] = Unit
AllRead (t ∷ ts) = IsRead t × AllRead ts

module _ ⦃c : Cuckoo⦄ ⦃r : Rocks⦄ ⦃h : Hasher⦄ where
  pub record Loading : Type 0 where
    pub st : Storage
    pub phase : Phase
    pub threads : List Thread

  -- the body of the loop of a loader thread
  unfoldable pub load_entry : ℕ → ℕ → Text → Text → Storage → Storage
  unfolding shard_of_slice
  load_entry count me key value st =
      if shard_of_slice key count == me
      then record st { db = (r.put_opt st.db key value).1; kv = c.insert st.kv key value }
      else st

  -- `compare_exchange(LOAD_STATE_INIT, LOAD_STATE_LOADING)`, and the spawn
  unfoldable pub start_loading : List (Option Entries) → Loading → Loading
  start_loading dirs l =
      if l.st.load_state == load_state_init
      then record l { st = record l.st { load_state = load_state_loading }; phase = opening dirs }
      else l

  unfoldable pub init_reply : Storage → Response
  init_reply st =
      if st.load_state == load_state_loaded then success (codes "ok") else success (codes "loading")

  -- after `try_load_peers`
  init_after : List (Option Entries) → Loading → Waiting Storage → Waiting (Response × Loading)
  unfolding start_loading init_reply
  init_after dirs l waits = waits
  init_after dirs l (returned st) =
      let l' = start_loading dirs (record l { st = st }) in returned (init_reply l'.st, l')

  unfoldable pub handle_init :
      ⦃s : Serde⦄
      → Dialer
      → Option Text
      → List (Option Entries)
      → Loading
      → Run (Waiting (Response × Loading))
  unfolding init_after
  handle_init d file dirs l = try_load_peers d file l.st >>= λ st. ok (init_after dirs l st)

  -- `served` stands for any other request: it leaves `load_state` alone.
  pub data Step ⦃s : Serde⦄ (d : Dialer) (dirs : List (Option Entries))
      : Loading → Loading → Type 0 where
    asked :
        (l l' : Loading) (file : Option Text) (response : Response)
        → handle_init d file dirs l ≡ ok (returned (response, l'))
        → Step d dirs l l'
    served :
        (l : Loading) (st : Storage)
        → st.load_state ≡ l.st.load_state
        → Step d dirs l (record l { st = st })
    opened :
        (l : Loading) (entries : Entries) (rest : List (Option Entries))
        → l.phase ≡ opening (some entries ∷ rest)
        → Step d dirs l (record l {
          phase = opening rest;
          threads = l.threads ++ record { seen = none; past = []; rest = entries } ∷ [];
        })
    not_opened :
        (l : Loading) (rest : List (Option Entries))
        → l.phase ≡ opening (none ∷ rest)
        → Step d dirs l (record l { phase = opening rest })
    began :
        (l : Loading) (i : ℕ) (past entries : Entries)
        → get_elem? l.threads i ≡ some (record { seen = none; past = past; rest = entries })
        → Step d dirs l (record l {
          threads =
              set l.threads i
                (record { seen = some (l.st.count, l.st.me); past = past; rest = entries });
        })
    loaded :
        (l : Loading) (i count me : ℕ) (key value : Text) (past entries : Entries)
        → get_elem? l.threads i
          ≡ some (record { seen = some (count, me); past = past; rest = (key, value) ∷ entries })
        → Step d dirs l (record l {
          st = load_entry count me key value l.st;
          threads = set l.threads i (record {
            seen = some (count, me);
            past = past ++ (key, value) ∷ [];
            rest = entries;
          });
        })
    joined :
        (l : Loading)
        → l.phase ≡ opening []
        → AllRead l.threads
        → Step d dirs l
            (record l { st = record l.st { load_state = load_state_loaded }; phase = finished })

  pub data Reach ⦃s : Serde⦄ (d : Dialer) (dirs : List (Option Entries)) (l : Loading)
      : Loading → Type 0 where
    here : Reach d dirs l l
    next : {l' l'' : Loading} → Reach d dirs l l' → Step d dirs l' l'' → Reach d dirs l l''
