-- ===== src/Tests/LoaderRuns.antt =====
-- A node that loads a database with one entry.
use hcache.Base.{ℕ, ◌≡◌, refl, true, Option, none, some, List, [], ◌∷◌, codes}
use hcache.Storage.{Storage, new_storage}
use hcache.Http.{success}
use hcache.Init.{Dialer, try_load_peers}
use hcache.Init.Loader.{
  Entries, Thread, Phase, idle, opening, finished, AllRead, Loading, load_entry, start_loading,
  init_reply, handle_init, asked, opened, began, loaded, joined, Reach, here, next,
}
use hcache.Init.Loader.Phases.{IsInPhase, openable, pasts, ok_after_loading}
use hcache.Tests.Instances.{function_map, list_db, byte_sum}
use hcache.Tests.Bodies.{plain_bodies}
use hcache.Tests.Cluster2.{fresh_node}

abbrev no_peers : Dialer
no_peers = record { is_addr = λ addr. true; attempts = λ addr. [] }

abbrev one_database : List (Option Entries)
one_database = some ((codes "k", codes "v") ∷ []) ∷ []

abbrev not_asked : Loading
not_asked = record { st = fresh_node; phase = idle; threads = [] }

abbrev at_state : ℕ → Phase → List Thread → Storage → Loading
at_state n phase threads st = record {
  st = record st { load_state = n };
  phase = phase;
  threads = threads;
}

abbrev entry_left : Thread
entry_left = record { seen = some (0, 0); past = []; rest = (codes "k", codes "v") ∷ [] }

abbrev through : Thread
through = record { seen = some (0, 0); past = (codes "k", codes "v") ∷ []; rest = [] }

abbrev last_node : Storage
last_node = load_entry 0 0 (codes "k") (codes "v") (record fresh_node { load_state = 1 })

not_asked-IsInPhase : IsInPhase one_database not_asked
unfolding new_storage
not_asked-IsInPhase = (refl, refl)

all_steps : Reach no_peers one_database not_asked (at_state 2 finished (through ∷ []) last_node)
unfolding handle_init try_load_peers start_loading new_storage
all_steps =
    next
      (next
        (next
          (next
            (next here (
              asked not_asked (at_state 1 (opening one_database) [] fresh_node) none
                (success (codes "loading")) refl))
            (opened (at_state 1 (opening one_database) [] fresh_node) ((codes "k", codes "v") ∷ [])
              [] refl))
          (began
            (at_state 1 (opening [])
              (record { seen = none; past = []; rest = (codes "k", codes "v") ∷ [] } ∷ [])
              fresh_node)
            0 [] ((codes "k", codes "v") ∷ []) refl))
        (loaded (at_state 1 (opening []) (entry_left ∷ []) fresh_node) 0 0 0 (codes "k") (codes "v")
          [] [] refl))
      (joined (record { st = last_node; phase = opening []; threads = through ∷ [] }) refl
        ((refl, λ e. cc), tt))

ok_after_loading_example :
    ((at_state 2 finished (through ∷ []) last_node).phase ≡ finished)
    × AllRead (at_state 2 finished (through ∷ []) last_node).threads
    × (pasts (at_state 2 finished (through ∷ []) last_node).threads ≡ openable one_database)
unfolding handle_init try_load_peers start_loading init_reply
ok_after_loading_example =
    ok_after_loading no_peers one_database none not_asked-IsInPhase all_steps
      (at_state 2 finished (through ∷ []) last_node) refl
