-- ===== src/Init/Loader/Phases.antt =====
-- `handle_init` (rust/src/hcache.rs): `load_state` and the phase of the load.
use hcache.Base.{
  ◌++◌, ℕ, zero, suc, ◌≡◌, refl, sym, ap, ◌∙◌, inl, inr, Bool-cases, Option-cases, Option, true,
  none, some, List, [], ◌∷◌, arith, Text, codes, ◌==◌, get_elem?, set,
}
use mathlib.Core.List.{append-nil, append_assoc}
use mathlib.Core.Path.{subst}
use hcache.Base.Run.{Run, ok, fault, ◌>>=◌}
use hcache.External.Cuckoo.{Cuckoo}
use hcache.External.Rocks.{Rocks}
use hcache.External.Hasher.{Hasher}
use hcache.External.Serde.{Serde}
use hcache.Http.{Response, success}
use hcache.Pool.{PeerClientPool}
use hcache.Storage.{Storage}
use hcache.Init.{
  Dialer, Waiting, waits, returned, place, take_pool, new_pool, update_peers, try_load_peers,
}
use hcache.Init.Loader.{
  Entries, Thread, Phase, idle, opening, finished, IsRead, AllRead, Loading, load_entry,
  start_loading, init_reply, init_after, handle_init, Step, asked, served, opened, not_opened,
  began, loaded, joined, Reach, here, next,
}

-- The databases that can be opened.
abbrev pub openable : List (Option Entries) → List Entries
openable [] = []
openable (none ∷ dirs) = openable dirs
openable (some entries ∷ dirs) = entries ∷ openable dirs

-- What each thread has been through, and with what it has left.
abbrev pub pasts : List Thread → List Entries
pasts [] = []
pasts (t ∷ ts) = t.past ∷ pasts ts

abbrev wholes : List Thread → List Entries
wholes [] = []
wholes (t ∷ ts) = (t.past ++ t.rest) ∷ wholes ts

-- What the phase says of `load_state` and of the threads, where `dirs` are loaded.
abbrev pub InPhase : List (Option Entries) → Phase → ℕ → List Thread → Type 0
InPhase dirs idle n threads = (n ≡ 0) × (threads ≡ [])
InPhase dirs (opening rest) n threads = (n ≡ 1) × (wholes threads ++ openable rest ≡ openable dirs)
InPhase dirs finished n threads = (n ≡ 2) × AllRead threads × (wholes threads ≡ openable dirs)

pasts-AllRead : (ts : List Thread) → AllRead ts → wholes ts ≡ pasts ts
pasts-AllRead [] all = refl
pasts-AllRead (t ∷ ts) all =
    let one : t.past ++ t.rest ≡ t.past = ap (λ x. t.past ++ x) all.0.0 ∙ append-nil t.past in
    rw (one, pasts-AllRead ts all.1) refl

wholes-append :
    (ts : List Thread) (t : Thread) (l : List Entries)
    → wholes (ts ++ t ∷ []) ++ l ≡ wholes ts ++ (t.past ++ t.rest) ∷ l
wholes-append [] t l = refl
wholes-append (x ∷ ts) t l = ap (λ y. (x.past ++ x.rest) ∷ y) (wholes-append ts t l)

wholes-set :
    (ts : List Thread) (i : ℕ) (t t' : Thread)
    → get_elem? ts i ≡ some t
    → t.past ++ t.rest ≡ t'.past ++ t'.rest
    → wholes (set ts i t') ≡ wholes ts
wholes-set [] i t t' at same = refl
wholes-set (x ∷ ts) zero t t' at same =
    let here : x ≡ t = cc in
    ap (λ y. y ∷ wholes ts) (sym same ∙ ap (λ y. y.past ++ y.rest) (sym here))
wholes-set (x ∷ ts) (suc i) t t' at same =
    ap (λ y. (x.past ++ x.rest) ∷ y) (wholes-set ts i t t' at same)

get_elem?-AllRead :
    (ts : List Thread) (i : ℕ) (t : Thread) → AllRead ts → get_elem? ts i ≡ some t → IsRead t
get_elem?-AllRead [] i t all e = cc
get_elem?-AllRead (x ∷ ts) zero t all e = ground (arith, all.0)
get_elem?-AllRead (x ∷ ts) (suc i) t all e = get_elem?-AllRead ts i t all.1 e

-- A thread that is not through moves only while the databases are loaded.
move-InPhase :
    (dirs : List (Option Entries)) (p : Phase) (n : ℕ) (ts : List Thread) (i : ℕ) (t t' : Thread)
    → get_elem? ts i ≡ some t
    → ¬ IsRead t
    → t.past ++ t.rest ≡ t'.past ++ t'.rest
    → InPhase dirs p n ts
    → InPhase dirs p n (set ts i t')
move-InPhase dirs idle n ts i t t' at busy same (zero_state, empty) = cc
move-InPhase dirs (opening rest) n ts i t t' at busy same (one_state, all) =
    (one_state, ap (λ y. y ++ openable rest) (wholes-set ts i t t' at same) ∙ all)
move-InPhase dirs finished n ts i t t' at busy same (state, all, loads) =
    absurd (busy (get_elem?-AllRead ts i t all at))

-- The first /init, and every other.
begin-InPhase :
    (dirs : List (Option Entries)) (p : Phase) (ts : List Thread)
    → InPhase dirs p 0 ts
    → InPhase dirs (opening dirs) 1 ts
begin-InPhase dirs idle ts (zero_state, empty) = (refl, ap (λ l. wholes l ++ openable dirs) empty)
begin-InPhase dirs (opening rest) ts h = absurd (omega (arith, h.0))
begin-InPhase dirs finished ts h = absurd (omega (arith, h.0))

module _ ⦃c : Cuckoo⦄ ⦃r : Rocks⦄ ⦃h : Hasher⦄ where
  abbrev pub IsInPhase : List (Option Entries) → Loading → Type 0
  IsInPhase dirs l = InPhase dirs l.phase l.st.load_state l.threads

  placed-load_state :
      (st st' : Storage) (hosts : List Text) (me : ℕ) (run : Run (Waiting PeerClientPool))
      → (run >>= λ pool. ok (take_pool (place st hosts me) pool)) ≡ ok (returned st')
      → st'.load_state ≡ st.load_state
  unfolding place take_pool
  placed-load_state st st' hosts me (fault e) run = cc
  placed-load_state st st' hosts me (ok waits) run = cc
  placed-load_state st st' hosts me (ok (returned pool)) run = ground arith

  try_load_peers-load_state :
      ⦃s : Serde⦄ (d : Dialer) (file : Option Text) (st st' : Storage)
      → try_load_peers d file st ≡ ok (returned st')
      → st'.load_state ≡ st.load_state
  unfolding try_load_peers update_peers
  try_load_peers-load_state d none st st' run = ground arith
  try_load_peers-load_state ⦃s⦄ d (some json) st st' run =
      elim (Option-cases (s.read_cluster json)) [
        | inl e ↦ ground arith
        | inr (info, e) ↦
            let st₁ : Storage = record st { peer_updated = true } in
            ground
              (arith, placed-load_state st₁ st' info.hosts info.index (new_pool d info.hosts []))
      ]

  start_loading-IsInPhase :
      (dirs : List (Option Entries)) (l : Loading) (st : Storage)
      → st.load_state ≡ l.st.load_state
      → IsInPhase dirs l
      → IsInPhase dirs (start_loading dirs (record l { st = st }))
  unfolding start_loading
  start_loading-IsInPhase dirs l st same h = elim (Bool-cases (st.load_state == 0)) [
    | inl e ↦
        let none_yet : l.st.load_state ≡ 0 = ground arith in
        rw e (
          begin-InPhase dirs l.phase l.threads
            (subst (λ n. InPhase dirs l.phase n l.threads) none_yet h))
    | inr e ↦ rw e (subst (λ n. InPhase dirs l.phase n l.threads) (sym same) h)
  ]

  -- What an /init that returned has done.
  init_after-cases :
      (dirs : List (Option Entries)) (l l' : Loading) (response : Response)
      (run : Run (Waiting Storage))
      → (run >>= λ st. ok (init_after dirs l st)) ≡ ok (returned (response, l'))
      → (st : Storage) × (run ≡ ok (returned st))
        × (start_loading dirs (record l { st = st }) ≡ l')
        × (init_reply l'.st ≡ response)
  unfolding init_after
  init_after-cases dirs l l' response (fault e) h = cc
  init_after-cases dirs l l' response (ok waits) h = cc
  init_after-cases dirs l l' response (ok (returned st)) h =
      let after : start_loading dirs (record l { st = st }) ≡ l' = cc in
      (st, refl, after, ap (λ x. init_reply x.st) (sym after) ∙ cc)

  load_entry-load_state :
      (count me : ℕ) (key value : Text) (st : Storage)
      → (load_entry count me key value st).load_state ≡ st.load_state
  unfolding load_entry
  load_entry-load_state count me key value st = ground arith

  module _ ⦃s : Serde⦄ (d : Dialer) (dirs : List (Option Entries)) where
    -- Every step of a request or a loader thread keeps `load_state` in step with the load: it is 0
    -- with no thread, 1 while databases are opened or waited for, with a thread for each that was
    -- opened, and 2 when every thread is through.
    pub Step-IsInPhase : {l l' : Loading} → Step d dirs l l' → IsInPhase dirs l → IsInPhase dirs l'
    unfolding handle_init
    Step-IsInPhase (asked l l' file response run) h =
        let (st, loaded_peers, after, reply) =
          init_after-cases dirs l l' response (try_load_peers d file l.st) run in
        subst (IsInPhase dirs) after (
          start_loading-IsInPhase dirs l st (try_load_peers-load_state d file l.st st loaded_peers)
            h)
    Step-IsInPhase (served l st same) h = subst (λ n. InPhase dirs l.phase n l.threads) (sym same) h
    Step-IsInPhase (opened l entries rest e) h =
        let (one_state, all) = subst (λ p. InPhase dirs p l.st.load_state l.threads) e h in
        (
          one_state,
          wholes-append l.threads (record { seen = none; past = []; rest = entries })
                (openable rest)
              ∙ all,
        )
    Step-IsInPhase (not_opened l rest e) h =
        subst (λ p. InPhase dirs p l.st.load_state l.threads) e h
    Step-IsInPhase (began l i past entries at) h =
        move-InPhase dirs l.phase l.st.load_state l.threads i _ _ at (λ is_read. is_read.1 refl)
          refl h
    Step-IsInPhase (loaded l i count me key value past entries at) h =
        move-InPhase dirs l.phase (load_entry count me key value l.st).load_state l.threads i _ _ at
          (λ is_read. cc) (sym (append_assoc past ((key, value) ∷ []) entries))
          (subst (λ n. InPhase dirs l.phase n l.threads)
            (sym (load_entry-load_state count me key value l.st)) h)
    Step-IsInPhase (joined l e all) h =
        let (one_state, loads) = subst (λ p. InPhase dirs p l.st.load_state l.threads) e h in
        (refl, all, sym (append-nil (wholes l.threads)) ∙ loads)

    pub Reach-IsInPhase :
        {l l' : Loading} → IsInPhase dirs l → Reach d dirs l l' → IsInPhase dirs l'
    Reach-IsInPhase h here = h
    Reach-IsInPhase h (next reach step) = Step-IsInPhase step (Reach-IsInPhase h reach)

    finished_of :
        (p : Phase) (n : ℕ) (ts : List Thread)
        → InPhase dirs p n ts
        → n ≡ 2
        → (p ≡ finished) × AllRead ts × (pasts ts ≡ openable dirs)
    finished_of idle n ts h e = absurd (omega (arith, h.0, e))
    finished_of (opening rest) n ts h e = absurd (omega (arith, h.0, e))
    finished_of finished n ts (state, all, loads) e =
        (refl, all, sym (pasts-AllRead ts all) ∙ loads)

    init_reply-ok : (st : Storage) → init_reply st ≡ success (codes "ok") → st.load_state ≡ 2
    unfolding init_reply
    init_reply-ok st e = elim (Bool-cases (st.load_state == 2)) [
      | inl two ↦ ground arith
      | inr other ↦ cc
    ]

    -- From a node whose `load_state` and threads fit the phase of its load, as they do before the
    -- first /init, after any steps of its requests and loader threads in any order: where an /init
    -- is answered with `ok`, the loader threads are one for each database that can be opened, in
    -- their order; each has been through all the entries of its database, and has none left.
    pub ok_after_loading :
        {l l' : Loading} (file : Option Text)
        → IsInPhase dirs l
        → Reach d dirs l l'
        → (l'' : Loading) → handle_init d file dirs l' ≡ ok (returned (success (codes "ok"), l''))
        → (l''.phase ≡ finished) × AllRead l''.threads × (pasts l''.threads ≡ openable dirs)
    unfolding handle_init
    ok_after_loading {l} {l'} file h reach l'' run =
        let (st, peers, after, reply) =
          init_after-cases dirs l' l'' (success (codes "ok")) (try_load_peers d file l'.st) run in
        let phase =
          Step-IsInPhase (asked l' l'' file (success (codes "ok")) run) (Reach-IsInPhase h reach) in
        finished_of l''.phase l''.st.load_state l''.threads phase (init_reply-ok l''.st reply)
