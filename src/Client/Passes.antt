-- ===== src/Client/Passes.antt =====
-- client/src/client.rs, `main`: its checks of keys, made against a cluster.
use hcache.Base.{
  ℕ, ◌+◌, ◌≤◌, ◌<◌, ◌^◌, ◌≡◌, refl, ◌∙◌, none, some, List, [], ◌∷◌, arith, Text, codes, length,
}
use hcache.Base.Run.{ok, fault, panicked}
use hcache.Dto.{InsrtRequest}
use hcache.External.Cuckoo.{Cuckoo}
use hcache.External.Rocks.{Rocks}
use hcache.External.Hasher.{Hasher}
use hcache.External.Serde.{Serde}
use hcache.External.Uri.{Site, all_plain}
use hcache.Std.Walk.{Walk}
use hcache.Cluster.{Net, World, delivered}
use hcache.Handlers.Listed.{count_entry}
use hcache.Client
use hcache.Client.{Startup, keyed}
use hcache.Client.Spec.{Command, Cache, next, put, nonempty}
use hcache.Client.View.{view, owns}
use hcache.Client.Commands.{IsUp}
use hcache.Client.Reads.{IsSmall}
use hcache.Client.Known.{Holds, add-Holds, del-Holds, batch-Holds, query-Holds, list-Holds}
use hcache.Client.Answers.{Lists}
use hcache.Client.Check.{
  key_of, value_of_number, entry_of, entries_from, keys_from, repeated, done, value, missing,
  check_add, check_del, check_list, check_partial, check_miss, check_repeated, check_keys,
}
use hcache.Client.Numbered.{
  key_of-inj, if_value-entries_from, length-entries_from, count_entry-entries_from, partial-count,
  miss-count, repeated-count,
}
use hcache.Client.Lengths.{length-count_entry}
use hcache.Client.Expected.{
  Fits-short, nonempty-some, nonempty-none, ite-same, expect-true, expect_values-numbered, put-same,
  Fresh, hello, world, hello-key_of,
}

-- The cache after the commands that change it.
module _ ⦃c : Cuckoo⦄ ⦃r : Rocks⦄ ⦃h : Hasher⦄ (n node : ℕ) where
  abbrev pub after_add : Cache → Cache
  after_add a = next (owns n node) (Command.add hello world) a

  abbrev pub after_del : Cache → Cache
  after_del a = next (owns n node) (Command.del hello) a

  abbrev pub after_batch : ℕ → Cache → Cache
  after_batch count a =
      next (owns n node) (Command.batch (entries_from key_of value_of_number 0 count)) a

module _ ⦃c : Cuckoo⦄ ⦃r : Rocks⦄ ⦃h : Hasher⦄ ⦃s : Serde⦄ ⦃walk : Walk⦄ (site : Site) (net : Net)
    (startup : Startup) (n node : ℕ) (small : n ≤ 2 ^ 32) (member : node < n)
    (delivers : (i : ℕ) → net.delivery i ≡ delivered) (low : length site.host ≤ 65000) where
  abbrev Now : Cache → World → Type 0
  Now a w = Holds site net startup n node small member delivers a w

  check_add-Holds :
      (a : Cache) (w : World)
      → Now a w
      → (w' : World) × (check_add site net startup node w ≡ ok w') × Now (after_add n node a) w'
  unfolding check_add done value all_plain keyed
  check_add-Holds a w now =
      let (w₁, run, now₁) =
        add-Holds site net startup n node small member delivers a w hello world now
          (Fits-short site.host (codes "/add") refl (omega arith) low) in
      let (w₂, run', now₂) =
        query-Holds site net startup n node small member delivers (after_add n node a) w₁ hello now₁
          (
            omega arith,
            Fits-short site.host (keyed (codes "query") hello) refl (omega arith) low,
          ) in
      let found : put hello (some world) a.keys hello ≡ some world =
        put-same hello (some world) a.keys in
      (w₂, rw (run, run', found) (ite-same world (ok w₂) (fault panicked)), now₂)

  check_del-Holds :
      (a : Cache) (w : World)
      → Now a w
      → (w' : World) × (check_del site net startup node w ≡ ok w') × Now (after_del n node a) w'
  unfolding check_del done missing all_plain keyed
  check_del-Holds a w now =
      let (w₁, run, now₁) =
        del-Holds site net startup n node small member delivers a w hello now
          (omega arith, Fits-short site.host (keyed (codes "del") hello) refl (omega arith) low) in
      let (w₂, run', now₂) =
        query-Holds site net startup n node small member delivers (after_del n node a) w₁ hello now₁
          (
            omega arith,
            Fits-short site.host (keyed (codes "query") hello) refl (omega arith) low,
          ) in
      let nothing : put hello none a.keys hello ≡ none = put-same hello none a.keys in
      (w₂, rw (run, run', nothing) refl, now₂)

  -- a /list whose entries are known
  list-known :
      (a : Cache) (w : World) (keys : List Text)
      → Now a w
      → (entries : List InsrtRequest) × (w' : World) × (Client.list site net startup node keys w
          ≡ ok (nonempty entries, w'))
        × Lists a keys entries
        × Now a w'
  unfolding all_plain
  list-known a w keys now =
      list-Holds site net startup n node small member delivers a w keys now
        (Fits-short site.host (codes "/list") refl (omega arith) low)

  check_list-Holds :
      (count : ℕ) (a : Cache) (w : World)
      → 0 < count
      → Now a w
      → (w' : World) × (check_list site net startup node count w ≡ ok w')
        × Now (after_batch n node count a) w'
  unfolding check_list done value all_plain
  check_list-Holds count a w some_entry now =
      let (w₁, run, now₁) =
        batch-Holds site net startup n node small member delivers a w
          (entries_from key_of value_of_number 0 count) now
          (Fits-short site.host (codes "/batch") refl (omega arith) low) in
      let (entries, w₂, run', lists, now₂) =
        list-known (after_batch n node count a) w₁ (keys_from key_of 0 count) now₁ in
      let counts : (k v : Text)
          → count_entry k v entries
            ≡ count_entry k v (entries_from key_of value_of_number 0 count) =
        λ k v.
          lists k v
          ∙ if_value-entries_from key_of value_of_number key_of-inj k v 0 count (a.keys k) in
      let all : length entries ≡ count =
        length-count_entry entries (entries_from key_of value_of_number 0 count) counts
        ∙ length-entries_from key_of value_of_number key_of-inj 0 count in
      let values = expect_values-numbered entries w₂ (λ k v found.
        count_entry-entries_from key_of value_of_number key_of-inj k v 0 count
          (omega (arith, found, counts k v))) in
      (
        w₂,
        rw
            (
              run,
              run',
              nonempty-some entries (omega (arith, all, some_entry)),
              expect-true (length entries) count w₂ all,
            )
            values,
        now₂,
      )

  check_partial-Holds :
      (count : ℕ) (a : Cache) (w : World)
      → 0 < count
      → Fresh count a
      → Now (after_batch n node count a) w
      → (w' : World) × (check_partial site net startup node count w ≡ ok w')
        × Now (after_batch n node count a) w'
  unfolding check_partial value
  check_partial-Holds count a w some_entry fresh now =
      let (entries, w₁, run, lists, now₁) =
        list-known (after_batch n node count a) w (keys_from key_of 0 (count + count)) now in
      let all : length entries ≡ count =
        length-count_entry entries (entries_from key_of value_of_number 0 count) (λ k v.
          lists k v ∙ partial-count key_of value_of_number key_of-inj a.keys count fresh k v)
        ∙ length-entries_from key_of value_of_number key_of-inj 0 count in
      (
        w₁,
        rw (run, nonempty-some entries (omega (arith, all, some_entry)))
            (expect-true (length entries) count w₁ all),
        now₁,
      )

  check_miss-Holds :
      (count : ℕ) (a : Cache) (w : World)
      → Fresh count a
      → Now (after_batch n node count a) w
      → (w' : World) × (check_miss site net startup node count w ≡ ok w')
        × Now (after_batch n node count a) w'
  unfolding check_miss missing
  check_miss-Holds count a w fresh now =
      let (entries, w₁, run, lists, now₁) =
        list-known (after_batch n node count a) w (keys_from key_of count count) now in
      let nothing =
        nonempty-none entries (λ k v.
          lists k v ∙ miss-count key_of value_of_number key_of-inj a.keys count fresh k v) in
      (w₁, rw (run, nothing) refl, now₁)

  check_repeated-Holds :
      (count : ℕ) (a : Cache) (w : World)
      → 0 < count
      → Now (after_batch n node count a) w
      → (w' : World) × (check_repeated site net startup node count w ≡ ok w')
        × Now (after_batch n node count a) w'
  unfolding check_repeated value
  check_repeated-Holds count a w some_entry now =
      let (entries, w₁, run, lists, now₁) =
        list-known (after_batch n node count a) w (repeated count (key_of 0)) now in
      let one : length entries ≡ 1 = length-count_entry entries (entry_of 0 ∷ []) (λ k v.
        lists k v
        ∙ repeated-count key_of value_of_number key_of-inj k v count (a.keys k) some_entry) in
      (
        w₁,
        rw (run, nonempty-some entries (omega (arith, one)))
            (expect-true (length entries) 1 w₁ one),
        now₁,
      )

  -- In a formed cluster of at most 2 ^ 32 nodes, with every call delivered, sorted sets whose
  -- indexes agree, scores that are `u32` and a host of at most 65000 bytes, the checks of /add,
  -- /query, /del, /batch and /list that the client makes before its benchmarks all pass, through
  -- any node and for any count of entries but 0, if the numbered keys from the count up to twice
  -- the count have no value; the cluster's cache is then the one after those commands, and the
  -- cluster is left formed, with indexes that agree.
  pub check_keys-passes :
      (count : ℕ) (w : World)
      → 0 < count
      → IsUp net n w
      → IsSmall (view n w)
      → Fresh count (view n w)
      → (w' : World) × (check_keys site net startup node count w ≡ ok w')
        × (view n w' ≡ after_batch n node count (after_del n node (after_add n node (view n w))))
        × IsUp net n w'
  unfolding check_keys
  check_keys-passes count w some_entry up below fresh =
      let a = view n w in
      let now : Now a w = record { up = up; same = refl; below = below } in
      let (w₁, run₁, now₁) = check_add-Holds a w now in
      let (w₂, run₂, now₂) = check_del-Holds (after_add n node a) w₁ now₁ in
      let b = after_del n node (after_add n node a) in
      let (w₃, run₃, now₃) = check_list-Holds count b w₂ some_entry now₂ in
      let fresh' : Fresh count b = λ j lo hi. ground (arith, fresh j lo hi, hello-key_of j) in
      let (w₄, run₄, now₄) = check_partial-Holds count b w₃ some_entry fresh' now₃ in
      let (w₅, run₅, now₅) = check_miss-Holds count b w₄ fresh' now₄ in
      let (w₆, run₆, now₆) = check_repeated-Holds count b w₅ some_entry now₅ in
      (w₆, rw (run₁, run₂, run₃, run₄, run₅, run₆) refl, now₆.same, now₆.up)
