-- ===== src/Cache/Correct.antt =====
-- The byte cache (src/cache/mod.rs) keeps its capacity, never panics, and evicts oldest first.
use torrust_index.Base.{
  ℕ, suc, ◌+◌, ◌-◌, ◌%◌, ◌≤◌, ◌<◌, ◌≡◌, refl, ◌∙◌, sym, ap, ◌⊎◌, inl, inr, true, false, List, [],
  ◌∷◌, ◌++◌, Option, none, some, Text, length, ltb, lt→ltb, ltb→lt, arith, Bool-cases, Outcome, ok,
  err, subst, ◌>>=?◌,
}
use torrust_index.Cache.{
  BytesCacheEntry, Entries, IndexMap, BytesCache, usize_mod, total_size, free_loop, free_size,
  insert_after, set, get, CacheError, bytes_exceed_entry_size_limit,
  with_capacity_and_entry_size_limit, new,
}
use torrust_index.Cache.Table.{remove, lookup}
use torrust_index.Cache.Eviction.{
  sizes, sizes-append, sum_sizes-eq, evict, free_loop-evict, Evicted, evict-Evicted,
}
use torrust_index.Cache.Keys.{
  Distinct, Within, sizes-remove-le, lookup-remove_self, Distinct-remove, Within-remove,
  lookup-append_none, Distinct-append_right, Within-append_right, upsert_new, lookup_last,
  Distinct-snoc, Within-snoc,
}

leb→not_ltb : (a b : ℕ) → b ≤ a → ltb a b ≡ false
leb→not_ltb a b h = ground arith

pub not_ltb→le : (a b : ℕ) → ltb a b ≡ false → b ≤ a
not_ltb→le a b h = ground arith

-- What the cache keeps true between calls, of the entries in its table.
pub record Fits (capacity limit : ℕ) (es : Entries) : Type 0 where
  pub room : sizes es ≤ capacity
  pub distinct : Distinct es
  pub within : Within limit es

module _ {M : Type 0} (map : IndexMap M) where
  open map use {entries}

  -- The capacity is a `usize`, the limit of one entry does not exceed it, and the entries fit.
  pub record IsValid (c : BytesCache M) : Type 0 where
    pub word : c.total_capacity < usize_mod
    pub limit : c.entry_size_limit ≤ c.total_capacity
    pub fits : Fits c.total_capacity c.entry_size_limit (entries c.bytes_table)

  pub total_size-eq-sizes :
      (c : BytesCache M) → IsValid c → total_size map c ≡ sizes (entries c.bytes_table)
  unfolding total_size
  total_size-eq-sizes c v =
      sum_sizes-eq 0 (entries c.bytes_table) (omega (arith, v.fits.room)) ∙ omega arith

  -- the space that `free_size` has to make
  abbrev pub shortage : BytesCache M → ℕ → ℕ
  shortage c size = size - (c.total_capacity - sizes (entries c.bytes_table))

  free_size-free_loop :
      (c : BytesCache M) (size : ℕ)
      → IsValid c
      → size ≤ c.total_capacity
      → free_size map c size ≡ free_loop map (suc (map.len c.bytes_table)) 0 (shortage c size) c
  unfolding free_size
  free_size-free_loop c size v h =
      let free : (c.total_capacity + usize_mod - total_size map c) % usize_mod
          ≡ c.total_capacity - sizes (entries c.bytes_table) =
        omega (arith, total_size-eq-sizes c v, v.word, v.fits.room) in
      rw (leb→not_ltb c.total_capacity size h, free)

  free_size_lem :
      (c : BytesCache M) (size : ℕ)
      → IsValid c
      → size ≤ c.total_capacity
      → (table : M) × (free_size map c size ≡ some (record c { bytes_table = table }, ok tt))
        × (entries table ≡ evict (entries c.bytes_table) (shortage c size))
  free_size_lem c size v h =
      let (table, run, left) =
        free_loop-evict map (suc (map.len c.bytes_table)) 0 (shortage c size) (shortage c size) c
          (entries c.bytes_table) (omega arith) refl (omega (arith, map.len_lem c.bytes_table))
          (omega (arith, v.fits.room)) (omega (arith, v.fits.room, v.word)) in
      (table, free_size-free_loop c size v h ∙ run, left)

  -- the cache after `shift_remove`
  abbrev shifted : BytesCache M → Text → BytesCache M
  shifted c key = record c { bytes_table = (map.shift_remove c.bytes_table key).0 }

  shifted-IsValid : (c : BytesCache M) (key : Text) → IsValid c → IsValid (shifted c key)
  shifted-IsValid c key v = record {
    word = v.word;
    limit = v.limit;
    fits =
        subst (Fits c.total_capacity c.entry_size_limit)
          (sym (map.entries-shift_remove c.bytes_table key))
          (record {
            room = omega (arith, sizes-remove-le key (entries c.bytes_table), v.fits.room);
            distinct = Distinct-remove key (entries c.bytes_table) v.fits.distinct;
            within = Within-remove c.entry_size_limit key (entries c.bytes_table) v.fits.within;
          });
  }

  -- What `set` does to the table: the old entry of the key goes, the oldest others go as far as
  -- the space demands, and the new entry comes last.
  pub record Stored (c : BytesCache M) (key bytes : Text)
      (r : BytesCache M × Outcome CacheError (Option BytesCacheEntry)) : Type 0 where
    pub kept : Entries
    pub evicted :
        Evicted
          (remove key (entries c.bytes_table))
          kept
          (length bytes - (c.total_capacity - sizes (remove key (entries c.bytes_table))))
    pub stored : entries r.0.bytes_table ≡ kept ++ (key, record { bytes = bytes }) ∷ []
    pub capacity : r.0.total_capacity ≡ c.total_capacity
    pub limit : r.0.entry_size_limit ≡ c.entry_size_limit
    pub result : r.1 ≡ ok none

  set_room :
      (c : BytesCache M) (key bytes : Text) (table : M)
      → length bytes ≤ c.entry_size_limit
      → free_size map (shifted c key) (length bytes)
        ≡ some (record c { bytes_table = table }, ok tt)
      → set map c key bytes
        ≡ some (
          record c { bytes_table = (map.insert table key (record { bytes = bytes })).0 },
          ok (map.insert table key (record { bytes = bytes })).1,
        )
  unfolding set insert_after
  set_room c key bytes table h e = rw (leb→not_ltb c.entry_size_limit (length bytes) h, e)

  -- On a valid cache, an image within the entry size limit is stored: `set` returns `Ok(None)`, the
  -- new entry is the newest, the old entry of its key is gone, and of the others the oldest are
  -- evicted, as many as are needed and no more.
  pub set-Stored :
      (c : BytesCache M) (key bytes : Text)
      → IsValid c
      → length bytes ≤ c.entry_size_limit
      → (r : BytesCache M × Outcome CacheError (Option BytesCacheEntry)) × (set map c key bytes
          ≡ some r)
        × Stored c key bytes r
  set-Stored c key bytes v h =
      let es = remove key (entries c.bytes_table) in
      let old = map.entries-shift_remove c.bytes_table key in
      let (table, run, left) =
        free_size_lem (shifted c key) (length bytes) (shifted-IsValid c key v)
          (omega (arith, v.limit)) in
      let need = length bytes - (c.total_capacity - sizes es) in
      let kept = evict es need in
      let left' : entries table ≡ kept =
        left ∙ ap (λ (xs : Entries). evict xs (length bytes - (c.total_capacity - sizes xs))) old in
      let split : Evicted es kept need = evict-Evicted es need (omega (arith, v.limit)) in
      let fresh : lookup key (entries table) ≡ none =
        ap (lookup key) left'
        ∙ (lookup-append_none key split.gone kept (
            ap (lookup key) (sym split.split)
            ∙ lookup-remove_self key (entries c.bytes_table) v.fits.distinct)).1 in
      (
        (
          record c { bytes_table = (map.insert table key (record { bytes = bytes })).0 },
          ok (map.insert table key (record { bytes = bytes })).1,
        ),
        set_room c key bytes table h run,
        record {
          kept = kept;
          evicted = split;
          stored =
              map.entries-insert table key (record { bytes = bytes })
              ∙ upsert_new key (record { bytes = bytes }) (entries table) fresh
              ∙ ap (λ (xs : Entries). xs ++ (key, record { bytes = bytes }) ∷ []) left';
          capacity = refl;
          limit = refl;
          result = ap ok (map.insert_previous table key (record { bytes = bytes }) ∙ fresh);
        },
      )

  -- the key of the new entry is not among the entries that were kept
  Stored-new :
      (c : BytesCache M) (key bytes : Text)
      {r : BytesCache M × Outcome CacheError (Option BytesCacheEntry)}
      → IsValid c
      → (s : Stored c key bytes r) → lookup key s.kept ≡ none
  Stored-new c key bytes v s =
      (lookup-append_none key s.evicted.gone s.kept (
        ap (lookup key) (sym s.evicted.split)
        ∙ lookup-remove_self key (entries c.bytes_table) v.fits.distinct)).1

  Stored-Fits :
      (c : BytesCache M) (key bytes : Text)
      {r : BytesCache M × Outcome CacheError (Option BytesCacheEntry)}
      → IsValid c
      → length bytes ≤ c.entry_size_limit
      → Stored c key bytes r
      → Fits c.total_capacity c.entry_size_limit (entries r.0.bytes_table)
  Stored-Fits c key bytes v h s =
      let es = remove key (entries c.bytes_table) in
      let split = s.evicted.split in
      let d : Distinct es = Distinct-remove key (entries c.bytes_table) v.fits.distinct in
      let w : Within c.entry_size_limit es =
        Within-remove c.entry_size_limit key (entries c.bytes_table) v.fits.within in
      subst (Fits c.total_capacity c.entry_size_limit) (sym s.stored) (record {
        room = omega (
          arith,
          sizes-append s.kept ((key, record { bytes = bytes }) ∷ []),
          sizes-append s.evicted.gone s.kept,
          ap sizes split,
          s.evicted.enough,
          sizes-remove-le key (entries c.bytes_table),
          v.fits.room,
          v.limit,
        );
        distinct =
            Distinct-snoc key (record { bytes = bytes }) s.kept
              (Distinct-append_right s.evicted.gone s.kept (subst Distinct split d))
              (Stored-new c key bytes v s);
        within =
            Within-snoc c.entry_size_limit key (record { bytes = bytes }) s.kept
              (Within-append_right c.entry_size_limit s.evicted.gone s.kept
                (subst (Within c.entry_size_limit) split w))
              h;
      })

  pub set_refused :
      (c : BytesCache M) (key bytes : Text)
      → c.entry_size_limit < length bytes
      → set map c key bytes ≡ some (c, err bytes_exceed_entry_size_limit)
  unfolding set
  set_refused c key bytes h = rw (lt→ltb _ _ h)

  -- `set` of bytes within the limit, on a valid cache
  pub set_ok :
      (c : BytesCache M) (key bytes : Text)
      → IsValid c
      → length bytes ≤ c.entry_size_limit
      → (c' : BytesCache M) × (set map c key bytes ≡ some (c', ok none))
        × IsValid c'
        × (c'.total_capacity ≡ c.total_capacity)
        × (get map c' key ≡ some (record { bytes = bytes }))
  unfolding get
  set_ok c key bytes v h =
      let (r, run, s) = set-Stored c key bytes v h in
      (
        r.0,
        run ∙ ap (λ (o : Outcome CacheError (Option BytesCacheEntry)). some (r.0, o)) s.result,
        record {
          word = rw s.capacity v.word;
          limit = rw (s.capacity, s.limit) v.limit;
          fits = rw (s.capacity, s.limit) (Stored-Fits c key bytes v h s);
        },
        s.capacity,
        map.get_lem r.0.bytes_table key
            ∙ ap (lookup key) s.stored
            ∙ lookup_last key (record { bytes = bytes }) s.kept (Stored-new c key bytes v s),
      )

  -- `set` on a valid cache returns (its loop ends, the `expect` in it is not reached, no
  -- subtraction wraps), and leaves a valid cache: within its capacity, each key once, each entry
  -- within the limit. It refuses exactly the bytes over the entry size limit, and then it leaves
  -- the cache as it was. The total capacity stays as configured.
  pub set-IsValid :
      (c : BytesCache M) (key bytes : Text)
      → IsValid c
      → (r : BytesCache M × Outcome CacheError (Option BytesCacheEntry)) × (set map c key bytes
          ≡ some r)
        × IsValid r.0
        × (r.0.total_capacity ≡ c.total_capacity)
        × ((length bytes ≤ c.entry_size_limit) × (r.1 ≡ ok none)
            ⊎ (c.entry_size_limit < length bytes) × (r ≡ (c, err bytes_exceed_entry_size_limit)))
  set-IsValid c key bytes v = elim (Bool-cases (ltb c.entry_size_limit (length bytes))) [
    | inl big ↦
        let h = ltb→lt _ _ big in
        ((c, err bytes_exceed_entry_size_limit), set_refused c key bytes h, v, refl, inr (h, refl))
    | inr small ↦
        let h : length bytes ≤ c.entry_size_limit =
          not_ltb→le c.entry_size_limit (length bytes) small in
        let (c', run, v', same, _) = set_ok c key bytes v h in
        ((c', ok none), run, v', same, inl (h, refl))
  ]

  -- What was stored last is what `get` returns for its key.
  pub get-set :
      (c : BytesCache M) (key bytes : Text)
      → IsValid c
      → length bytes ≤ c.entry_size_limit
      → (r : BytesCache M × Outcome CacheError (Option BytesCacheEntry)) × (set map c key bytes
          ≡ some r)
        × (get map r.0 key ≡ some (record { bytes = bytes }))
  get-set c key bytes v h =
      let (c', run, _, _, got) = set_ok c key bytes v h in ((c', ok none), run, got)

  built :
      (capacity limit : ℕ) {c : BytesCache M}
      → capacity < usize_mod
      → with_capacity_and_entry_size_limit map capacity limit ≡ ok c
      → IsValid c × (c.total_capacity ≡ capacity)
  unfolding with_capacity_and_entry_size_limit new
  built capacity limit {c} w e = elim (Bool-cases (ltb capacity limit)) [
    | inl big ↦ absurd (refused big)
    | inr small ↦
        subst (λ (d : BytesCache M). IsValid d × (d.total_capacity ≡ capacity)) (accepted small)
          (
            record {
              word = w;
              limit = not_ltb→le capacity limit small;
              fits =
                  subst (Fits capacity limit) (sym map.entries-new)
                    (record { room = omega arith; distinct = tt; within = tt });
            },
            refl,
          )
  ]
    where
      refused : ltb capacity limit ≡ true → ⊥
      refused big = ground arith

      accepted :
          ltb capacity limit ≡ false
          → record { bytes_table = map.new; total_capacity = capacity; entry_size_limit = limit }
            ≡ c
      accepted small = ground arith

  -- calls of `set` one after another, whatever each of them returns
  pub sets : List (Text × Text) → BytesCache M → Option (BytesCache M)
  sets [] c = some c
  sets ((key, bytes) ∷ calls) c = set map c key bytes >>=? λ r. sets calls r.0

  sets-IsValid :
      (calls : List (Text × Text)) (c : BytesCache M)
      → IsValid c
      → (c' : BytesCache M) × (sets calls c ≡ some c')
        × IsValid c'
        × (c'.total_capacity ≡ c.total_capacity)
  unfolding sets
  sets-IsValid [] c v = (c, refl, v, refl)
  sets-IsValid ((key, bytes) ∷ calls) c v =
      let (r, run, v', same, _) = set-IsValid c key bytes v in
      let (c', runs, valid, capacity) = sets-IsValid calls r.0 v' in
      (
        c',
        ap
              (λ o. o >>=? λ (x : BytesCache M × Outcome CacheError (Option BytesCacheEntry)).
                sets calls x.0)
              run
            ∙ runs,
        valid,
        capacity ∙ same,
      )

  -- A cache built with a capacity and an entry size limit, both `usize`, never holds more than its
  -- capacity, as `total_size` counts it, however often `set` is called and with whatever keys and
  -- bytes; each of those calls returns.
  pub total_size-sets :
      (capacity limit : ℕ) (calls : List (Text × Text)) {c : BytesCache M}
      → capacity < usize_mod
      → with_capacity_and_entry_size_limit map capacity limit ≡ ok c
      → (c' : BytesCache M) × (sets calls c ≡ some c') × (total_size map c' ≤ capacity)
  total_size-sets capacity limit calls {c} w e =
      let (v, size) = built capacity limit w e in
      let (c', run, valid, same) = sets-IsValid calls c v in
      (c', run, omega (arith, total_size-eq-sizes c' valid, valid.fits.room))
