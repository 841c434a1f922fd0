-- ===== src/Store/View/Cycle.antt =====
-- One block through all of its states, as the reading operations answer.
use viperblock.Prelude.{
  ℕ, ◌<◌, ◌≡◌, ◌||◌, refl, subst, Bool, true, false, none, some, List, [], arith, ltb, lt→ltb,
  if◌then◌else◌,
}
use viperblock.Block.{BlockEntry, BlockState, same_state}
use viperblock.Store.{Store, entry, put}
use viperblock.Store.View.{IsValid, entry-put}
use viperblock.Store.View.Writers.{put-IsValid}
use viperblock.Store.Readers.{found, single_of, read_single, get_persisted_info}
use viperblock.Store.Writers.{
  entry_or_zero, hot_entry, update_if, write_with_seq_num, mark_pending, mark_persisted, cache,
  evict_cache,
}

-- a block with this entry
record Shows (s : Store) (b : ℕ) (e : BlockEntry) : Type 0 where
  valid : IsValid s
  here : entry s b ≡ some e

put-Shows : (s : Store) (b : ℕ) (e : BlockEntry) → IsValid s → Shows (put s b e) b e
put-Shows s b e v = record {
  valid = put-IsValid s v b e;
  here = let at = entry-put s v.sharded b e b in ground (arith, at);
}

next-Shows :
    (s : Store) (b : ℕ) (e : BlockEntry) (test : BlockEntry → Bool)
    (change : BlockEntry → BlockEntry)
    → Shows s b e
    → test e ≡ true
    → Shows (update_if s b test change).0 b (change e)
next-Shows s b e test change w t = rw (w.here, update_if, t) (put-Shows s b (change e) w.valid)

single-Shows :
    (s : Store) (b : ℕ) (e : BlockEntry) → Shows s b e → (read_single s b).1 ≡ single_of e e.state
unfolding read_single
single-Shows s b e w = ground (arith, w.here)

module _ (s : Store) (b : ℕ) (q : ℕ) (bytes : List ℕ) (object_id offset : ℕ) (copy : List ℕ) where
  abbrev pub written : Store
  written = write_with_seq_num s b bytes q

  abbrev pub pended : Store
  pended = (mark_pending written b).0

  abbrev pub placed : Store
  placed = (mark_persisted pended b object_id offset q).0

  abbrev pub cached : Store
  cached = (cache placed b copy).0

  abbrev pub evicted : Store
  evicted = (evict_cache cached b).0

  abbrev at_rest : BlockEntry
  at_rest = record {
    bytes = [];
    seq_num = q;
    object_id = object_id;
    object_offset = offset;
    state = BlockState.persisted;
  }

  written-Shows : IsValid s → (entry_or_zero s b).seq_num < q → Shows written b (hot_entry bytes q)
  unfolding write_with_seq_num
  written-Shows v newer =
      subst (Shows written b)
        (chosen (ltb (entry_or_zero s b).seq_num q) (hot_entry bytes q) (entry_or_zero s b)
          (lt→ltb _ _ newer))
        (put-Shows s b
          (if ltb (entry_or_zero s b).seq_num q then hot_entry bytes q else entry_or_zero s b) v)
    where
      chosen : (t : Bool) (x y : BlockEntry) → t ≡ true → (if t then x else y) ≡ x
      chosen true x y h = refl
      chosen false x y h = cc

  pended-Shows :
      Shows written b (hot_entry bytes q)
      → Shows pended b (record {
        bytes = bytes;
        seq_num = q;
        object_id = 0;
        object_offset = 0;
        state = BlockState.pending;
      })
  unfolding mark_pending
  pended-Shows w = next-Shows written b (hot_entry bytes q) _ _ w refl

  placed-Shows :
      Shows pended b (record {
        bytes = bytes;
        seq_num = q;
        object_id = 0;
        object_offset = 0;
        state = BlockState.pending;
      })
      → Shows placed b at_rest
  unfolding mark_persisted
  placed-Shows w = next-Shows pended b _ _ _ w (ground arith)

  cached-Shows :
      Shows placed b at_rest
      → Shows cached b (record at_rest { state = BlockState.cached; bytes = copy })
  unfolding cache
  cached-Shows w = next-Shows placed b at_rest _ _ w refl

  evicted-Shows :
      Shows cached b (record at_rest { state = BlockState.cached; bytes = copy })
      → Shows evicted b at_rest
  unfolding evict_cache
  evicted-Shows w = next-Shows cached b _ _ _ w refl

  info-Shows :
      (t : Store) (e : BlockEntry)
      → Shows t b e
      → get_persisted_info t b ≡ (
          if same_state e.state BlockState.persisted || same_state e.state BlockState.cached
          then some (e.object_id, e.object_offset)
          else none)
  unfolding get_persisted_info
  info-Shows t e w = ground (arith, w.here)

  -- A block that is written under a number newer than its own, in a valid store, is then marked
  -- Pending, Persisted under that number, cached and evicted: after each step ReadSingle answers
  -- with the bytes and the state of that step, and GetPersistedInfo with the place from
  -- MarkPersisted on, and with none before.
  pub read_single-cycle :
      IsValid s
      → (entry_or_zero s b).seq_num < q
      → ((read_single written b).1 ≡ found bytes BlockState.hot)
        × (get_persisted_info written b ≡ none)
        × ((read_single pended b).1 ≡ found bytes BlockState.pending)
        × (get_persisted_info pended b ≡ none)
        × ((read_single placed b).1 ≡ found [] BlockState.persisted)
        × (get_persisted_info placed b ≡ some (object_id, offset))
        × ((read_single cached b).1 ≡ found copy BlockState.cached)
        × (get_persisted_info cached b ≡ some (object_id, offset))
        × ((read_single evicted b).1 ≡ found [] BlockState.persisted)
        × (get_persisted_info evicted b ≡ some (object_id, offset))
  read_single-cycle v newer =
      let w = written-Shows v newer in
      let p = pended-Shows w in
      let d = placed-Shows p in
      let c = cached-Shows d in
      let e = evicted-Shows c in
      (
        single-Shows written b _ w,
        info-Shows written _ w,
        single-Shows pended b _ p,
        info-Shows pended _ p,
        single-Shows placed b _ d,
        info-Shows placed _ d,
        single-Shows cached b _ c,
        info-Shows cached _ c,
        single-Shows evicted b _ e,
        info-Shows evicted _ e,
      )
