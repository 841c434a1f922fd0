-- ===== src/Gc/Tally.antt =====
-- The numbers of entries that lie in each object, and the counts that one entry changes.
use viperblock.Prelude.{
  ℕ, suc, ◌+◌, ◌-◌, ◌≤◌, ◌<◌, ◌≡◌, refl, true, some, none, [], ◌∷◌, arith, length, ◌==◌,
  if◌then◌else◌, ltb,
}
use viperblock.Words.{u64, add64}
use viperblock.Dict.{Dict, find, insert, delete, find-insert, find-delete}
use viperblock.Lookup.{BlockLookup, Index, count_of, refer, unrefer, add_entry}

-- the number of entries that lie in an object

unfoldable pub refs : ℕ → Dict BlockLookup → ℕ
refs id [] = 0
refs id ((k, bl) ∷ m) = let n = refs id m in if bl.object_id == id then suc n else n

-- No key stands twice.
abbrev pub Unique : Dict BlockLookup → Type 0
Unique [] = Unit {0}
Unique ((k, bl) ∷ m) = (find k m ≡ none) × Unique m

-- The counts are kept, and are the numbers of entries.
pub record IsTallied (x : Index) : Type 0 where
  pub unique : Unique x.entries
  pub counts : Dict ℕ
  pub kept : x.gc_refcount ≡ some counts
  pub counted : (id : ℕ) → count_of id counts ≡ refs id x.entries

refs-bounded : (id : ℕ) (m : Dict BlockLookup) → refs id m ≤ length m
unfolding refs
refs-bounded id [] = omega arith
refs-bounded id ((k, bl) ∷ m) = ground (arith, refs-bounded id m)

refs-insert :
    (id k : ℕ) (e : BlockLookup) (m : Dict BlockLookup)
    → find k m ≡ none
    → refs id (insert k e m) ≡ (if e.object_id == id then suc (refs id m) else refs id m)
unfolding refs find insert
refs-insert id k e [] h = refl
refs-insert id k e ((j, w) ∷ m) h = ground (arith, h, refs-insert id k e m)

insert-Unique : (k : ℕ) (e : BlockLookup) (m : Dict BlockLookup) → Unique m → Unique (insert k e m)
unfolding insert find
insert-Unique k e [] u = (refl, tt)
insert-Unique k e ((j, w) ∷ m) (u, us) =
    ground (arith, u, us, find-insert k j e m, insert-Unique k e m us)

length-insert_le :
    (k : ℕ) (e : BlockLookup) (m : Dict BlockLookup) → length (insert k e m) ≤ suc (length m)
unfolding insert
length-insert_le k e [] = omega arith
length-insert_le k e ((j, w) ∷ m) = ground (arith, length-insert_le k e m)

pub delete-missing : (k : ℕ) (m : Dict BlockLookup) → find k m ≡ none → delete k m ≡ m
unfolding delete find
delete-missing k [] h = refl
delete-missing k ((j, w) ∷ m) h = ground (arith, h, delete-missing k m)

delete-Unique : (k : ℕ) (m : Dict BlockLookup) → Unique m → Unique (delete k m)
unfolding delete
delete-Unique k [] u = tt
delete-Unique k ((j, w) ∷ m) (u, us) =
    ground (arith, u, us, find-delete k j m, delete-Unique k m us)

refs-delete :
    (id k : ℕ) (e : BlockLookup) (m : Dict BlockLookup)
    → Unique m
    → find k m ≡ some e
    → refs id m ≡ (if e.object_id == id then suc (refs id (delete k m)) else refs id (delete k m))
unfolding refs find delete
refs-delete id k e [] u h = ground arith
refs-delete id k e ((j, w) ∷ m) (u, us) h =
    ground (arith, u, h, delete-missing k m, refs-delete id k e m us)

pub length-delete :
    (k : ℕ) (e : BlockLookup) (m : Dict BlockLookup)
    → Unique m
    → find k m ≡ some e
    → length m ≡ suc (length (delete k m))
unfolding find delete
length-delete k e [] u h = ground arith
length-delete k e ((j, w) ∷ m) (u, us) h =
    ground (arith, u, h, delete-missing k m, length-delete k e m us)

pub add_entry-IsTallied :
    (e : BlockLookup) (x : Index)
    → find e.start_block x.entries ≡ none
    → length x.entries + 1 < u64
    → IsTallied x
    → IsTallied (add_entry e x)
unfolding add_entry refer
add_entry-IsTallied e x missing room t =
    let n = add64 (count_of e.object_id t.counts) 1 in
    record {
      unique = insert-Unique e.start_block e x.entries t.unique;
      counts = insert e.object_id n t.counts;
      kept = rw t.kept refl;
      counted = λ id. ground (
        arith,
        room,
        find-insert e.object_id id n t.counts,
        t.counted id,
        t.counted e.object_id,
        refs-insert id e.start_block e x.entries missing,
        refs-bounded e.object_id x.entries,
      );
    }

pub drop_entry-IsTallied :
    (k : ℕ) (ex : BlockLookup) (x : Index)
    → find k x.entries ≡ some ex
    → IsTallied x
    → IsTallied
        (record { entries = delete k x.entries; gc_refcount = unrefer ex.object_id x.gc_refcount })
unfolding unrefer
drop_entry-IsTallied k ex x here t =
    let n = count_of ex.object_id t.counts in
    let positive : ltb 0 n ≡ true =
      ground
        (arith, t.counted ex.object_id, refs-delete ex.object_id k ex x.entries t.unique here) in
    record {
      unique = delete-Unique k x.entries t.unique;
      counts = insert ex.object_id (n - 1) t.counts;
      kept = rw (t.kept, positive) refl;
      counted = λ id. ground (
        arith,
        positive,
        find-insert ex.object_id id (n - 1) t.counts,
        t.counted id,
        t.counted ex.object_id,
        refs-delete id k ex x.entries t.unique here,
      );
    }

pub length-add_entry :
    (e : BlockLookup) (x : Index) → length (add_entry e x).entries ≤ length x.entries + 1
unfolding add_entry
length-add_entry e x = omega (arith, length-insert_le e.start_block e x.entries)
