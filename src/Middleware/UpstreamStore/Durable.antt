-- ===== src/Middleware/UpstreamStore/Durable.antt =====
-- A restart keeps every mapping (packages/middleware/src/upstream-store.ts).
use g_gate.Prelude.{
  ℕ, ◌^◌, ◌<◌, ◌≡◌, refl, ◌∙◌, Bool, true, none, some, List, [], ◌∷◌, map, arith, length, le→leb,
  if◌then◌else◌, ◌==◌, All, nat_eq,
}
use g_gate.Prelude.Maps
use g_gate.Prelude.Maps.{Map, lookup, insert, erase, contains, lookup-insert, insert-IsUnique}
use g_gate.Prelude.Text.{Text}
use g_gate.Prelude.Decimal.{decimal, big_int-decimal, is_digits-decimal, decimal-length}
use g_gate.Middleware.UpstreamStore.{
  UpstreamStore, load_entries, load_sync, insert_sorted, sort_by_id, list, entry_of, persist, get,
  set,
}

-- Sorting keeps what is found under each key, and the keys unique.
lookup-insert_sorted :
    (k : ℕ) (e : ℕ × Text) (m : List (ℕ × Text))
    → lookup e.0 m ≡ none
    → lookup k (insert_sorted e m) ≡ lookup k (e ∷ m)
unfolding lookup insert_sorted
lookup-insert_sorted k e [] n = refl
lookup-insert_sorted k e (f ∷ m) n = ground (arith, lookup-insert_sorted k e m)

lookup-sort : (k : ℕ) (m : Map ℕ Text) → Maps.IsUnique m → lookup k (sort_by_id m) ≡ lookup k m
unfolding lookup sort_by_id
lookup-sort k [] u = refl
lookup-sort k ((i, url) ∷ m) u =
    lookup-insert_sorted k (i, url) (sort_by_id m) (lookup-sort i m u.1 ∙ u.0)
    ∙ ground (arith, lookup-sort k m u.1)

IsUnique-insert_sorted :
    (e : ℕ × Text) (m : List (ℕ × Text))
    → lookup e.0 m ≡ none
    → Maps.IsUnique m
    → Maps.IsUnique (insert_sorted e m)
unfolding lookup insert_sorted
IsUnique-insert_sorted e [] n u = (refl, tt)
IsUnique-insert_sorted e (f ∷ m) n u =
    ground (arith, IsUnique-insert_sorted e m, lookup-insert_sorted f.0 e m)

IsUnique-sort : (m : Map ℕ Text) → Maps.IsUnique m → Maps.IsUnique (sort_by_id m)
unfolding sort_by_id
IsUnique-sort [] u = tt
IsUnique-sort ((i, url) ∷ m) u =
    IsUnique-insert_sorted (i, url) (sort_by_id m) (lookup-sort i m u.1 ∙ u.0) (IsUnique-sort m u.1)

-- Setting the pairs one after the other.
insert_pairs : List (ℕ × Text) → Map ℕ Text → Map ℕ Text
insert_pairs [] m = m
insert_pairs ((id, url) ∷ es) m = insert_pairs es (insert id url m)

lookup-insert_pairs :
    (k : ℕ) (es : List (ℕ × Text)) (m : Map ℕ Text)
    → Maps.IsUnique es
    → lookup k (insert_pairs es m) ≡ elim (lookup k es) [ none ↦ lookup k m | some url ↦ some url ]
unfolding lookup insert_pairs
lookup-insert_pairs k [] m u = refl
lookup-insert_pairs k ((id, url) ∷ es) m u =
    ground (arith, lookup-insert_pairs k es (insert id url m) u.1, lookup-insert k id url m)

-- What the check at the boot accepts of a mapping, and the ids that fit the pattern of the keys.
abbrev pub IsLoadable : (Text → ℕ → Bool) → ℕ × Text → Type 0
IsLoadable validate (id, url) = (id < 10 ^ 15) × (validate url id ≡ true)

load_entries-entry_of :
    (validate : Text → ℕ → Bool) (es : List (ℕ × Text)) (m : Map ℕ Text)
    → All (IsLoadable validate) es
    → load_entries validate (map entry_of es) m ≡ some (insert_pairs es m)
unfolding load_entries insert_pairs
load_entries-entry_of validate [] m h = refl
load_entries-entry_of validate ((id, url) ∷ es) m h =
    rw
      (
        is_digits-decimal id,
        big_int-decimal id,
        le→leb (length (decimal id)) 15 (decimal-length 14 id h.0.0),
        h.0.1,
      )
      (load_entries-entry_of validate es (insert id url m) h.1)

All-insert_sorted :
    (P : ℕ × Text → Type 0) (e : ℕ × Text) (es : List (ℕ × Text))
    → P e
    → All P es
    → All P (insert_sorted e es)
unfolding insert_sorted
All-insert_sorted P e [] p h = (p, tt)
All-insert_sorted P e (f ∷ es) p h = ground (arith, All-insert_sorted P e es)

All-sort : (P : ℕ × Text → Type 0) (es : List (ℕ × Text)) → All P es → All P (sort_by_id es)
unfolding sort_by_id
All-sort P [] h = tt
All-sort P (e ∷ es) h = All-insert_sorted P e (sort_by_id es) h.0 (All-sort P es h.1)

load_sync-persist :
    (validate : Text → ℕ → Bool) (s : UpstreamStore) (k : ℕ)
    → Maps.IsUnique s.map
    → All (IsLoadable validate) s.map
    → (m : Map ℕ Text) × (load_sync validate (persist s).file ≡ some m) × (lookup k m ≡ get k s)
unfolding load_sync persist list get lookup
load_sync-persist validate s k u h = (
  insert_pairs (sort_by_id s.map) [],
  load_entries-entry_of validate (sort_by_id s.map) [] (All-sort _ s.map h),
  lookup-insert_pairs k (sort_by_id s.map) [] (IsUnique-sort s.map u) ∙ found,
)
  where
    found :
        (elim (lookup k (sort_by_id s.map)) [ none ↦ lookup k [] | some url ↦ some url ])
        ≡ lookup k s.map
    found = ground (arith, lookup-sort k s.map u)

All-insert :
    (P : ℕ × Text → Type 0) (id : ℕ) (url : Text) (es : Map ℕ Text)
    → P (id, url)
    → All P es
    → All P (insert id url es)
unfolding insert
All-insert P id url [] p h = (p, tt)
All-insert P id url (e ∷ es) p h = ground (arith, All-insert P id url es)

-- When every mapping passes the check at the boot and every id has at most fifteen digits, a
-- restart after a mapping was set reads back every mapping: the new one under its id, and all
-- others as they were.
pub load_sync-set :
    (validate : Text → ℕ → Bool) (id : ℕ) (url : Text) (s : UpstreamStore) (k : ℕ)
    → Maps.IsUnique s.map
    → All (IsLoadable validate) s.map
    → IsLoadable validate (id, url)
    → (m : Map ℕ Text) × (load_sync validate (set id url s).file ≡ some m)
      × (lookup k m ≡ (if id == k then some url else get k s))
unfolding set get
load_sync-set validate id url s k u h p =
    let (m, read, same) =
      load_sync-persist validate (record s { map = insert id url s.map }) k
        (insert-IsUnique id url s.map u) (All-insert _ id url s.map p h) in
    (m, read, same ∙ lookup-insert k id url s.map)
