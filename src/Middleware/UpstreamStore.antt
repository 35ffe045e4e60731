-- ===== src/Middleware/UpstreamStore.antt =====
-- packages/middleware/src/upstream-store.ts: the upstream of each service, mirrored by a JSON
-- object in a file. The file is modelled by what its bytes decode to; writes are whole and in
-- the order of the calls, which the queue and the rename give.
pub mod Durable
use g_gate.Prelude.{
  ℕ, Bool, true, false, ◌&&◌, Option, none, some, List, [], ◌∷◌, map, length, leb, ltb,
  if◌then◌else◌, nat_eq,
}
use g_gate.Prelude.Maps.{Map, lookup, insert, erase, contains}
use g_gate.Prelude.Text.{Text}
use g_gate.Prelude.Decimal.{big_int, decimal, is_digits}

-- The entries of the object in the file; a value that is no string is `none`.
pub data UpstreamFile : Type 0 where
  missing corrupt not_an_object : UpstreamFile
  object : List (Text × Option Text) → UpstreamFile

pub record UpstreamStore : Type 0 where
  pub map : Map ℕ Text
  pub file : UpstreamFile

-- `/^\d{1,15}$/`.
abbrev pub is_service_key : Text → Bool
is_service_key key = is_digits key && leb (length key) 15

unfoldable pub load_entries :
    (Text → ℕ → Bool) → List (Text × Option Text) → Map ℕ Text → Option (Map ℕ Text)
load_entries validate [] m = some m
load_entries validate ((key, none) ∷ rest) m = none
load_entries validate ((key, some url) ∷ rest) m =
    let next =
      load_entries validate rest
        (if validate url (big_int key) then insert (big_int key) url m else m) in
    if is_service_key key then next else none

-- `loadSync`; `none` is the error that stops the boot.
unfoldable pub load_sync : (Text → ℕ → Bool) → UpstreamFile → Option (Map ℕ Text)
load_sync validate missing = some []
load_sync validate corrupt = none
load_sync validate not_an_object = none
load_sync validate (object entries) = load_entries validate entries []

-- `list`: by ascending service id.
unfoldable pub insert_sorted : ℕ × Text → List (ℕ × Text) → List (ℕ × Text)
insert_sorted e [] = e ∷ []
insert_sorted e (f ∷ fs) =
    let rest = insert_sorted e fs in if leb e.0 f.0 then e ∷ f ∷ fs else f ∷ rest

unfoldable pub sort_by_id : List (ℕ × Text) → List (ℕ × Text)
sort_by_id [] = []
sort_by_id (e ∷ es) = insert_sorted e (sort_by_id es)

unfoldable pub list : UpstreamStore → List (ℕ × Text)
unfolding sort_by_id
list s = sort_by_id s.map

abbrev pub entry_of : ℕ × Text → Text × Option Text
entry_of (id, url) = (decimal id, some url)

-- `persist`: the object of the listed mappings.
unfoldable pub persist : UpstreamStore → UpstreamStore
unfolding list
persist s = record s { file = object (map entry_of (list s)) }

unfoldable pub get : ℕ → UpstreamStore → Option Text
get id s = lookup id s.map

unfoldable pub set : ℕ → Text → UpstreamStore → UpstreamStore
unfolding persist
set id url s = persist (record s { map = insert id url s.map })

unfoldable pub delete : ℕ → UpstreamStore → UpstreamStore
unfolding persist
delete id s = if contains id s.map then persist (record s { map = erase id s.map }) else s
