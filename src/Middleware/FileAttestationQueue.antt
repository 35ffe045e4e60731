-- ===== src/Middleware/FileAttestationQueue.antt =====
-- packages/middleware/src/attestation-queue-file.ts: the attestation queue that two JSON files
-- mirror, the live entries in one and the dead letters beside it. A file is modelled by what its
-- bytes decode to, and each write replaces a file as a whole.
pub mod Counted
pub mod Durable
use g_gate.Prelude.{
  ℕ, Bool, true, false, ◌||◌, Option, none, some, List, [], ◌∷◌, length, map, max, if◌then◌else◌,
}
use g_gate.Prelude.Maps.{Map, lookup, insert, values, contains}
use g_gate.Prelude.Text.{Text, text_eq}
use g_gate.Middleware.AttestationQueue.{
  AttestationQueue, PendingAttestation, DeadLetteredAttestation, QueueOptions, or_default,
  new_queue, is_over_age, prune_expired, enqueue, remove, record_failure,
}
use g_gate.Middleware.AttestationQueue.Ops.{Op, enqueue_op, remove_op, failure_op, prune_op}

-- The queue file: an array, of whose items those that fail the shape guard are `none`; or anything
-- that is read as empty.
pub data QueueFile : Type 0 where
  no_entries : QueueFile
  entries : List (Option PendingAttestation) → QueueFile

-- The dead-letter file, with its count where that is a finite number.
pub data LetterFile : Type 0 where
  no_letters : LetterFile
  letters : Option ℕ → List (Option DeadLetteredAttestation) → LetterFile

pub record FileAttestationQueue : Type 0 where
  pub memory : AttestationQueue
  pub queue_file : QueueFile
  pub letter_file : LetterFile

-- `asPending`, of a record that passes the guard.
abbrev pub as_pending : PendingAttestation → PendingAttestation
as_pending p = record p { attempts = some (or_default p.attempts 0) }

abbrev pub load_items :
    List (Option PendingAttestation) → Map Text PendingAttestation → Map Text PendingAttestation
load_items [] m = m
load_items (none ∷ es) m = load_items es m
load_items (some p ∷ es) m = load_items es (insert p.payment_tx_hash (as_pending p) m)

abbrev pub load_letters : List (Option DeadLetteredAttestation) → List DeadLetteredAttestation
load_letters [] = []
load_letters (none ∷ ds) = load_letters ds
load_letters (some d ∷ ds) = record d { entry = as_pending d.entry } ∷ load_letters ds

abbrev pub read_entries : QueueFile → Map Text PendingAttestation
read_entries no_entries = []
read_entries (entries es) = load_items es []

abbrev pub read_letters : LetterFile → List DeadLetteredAttestation
read_letters no_letters = []
read_letters (letters total ds) = load_letters ds

-- `readDeadLetterTotal`.
abbrev pub read_total : LetterFile → ℕ
read_total no_letters = 0
read_total (letters none ds) = 0
read_total (letters (some total) ds) = total

-- `load`, into a queue that the options made.
unfoldable pub load : QueueFile → LetterFile → AttestationQueue → AttestationQueue
load queue_file letter_file q = record q {
  items = read_entries queue_file;
  dead_letter_log = read_letters letter_file;
  dead_lettered_total = max (read_total letter_file) (length (read_letters letter_file));
}

-- The constructor; `none` is the `RangeError`.
unfoldable pub boot : QueueOptions → QueueFile → LetterFile → Option FileAttestationQueue
boot opts queue_file letter_file = elim (new_queue opts) [
  | none ↦ none
  | some q ↦ some (record {
    memory = load queue_file letter_file q;
    queue_file = queue_file;
    letter_file = letter_file;
  })
]

-- The two writes of `persist`, the dead letters first.
unfoldable pub write_letters : FileAttestationQueue → FileAttestationQueue
write_letters s = record s {
  letter_file = letters (some s.memory.dead_lettered_total) (map some s.memory.dead_letter_log);
}

unfoldable pub write_entries : FileAttestationQueue → FileAttestationQueue
write_entries s = record s { queue_file = entries (map some (values s.memory.items)) }

unfoldable pub persist : AttestationQueue → FileAttestationQueue → FileAttestationQueue
persist q s = write_entries (write_letters (record s { memory = q }))

-- `moved > 0`: some entry is over age.
abbrev pub any_over_age : ℕ → ℕ → List PendingAttestation → Bool
any_over_age now max_age_ms [] = false
any_over_age now max_age_ms (e ∷ es) =
    is_over_age now max_age_ms e || any_over_age now max_age_ms es

-- The base class's calls, with the `persist` of each.
unfoldable pub step : Op → FileAttestationQueue → FileAttestationQueue
step (enqueue_op now item) s = persist (enqueue now item s.memory) s
step (remove_op hash) s =
    if contains hash s.memory.items
    then persist (remove hash s.memory) s
    else record s { memory = remove hash s.memory }
step (failure_op now hash terminal error) s =
    let charged = (record_failure now hash terminal error s.memory).1 in
    if contains hash s.memory.items then persist charged s else record s { memory = charged }
step (prune_op now) s =
    if any_over_age now s.memory.max_age_ms (values s.memory.items)
    then persist (prune_expired now s.memory) s
    else record s { memory = prune_expired now s.memory }

unfoldable pub run : List Op → FileAttestationQueue → FileAttestationQueue
run [] s = s
run (op ∷ ops) s = run ops (step op s)
