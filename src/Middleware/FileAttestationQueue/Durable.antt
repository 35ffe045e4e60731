-- ===== src/Middleware/FileAttestationQueue/Durable.antt =====
-- A restart of the file-backed attestation queue loses nothing
-- (packages/middleware/src/attestation-queue-file.ts).
use g_gate.Prelude.{
  ℕ, ◌≤◌, ◌≡◌, refl, sym, subst, ap, ap₂, ◌∙◌, inl, inr, Bool, false, Option, none, some, List, [],
  ◌∷◌, map, max, length, arith, Option-cases, Bool-cases, All,
}
use g_gate.Prelude.Maps
use g_gate.Prelude.Maps.{Map, lookup, insert, erase, values, insert_all, contains}
use g_gate.Prelude.Text.{Text, text_eq}
use g_gate.Middleware.AttestationQueue.{
  AttestationQueue, PendingAttestation, DeadLetteredAttestation, IsValid, QueueOptions, or_default,
  new_queue, prune_from, prune_expired, remove, record_failure,
}
use g_gate.Middleware.AttestationQueue.Ops
use g_gate.Middleware.AttestationQueue.Ops.{
  Op, enqueue_op, remove_op, failure_op, prune_op, step-IsValid,
}
use g_gate.Middleware.FileAttestationQueue.{
  FileAttestationQueue, QueueFile, no_entries, entries, LetterFile, no_letters, letters, as_pending,
  load_items, load_letters, read_entries, read_letters, load, boot, persist, write_letters,
  write_entries, any_over_age, step, run,
}
use g_gate.Middleware.FileAttestationQueue.Counted.{
  IsCounted, IsCountedLetter, IsBudgeted, step-IsBudgeted, All-insert,
}

as_pending_same : (e : PendingAttestation) → IsCounted e → as_pending e ≡ e
as_pending_same e h = elim (Option-cases e.attempts) [
  | inl n ↦ absurd (ground (arith, h, n))
  | inr (k, s) ↦ ap (λ a. record e { attempts = a }) (ap (λ a. some (or_default a 0)) s ∙ sym s)
]

load_items-values :
    (vs : List PendingAttestation) (m : Map Text PendingAttestation)
    → All IsCounted vs
    → load_items (map some vs) m ≡ insert_all (λ e. e.payment_tx_hash) vs m
load_items-values [] m c = refl
load_items-values (v ∷ vs) m (c, cs) =
    load_items-values vs (insert v.payment_tx_hash (as_pending v) m) cs
    ∙ ap (λ e. insert_all (λ i. i.payment_tx_hash) vs (insert v.payment_tx_hash e m))
        (as_pending_same v c)

load_letters-same :
    (ds : List DeadLetteredAttestation) → All IsCountedLetter ds → load_letters (map some ds) ≡ ds
load_letters-same [] c = refl
load_letters-same (d ∷ ds) (c, cs) =
    ap₂ (λ e es. record d { entry = e } ∷ es) (as_pending_same d.entry c) (load_letters-same ds cs)

-- What was persisted is what a boot reads.
abbrev pub IsMirrored : FileAttestationQueue → Type 0
IsMirrored s = load s.queue_file s.letter_file s.memory ≡ s.memory

persist-IsMirrored :
    (q : AttestationQueue) (s : FileAttestationQueue)
    → IsValid q
    → IsBudgeted q
    → IsMirrored (persist q s)
unfolding persist write_letters write_entries load
persist-IsMirrored q s v b =
    ap₂
      (λ i l. record q {
        items = i;
        dead_letter_log = l;
        dead_lettered_total = max q.dead_lettered_total (length l);
      })
      (load_items-values (values q.items) [] b.live
        ∙ Maps.insert_all-values (λ e. e.payment_tx_hash) q.items v.keyed v.unique)
      (load_letters-same q.dead_letter_log b.dead)
    ∙ ap (λ t. record q { dead_lettered_total = t }) (omega (arith, v.counted))

prune_from_none :
    (now : ℕ) (es : List PendingAttestation) (q : AttestationQueue)
    → any_over_age now q.max_age_ms es ≡ false
    → prune_from now es q ≡ q
unfolding prune_from
prune_from_none now [] q h = refl
prune_from_none now (e ∷ es) q h = ground (arith, h, prune_from_none now es q)

remove_absent :
    (hash : Text) (q : AttestationQueue) → lookup hash q.items ≡ none → remove hash q ≡ q
unfolding remove
remove_absent hash q n = ap (λ i. record q { items = i }) (Maps.erase_absent hash q.items n)

record_failure_absent :
    (now : ℕ) (hash : Text) (terminal : Bool) (error : Text) (q : AttestationQueue)
    → lookup hash q.items ≡ none
    → (record_failure now hash terminal error q).1 ≡ q
unfolding record_failure
record_failure_absent now hash terminal error q n = rw (n, record_failure) refl

prune_expired_none :
    (now : ℕ) (q : AttestationQueue)
    → any_over_age now q.max_age_ms (values q.items) ≡ false
    → prune_expired now q ≡ q
unfolding prune_expired
prune_expired_none now q n = prune_from_none now (values q.items) q n

-- What one call does: the memory moves as that of the in-memory queue, and the files follow.
record Refines (op : Op) (s : FileAttestationQueue) : Type 0 where
  moved : (step op s).memory ≡ Ops.step op s.memory
  mirrored : IsMirrored (step op s)

-- A call that leaves the memory as it was leaves the files so too.
unmoved-Refines :
    (op : Op) (s : FileAttestationQueue)
    → IsMirrored s
    → step op s ≡ record s { memory = Ops.step op s.memory }
    → Ops.step op s.memory ≡ s.memory
    → Refines op s
unmoved-Refines op s m e same = record {
  moved = ap (λ t. t.memory) e;
  mirrored = subst IsMirrored (sym (e ∙ ap (λ q. record s { memory = q }) same)) m;
}

persisted-Refines :
    (op : Op) (s : FileAttestationQueue)
    → IsValid s.memory
    → IsBudgeted s.memory
    → step op s ≡ persist (Ops.step op s.memory) s
    → Refines op s
unfolding persist write_letters write_entries
persisted-Refines op s v b e = record {
  moved = ap (λ t. t.memory) e;
  mirrored = subst IsMirrored (sym e) (
      persist-IsMirrored (Ops.step op s.memory) s (step-IsValid op s.memory v)
        (step-IsBudgeted op s.memory b));
}

absent :
    (hash : Text) (m : Map Text PendingAttestation) → contains hash m ≡ false → lookup hash m ≡ none
unfolding contains
absent hash m h = ground (arith, h)

step-Refines :
    (op : Op) (s : FileAttestationQueue)
    → IsValid s.memory
    → IsBudgeted s.memory
    → IsMirrored s
    → Refines op s
unfolding step Ops.step
step-Refines (enqueue_op now item) s v b m = persisted-Refines (enqueue_op now item) s v b refl
step-Refines (remove_op hash) s v b m = elim (Bool-cases (contains hash s.memory.items)) [
  | inl y ↦ persisted-Refines (remove_op hash) s v b (rw y refl)
  | inr n ↦
      unmoved-Refines (remove_op hash) s m (rw n refl)
        (remove_absent hash s.memory (absent hash s.memory.items n))
]
step-Refines (failure_op now hash terminal error) s v b m =
    elim (Bool-cases (contains hash s.memory.items)) [
      | inl y ↦ persisted-Refines (failure_op now hash terminal error) s v b (rw y refl)
      | inr n ↦
          unmoved-Refines (failure_op now hash terminal error) s m (rw n refl)
            (record_failure_absent now hash terminal error s.memory (absent hash s.memory.items n))
    ]
step-Refines (prune_op now) s v b m =
    elim (Bool-cases (any_over_age now s.memory.max_age_ms (values s.memory.items))) [
      | inl y ↦ persisted-Refines (prune_op now) s v b (rw y refl)
      | inr n ↦ unmoved-Refines (prune_op now) s m (rw n refl) (prune_expired_none now s.memory n)
    ]

-- The same from any valid queue that its files mirror.
run-loads :
    (ops : List Op) (s : FileAttestationQueue)
    → IsValid s.memory
    → IsBudgeted s.memory
    → IsMirrored s
    → ((run ops s).memory ≡ Ops.run ops s.memory) × IsMirrored (run ops s)
unfolding run Ops.run
run-loads [] s v b m = (refl, m)
run-loads (op ∷ ops) s v b m =
    let r = step-Refines op s v b m in
    let (memory, disk) =
      run-loads ops (step op s) (rw r.moved (step-IsValid op s.memory v))
        (rw r.moved (step-IsBudgeted op s.memory b)) r.mirrored in
    (memory ∙ ap (Ops.run ops) r.moved, disk)

load_items-IsKeyed :
    (es : List (Option PendingAttestation)) (m : Map Text PendingAttestation)
    → Maps.IsUnique m
    → Maps.IsKeyed (λ e. e.payment_tx_hash) m
    → All IsCounted (values m)
    → Maps.IsUnique (load_items es m)
      × Maps.IsKeyed (λ e. e.payment_tx_hash) (load_items es m)
      × All IsCounted (values (load_items es m))
load_items-IsKeyed [] m u k c = (u, k, c)
load_items-IsKeyed (none ∷ es) m u k c = load_items-IsKeyed es m u k c
load_items-IsKeyed (some e ∷ es) m u k c =
    load_items-IsKeyed es (insert e.payment_tx_hash (as_pending e) m)
      (Maps.insert-IsUnique e.payment_tx_hash (as_pending e) m u)
      (Maps.insert-IsKeyed (λ i. i.payment_tx_hash) (as_pending e) m k)
      (All-insert e.payment_tx_hash (as_pending e) m refl c)

load_letters-IsCounted :
    (ds : List (Option DeadLetteredAttestation)) → All IsCountedLetter (load_letters ds)
load_letters-IsCounted [] = tt
load_letters-IsCounted (none ∷ ds) = load_letters-IsCounted ds
load_letters-IsCounted (some d ∷ ds) = (refl, load_letters-IsCounted ds)

-- What a queue that was read from its files is, as long as these hold no more dead letters than
-- it retains.
load-IsValid :
    (f : QueueFile) (g : LetterFile) (q : AttestationQueue)
    → length (read_letters g) ≤ q.max_dead_letters
    → IsValid (load f g q) × IsBudgeted (load f g q)
unfolding load
load-IsValid f g q short =
    let (u, k, c) = read_entries-IsKeyed f in
    (
      record { unique = u; keyed = k; capped = short; counted = omega arith },
      record { live = c; dead = read_letters-IsCounted g },
    )
  where
    read_entries-IsKeyed :
        (f : QueueFile)
        → Maps.IsUnique (read_entries f)
          × Maps.IsKeyed (λ e. e.payment_tx_hash) (read_entries f)
          × All IsCounted (values (read_entries f))
    read_entries-IsKeyed no_entries = (tt, tt, tt)
    read_entries-IsKeyed (entries es) = load_items-IsKeyed es [] tt tt tt

    read_letters-IsCounted : (g : LetterFile) → All IsCountedLetter (read_letters g)
    read_letters-IsCounted no_letters = tt
    read_letters-IsCounted (letters total ds) = load_letters-IsCounted ds

some_inj : {a b : FileAttestationQueue} → Option.some a ≡ some b → a ≡ b
some_inj h = cc

boot-load :
    (opts : QueueOptions) (f : QueueFile) (g : LetterFile) (s : FileAttestationQueue)
    → boot opts f g ≡ some s
    → (q : AttestationQueue) × (s ≡ record { memory = load f g q; queue_file = f; letter_file = g })
unfolding boot
boot-load opts f g s h = go (new_queue opts) h
  where
    go :
        (o : Option AttestationQueue)
        → (elim o [
          | none ↦ none
          | some q ↦ some (record { memory = load f g q; queue_file = f; letter_file = g })
        ])
          ≡ Option.some s
        → (q : AttestationQueue) × (s
            ≡ record { memory = load f g q; queue_file = f; letter_file = g })
    go none e = cc
    go (some q) e = (q, some_inj (sym e))

reload-IsMirrored :
    (f : QueueFile) (g : LetterFile) (q : AttestationQueue)
    → IsMirrored (record { memory = load f g q; queue_file = f; letter_file = g })
unfolding load
reload-IsMirrored f g q = refl

loaded_short :
    (f : QueueFile) (g : LetterFile) (q : AttestationQueue)
    → length (load f g q).dead_letter_log ≤ (load f g q).max_dead_letters
    → length (read_letters g) ≤ q.max_dead_letters
unfolding load
loaded_short f g q h = h

-- From a boot of the file-backed queue, if its files held no more dead letters than it retains,
-- after any sequence of calls the memory is what the in-memory queue would hold, and the two files
-- read back as exactly the same live entries with their spent attempts, the same dead letters and
-- the same count: no restart loses an attestation or gives one a fresh budget.
pub restart-run :
    (opts : QueueOptions) (f : QueueFile) (g : LetterFile) (s : FileAttestationQueue)
    (ops : List Op)
    → boot opts f g ≡ some s
    → length s.memory.dead_letter_log ≤ s.memory.max_dead_letters
    → ((run ops s).memory ≡ Ops.run ops s.memory)
      × (load (run ops s).queue_file (run ops s).letter_file (run ops s).memory
          ≡ (run ops s).memory)
restart-run opts f g s ops h short =
    let (q, e) = boot-load opts f g s h in
    let short' = subst (λ t. length t.memory.dead_letter_log ≤ t.memory.max_dead_letters) e short in
    let (valid, budgeted) = load-IsValid f g q (loaded_short f g q short') in
    run-loads ops s (subst (λ t. IsValid t.memory) (sym e) valid)
      (subst (λ t. IsBudgeted t.memory) (sym e) budgeted)
      (subst IsMirrored (sym e) (reload-IsMirrored f g q))
