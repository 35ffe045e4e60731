-- ===== src/Middleware/AttestationErrors/Causes.antt =====
-- packages/middleware/src/attestation-queue.ts: what describeErrorChain collects, without the set of
-- visited objects.
use g_gate.Prelude.{
  ℕ, zero, suc, ◌≡◌, ◌⊎◌, ◌↔◌, refl, sym, ap, subst, inl, inr, Empty, Bool, true, false, Option,
  none, some, List, [], ◌∷◌, ◌++◌, ◌==◌, if◌then◌else◌, arith, Among, Bool-cases,
}
use g_gate.Prelude.Text.{Text}
use g_gate.Middleware.AttestationErrors.{
  Thrown, nullish, primitive, text, object, ErrorObject, is_seen, text_part, object_parts,
  chain_parts, error_parts,
}

-- What the fields of one error object say.
abbrev pub SaysItself : ErrorObject → Text → Type 0
SaysItself e s =
    (((e.message ≡ some s) ⊎ (e.short_message ≡ some s)) ⊎ (e.details ≡ some s))
    ⊎ (e.error_name ≡ some s)

-- What an error says within so many links of its chain of causes.
abbrev pub Says : ℕ → (ℕ → ErrorObject) → Thrown → Text → Type 0
Says zero heap err s = Empty
Says (suc depth) heap (text t) s = s ≡ t
Says (suc depth) heap (object i) s = SaysItself (heap i) s ⊎ Says depth heap (heap i).cause s
Says (suc depth) heap _ s = Empty

Among-append {ℓ} :
    {A : Type ℓ} (x : A) (xs ys : List A) → Among x (xs ++ ys) ↔ (Among x xs ⊎ Among x ys)
Among-append x [] ys = ((λ m. inr m), λ s. elim s [ inl m ↦ elim m [ ] | inr m ↦ m ])
Among-append x (y ∷ xs) ys =
    let (to, from) = Among-append x xs ys in
    (
      λ m. elim m [
        | inl e ↦ inl (inl e)
        | inr m' ↦ elim (to m') [ inl l ↦ inl (inr l) | inr r ↦ inr r ]
      ],
      λ s. elim s [
        | inl l ↦ elim l [ inl e ↦ inl e | inr l' ↦ inr (from (inl l')) ]
        | inr r ↦ inr (from (inr r))
      ],
    )

text_part_iff : (o : Option Text) (s : Text) → Among s (text_part o) ↔ (o ≡ some s)
text_part_iff none s = ((λ m. elim m [ ]), λ e. cc)
text_part_iff (some t) s =
    (λ m. elim m [ inl e ↦ ap (λ x. some x) (sym e) | inr m' ↦ elim m' [ ] ], λ e. inl cc)

append_iff :
    {P Q : Type 0} (s : Text) (xs ys : List Text)
    → Among s xs ↔ P
    → Among s ys ↔ Q
    → Among s (xs ++ ys) ↔ (P ⊎ Q)
append_iff s xs ys (to, from) (to', from') = (
  λ m. elim ((Among-append s xs ys).0 m) [ inl l ↦ inl (to l) | inr r ↦ inr (to' r) ],
  λ h. (Among-append s xs ys).1 (elim h [ inl p ↦ inl (from p) | inr q ↦ inr (from' q) ]),
)

object_parts_iff : (e : ErrorObject) (s : Text) → Among s (object_parts e) ↔ SaysItself e s
object_parts_iff e s =
    append_iff s _ _
      (append_iff s _ _
        (append_iff s _ _ (text_part_iff e.message s) (text_part_iff e.short_message s))
        (text_part_iff e.details s))
      (text_part_iff e.error_name s)

module _ (heap : ℕ → ErrorObject) (s : Text) where
  Says-more : (d : ℕ) (err : Thrown) → Says d heap err s → Says (suc d) heap err s
  Says-more zero err h = elim h [ ]
  Says-more (suc d) nullish h = h
  Says-more (suc d) primitive h = h
  Says-more (suc d) (text t) h = h
  Says-more (suc d) (object i) (inl own) = inl own
  Says-more (suc d) (object i) (inr later) = inr (Says-more d (heap i).cause later)

  -- The parts of an object, visited or not.
  link_iff :
      (d i : ℕ) (seen : List ℕ)
      → Among s (chain_parts (suc d) heap seen (object i)) ↔ (
          (is_seen i seen ≡ false)
          × (SaysItself (heap i) s ⊎ Among s (chain_parts d heap (i ∷ seen) (heap i).cause)))
  unfolding chain_parts
  link_iff d i seen = split (is_seen i seen) (chain_parts d heap (i ∷ seen) (heap i).cause)
    where
      split :
          (visited : Bool) (rest : List Text)
          → Among s (if visited then [] else object_parts (heap i) ++ rest)
            ↔ ((visited ≡ false) × (SaysItself (heap i) s ⊎ Among s rest))
      split true rest = ((λ m. elim m [ ]), λ (v, h). cc)
      split false rest =
          let (to, from) =
            append_iff s (object_parts (heap i)) rest (object_parts_iff (heap i) s)
              ((λ m. m), λ m. m) in
          ((λ m. (refl, to m)), λ (v, h). from h)

  chain_parts_sound :
      (d : ℕ) (seen : List ℕ) (err : Thrown)
      → Among s (chain_parts d heap seen err)
      → Says d heap err s
  unfolding chain_parts
  chain_parts_sound zero seen err m = m
  chain_parts_sound (suc d) seen nullish m = m
  chain_parts_sound (suc d) seen primitive m = m
  chain_parts_sound (suc d) seen (text t) m = elim m [ inl e ↦ e | inr m' ↦ elim m' [ ] ]
  chain_parts_sound (suc d) seen (object i) m = elim ((link_iff d i seen).0 m).1 [
    | inl own ↦ inl own
    | inr rest ↦ inr (chain_parts_sound d (i ∷ seen) (heap i).cause rest)
  ]

  chain_parts-more :
      (d : ℕ) (seen : List ℕ) (err : Thrown)
      → Among s (chain_parts d heap seen err)
      → Among s (chain_parts (suc d) heap seen err)
  unfolding chain_parts
  chain_parts-more zero seen err m = elim m [ ]
  chain_parts-more (suc d) seen nullish m = m
  chain_parts-more (suc d) seen primitive m = m
  chain_parts-more (suc d) seen (text t) m = m
  chain_parts-more (suc d) seen (object i) m =
      let (fresh, said) = (link_iff d i seen).0 m in
      (link_iff (suc d) i seen).1 (
        fresh,
        elim said [
          | inl own ↦ inl own
          | inr rest ↦ inr (chain_parts-more d (i ∷ seen) (heap i).cause rest)
        ],
      )

  -- What a visited object says.
  abbrev IsVisited : ℕ → List ℕ → Type 0
  IsVisited d seen = (i : ℕ) × (is_seen i seen ≡ true) × Says d heap (object i) s

  -- Nothing that is said is lost: it is among the parts, or a visited object says it.
  chain_parts_complete :
      (d : ℕ) (seen : List ℕ) (err : Thrown)
      → Says d heap err s
      → Among s (chain_parts d heap seen err) ⊎ IsVisited d seen
  unfolding chain_parts
  chain_parts_complete zero seen err h = elim h [ ]
  chain_parts_complete (suc d) seen nullish h = elim h [ ]
  chain_parts_complete (suc d) seen primitive h = elim h [ ]
  chain_parts_complete (suc d) seen (text t) h = inl (inl h)
  chain_parts_complete (suc d) seen (object i) h = elim (Bool-cases (is_seen i seen)) [
    | inl visited ↦ inr (i, visited, h)
    | inr fresh ↦ elim h [
      | inl own ↦ inl ((link_iff d i seen).1 (fresh, inl own))
      | inr later ↦ elim (chain_parts_complete d (i ∷ seen) (heap i).cause later) [
        | inl m ↦ inl ((link_iff d i seen).1 (fresh, inr m))
        | inr (j, visited, said) ↦ elim (Bool-cases (i == j)) [
          | inr other ↦ inr (j, ground (arith, visited, other), Says-more d (object j) said)
          | inl same ↦ elim (chain_parts_complete d seen (object j) said) [
            | inl m ↦
                let it : j ≡ i = ground (arith, same) in
                inl (
                  subst (λ k. Among s (chain_parts (suc d) heap seen (object k))) it
                    (chain_parts-more d seen (object j) m))
            | inr (k, visited', said') ↦ inr (k, visited', Says-more d (object k) said')
          ]
        ]
      ]
    ]
  ]

  pub error_parts_iff : (err : Thrown) → Among s (error_parts heap err) ↔ Says 8 heap err s
  error_parts_iff err = (
    chain_parts_sound 8 [] err,
    λ h. elim (chain_parts_complete 8 [] err h) [
      | inl m ↦ m
      | inr (i, visited, said) ↦ absurd (ground (arith, visited))
    ],
  )
