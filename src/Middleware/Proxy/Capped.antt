-- ===== src/Middleware/Proxy/Capped.antt =====
-- packages/middleware/src/proxy.ts: how much of an answer readBodyCapped takes.
use g_gate.Prelude.{
  ℕ, ◌+◌, ◌≤◌, ◌≡◌, ◌↔◌, refl, sym, ap, subst, ◌∙◌, inl, inr, false, Option, none, some, [], ◌++◌,
  arith, length, length-append, ltb, Bool-cases, if◌then◌else◌,
}
use mathlib.Core.List.{append_assoc, append-nil}
use g_gate.Prelude.Text.{Text}
use g_gate.Middleware.Proxy.{
  BodyStream, done, chunk, broken, CappedBody, whole, too_large, read_capped, read_body_capped,
}

-- What a body holds, if its reading does not break off.
abbrev pub contents : BodyStream → Option Text
contents done = some []
contents (chunk c rest) = elim (contents rest) [ none ↦ none | some bytes ↦ some (c ++ bytes) ]
contents (broken name) = none

abbrev IsRead : ℕ → Text → BodyStream → Text → Type 0
IsRead max_bytes bytes s b =
    (t : Text) × (contents s ≡ some t) × (b ≡ bytes ++ t) × (length b ≤ max_bytes)

whole-injective : {a b : Text} → CappedBody.whole a ≡ whole b → a ≡ b
whole-injective h = cc

some-injective : {A : Type 0} {a b : A} → Option.some a ≡ some b → a ≡ b
some-injective h = cc

chunk-IsRead :
    (max_bytes : ℕ) (bytes c b : Text) (rest : BodyStream)
    → IsRead max_bytes bytes (chunk c rest) b ↔ IsRead max_bytes (bytes ++ c) rest b
chunk-IsRead max_bytes bytes c b rest = (
  λ (t, e, same, u). split t (contents rest) refl e same u,
  λ (t, e, same, u). (c ++ t, rw e refl, same ∙ append_assoc bytes c t, u),
)
  where
    split :
        (t : Text) (o : Option Text)
        → contents rest ≡ o
        → (elim o [ none ↦ none | some r ↦ some (c ++ r) ]) ≡ some t
        → b ≡ bytes ++ t
        → length b ≤ max_bytes
        → IsRead max_bytes (bytes ++ c) rest b
    split t none e h same u = cc
    split t (some r) e h same u = (
      r,
      e,
      same ∙ ap (λ x. bytes ++ x) (sym (some-injective h)) ∙ sym (append_assoc bytes c r),
      u,
    )

IsRead-length :
    (max_bytes : ℕ) (bytes b : Text) (s : BodyStream)
    → IsRead max_bytes bytes s b
    → length bytes ≤ max_bytes
IsRead-length max_bytes bytes b s (t, e, same, u) =
    let longer : length b ≡ length bytes + length t = ap length same ∙ length-append bytes t in
    omega (arith, u, longer)

read_capped_iff :
    (max_bytes : ℕ) (bytes b : Text) (s : BodyStream)
    → length bytes ≤ max_bytes
    → (read_capped max_bytes bytes s ≡ whole b) ↔ IsRead max_bytes bytes s b
unfolding read_capped
read_capped_iff max_bytes bytes b done l = (
  λ h.
      let same : bytes ≡ b = whole-injective h in
      ([], refl, sym same ∙ sym (append-nil bytes), subst (λ x. length x ≤ max_bytes) same l),
  λ (t, e, same, u).
      ap whole ((sym (append-nil bytes) ∙ ap (λ x. bytes ++ x) (empty_rest e)) ∙ sym same),
)
  where
    empty_rest : {t : Text} → Option.some [] ≡ some t → [] ≡ t
    empty_rest h = cc
read_capped_iff max_bytes bytes b (broken name) l = ((λ h. cc), λ (t, e, same, u). cc)
read_capped_iff max_bytes bytes b (chunk c rest) l =
    elim (Bool-cases (ltb max_bytes (length (bytes ++ c)))) [
      | inl long ↦ (
        λ h. absurd (ground (arith, long, h)),
        λ r.
            let fits =
              IsRead-length max_bytes (bytes ++ c) b rest
                ((chunk-IsRead max_bytes bytes c b rest).0 r) in
            absurd (ground (arith, long, fits)),
      )
      | inr short ↦
          let (to, from) = read_capped_iff max_bytes (bytes ++ c) b rest (ground (arith, short)) in
          (
            λ h. (chunk-IsRead max_bytes bytes c b rest).1 (to (unshort short h)),
            λ r. rw short (from ((chunk-IsRead max_bytes bytes c b rest).0 r)),
          )
    ]
  where
    unshort :
        ltb max_bytes (length (bytes ++ c)) ≡ false
        → (if ltb max_bytes (length (bytes ++ c))
            then too_large
            else read_capped max_bytes (bytes ++ c) rest)
          ≡ whole b
        → read_capped max_bytes (bytes ++ c) rest ≡ whole b
    unshort short h = rw short at h

-- The body of an answer is taken exactly when its reading does not break off and all of its chunks
-- together are at most the bound, and then it is these chunks in order.
pub read_body_capped_iff :
    (s : BodyStream) (max_bytes : ℕ) (b : Text)
    → (read_body_capped s max_bytes ≡ whole b) ↔ ((contents s ≡ some b) × (length b ≤ max_bytes))
unfolding read_body_capped
read_body_capped_iff s max_bytes b =
    let (to, from) = read_capped_iff max_bytes [] b s (omega arith) in
    (
      λ h. let (t, e, same, u) = to h in (subst (λ x. contents s ≡ some x) (sym same) e, u),
      λ (e, u). from (b, e, refl, u),
    )
