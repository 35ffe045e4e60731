-- ===== src/Middleware/AttestationErrors/Terminal.antt =====
-- packages/middleware/src/attestation-queue.ts: which errors are terminal, told without the joined
-- text, the search and the visited objects.
use g_gate.Prelude.{
  ℕ, ◌≡◌, ◌⊎◌, ◌↔◌, refl, sym, ap, ◌∙◌, inl, inr, Bool, true, false, List, [], ◌∷◌, arith, Among,
  Bool-cases,
}
use g_gate.Prelude.Text.{Text, codes}
use g_gate.Middleware.AttestationErrors.{
  Thrown, ErrorObject, terminal_attestation_reverts, any_of, error_parts, found_word,
  names_terminal, is_terminal_attestation_error,
}
use g_gate.Middleware.AttestationErrors.Parts.{is_terminal_attestation_error-parts}
use g_gate.Middleware.AttestationErrors.Words.{HasWord, found_word_iff}
use g_gate.Middleware.AttestationErrors.Causes.{Says, error_parts_iff}

-- The reverts that no retry can change.
abbrev pub IsTerminalName : Text → Type 0
IsTerminalName name =
    (name ≡ codes "SelfPayment")
    ⊎ ((name ≡ codes "NoSuchPayment")
        ⊎ ((name ≡ codes "Underpaid")
            ⊎ ((name ≡ codes "NotAuthorized") ⊎ (name ≡ codes "ServiceNotFound"))))

any_of_iff {ℓ} :
    {A : Type ℓ} (p : A → Bool) (xs : List A)
    → (any_of p xs ≡ true) ↔ ((x : A) × Among x xs × (p x ≡ true))
any_of_iff p [] = ((λ h. absurd (ground (arith, h))), λ (x, m, e). elim m [ ])
any_of_iff p (x ∷ xs) =
    let (to, from) = any_of_iff p xs in
    (
      λ h. elim (Bool-cases (p x)) [
        | inl y ↦ (x, inl refl, y)
        | inr n ↦ let (z, m, e) = to (ground (arith, n, h)) in (z, inr m, e)
      ],
      λ (z, m, e). elim m [
        | inl same ↦ let y : p x ≡ true = ap p (sym same) ∙ e in ground (arith, y)
        | inr m' ↦ let rest = from (z, m', e) in ground (arith, rest)
      ],
    )

listed_iff : (name : Text) → Among name terminal_attestation_reverts ↔ IsTerminalName name
listed_iff name = (
  λ m. elim m [
    | inl a ↦ inl a
    | inr m1 ↦ inr (elim m1 [
      | inl b ↦ inl b
      | inr m2 ↦ inr (elim m2 [
        | inl c ↦ inl c
        | inr m3 ↦ inr (elim m3 [
          | inl d ↦ inl d
          | inr m4 ↦ inr (elim m4 [ inl e ↦ e | inr m5 ↦ elim m5 [ ] ])
        ])
      ])
    ])
  ],
  λ h. elim h [
    | inl a ↦ inl a
    | inr h1 ↦ inr (elim h1 [
      | inl b ↦ inl b
      | inr h2 ↦ inr (elim h2 [
        | inl c ↦ inl c
        | inr h3 ↦ inr (elim h3 [ inl d ↦ inl d | inr e ↦ inr (inl e) ])
      ])
    ])
  ],
)

-- An error is terminal exactly if one of the texts that it or its causes say, as a text, in the message,
-- the short message, the details or the name of the decoded revert, within eight links of the chain,
-- holds the name of one of the five reverts as a whole word: neither the search, nor joining the texts
-- by lines, nor leaving out what was visited hides or makes up a name.
pub is_terminal_attestation_error_iff :
    (heap : ℕ → ErrorObject) (err : Thrown)
    → (is_terminal_attestation_error heap err ≡ true)
      ↔ ((s : Text) × (name : Text) × Says 8 heap err s × IsTerminalName name × HasWord name s)
is_terminal_attestation_error_iff heap err = (
  λ h.
      let (s, said, found) =
        (any_of_iff names_terminal (error_parts heap err)).0
          (sym (is_terminal_attestation_error-parts heap err) ∙ h) in
      let (name, listed, here) =
        (any_of_iff (λ name. found_word name false s) terminal_attestation_reverts).0 found in
      (
        s,
        name,
        (error_parts_iff heap s err).0 said,
        (listed_iff name).0 listed,
        (found_word_iff name s false).0 here,
      ),
  λ (s, name, said, listed, here).
      is_terminal_attestation_error-parts heap err
      ∙ (any_of_iff names_terminal (error_parts heap err)).1 (
        s,
        (error_parts_iff heap s err).1 said,
        (any_of_iff (λ name. found_word name false s) terminal_attestation_reverts).1
            (name, (listed_iff name).1 listed, (found_word_iff name s false).1 here),
      ),
)
