-- ===== src/Middleware/AttestationErrors/Parts.antt =====
-- packages/middleware/src/attestation-queue.ts: the search through the joined texts is the search
-- through each of them.
use g_gate.Prelude.{
  ℕ, ◌≡◌, refl, ap, ap₂, sym, ◌∙◌, inl, inr, Bool, true, false, not, ◌||◌, List, [], ◌∷◌, ◌++◌,
  ◌==◌, if◌then◌else◌, arith, every, All, Bool-cases,
}
use g_gate.Prelude.Text.{Text, is_empty, drop_prefix, join}
use g_gate.Middleware.AttestationErrors.{
  Thrown, ErrorObject, terminal_attestation_reverts, any_of, error_parts, describe_error_chain,
  is_word, word_at, found_word, names_terminal, is_terminal_attestation_error,
}

-- A name that can be searched line by line: not empty, and without a line's end.
abbrev IsName : Text → Type 0
IsName name = (is_empty name ≡ false) × (every (λ c. not (c == 10)) name ≡ true)

word_at-line :
    (name s t : Text)
    → every (λ c. not (c == 10)) name ≡ true
    → word_at name (s ++ 10 ∷ t) ≡ word_at name s
unfolding word_at drop_prefix
word_at-line [] [] t h = refl
word_at-line [] (d ∷ s) t h = refl
word_at-line (c ∷ name) [] t h = ground (arith, h)
word_at-line (c ∷ name) (d ∷ s) t h = ground (arith, h, word_at-line name s t)

word_at-empty : (name : Text) → is_empty name ≡ false → word_at name [] ≡ false
unfolding word_at drop_prefix
word_at-empty [] h = cc
word_at-empty (c ∷ name) h = refl

found_word-line :
    (name : Text) (after : Bool) (s t : Text)
    → IsName name
    → found_word name after (s ++ 10 ∷ t) ≡ (found_word name after s || found_word name false t)
unfolding found_word
found_word-line name after [] t (full, line) =
    ground (arith, word_at-line name [] t line, word_at-empty name full)
found_word-line name after (c ∷ s) t (full, line) =
    ground
      (arith, word_at-line name (c ∷ s) t line, found_word-line name (is_word c) s t (full, line))

cons-append : (c : ℕ) (s : Text) → (c ∷ []) ++ s ≡ c ∷ s
cons-append c s = refl

no_name : (name : Text) → is_empty name ≡ false → found_word name false [] ≡ false
unfolding found_word
no_name name full = word_at-empty name full

found_word-join :
    (name : Text) (ss : List Text)
    → IsName name
    → found_word name false (join (10 ∷ []) ss) ≡ any_of (found_word name false) ss
unfolding join
found_word-join name [] (full, line) = no_name name full
found_word-join name (s ∷ []) (full, line) = ground arith
found_word-join name (s ∷ t ∷ ss) n =
    ap (λ u. found_word name false (s ++ u)) (cons-append 10 (join (10 ∷ []) (t ∷ ss)))
    ∙ found_word-line name false s (join (10 ∷ []) (t ∷ ss)) n
    ∙ ap (λ b. found_word name false s || b) (found_word-join name (t ∷ ss) n)

any_of-empty : (s : Text) → is_empty s ≡ true → names_terminal s ≡ false
unfolding found_word word_at drop_prefix
any_of-empty [] h = refl
any_of-empty (c ∷ s) h = cc

any_of-or {ℓ} :
    {A : Type ℓ} (p q : A → Bool) (xs : List A)
    → any_of (λ x. p x || q x) xs ≡ (any_of p xs || any_of q xs)
any_of-or p q [] = refl
any_of-or p q (x ∷ xs) = ground (arith, any_of-or p q xs)

abbrev found_word_in : Text → Text → Bool
found_word_in s name = found_word name false s

swap_any :
    (names ss : List Text)
    → any_of (λ name. any_of (found_word name false) ss) names
      ≡ any_of (λ s. any_of (λ name. found_word name false s) names) ss
swap_any names [] = nothing_in names
  where
    nothing_in :
        (names : List Text) → any_of (λ name. any_of (found_word name false) []) names ≡ false
    nothing_in [] = refl
    nothing_in (n ∷ ns) = nothing_in ns
swap_any names (s ∷ ss) =
    any_of-or (found_word_in s) (λ name. any_of (found_word name false) ss) names
    ∙ ap (λ b. any_of (found_word_in s) names || b) (swap_any names ss)

joined_any :
    (names ss : List Text)
    → All IsName names
    → any_of (λ name. found_word name false (join (10 ∷ []) ss)) names
      ≡ any_of (λ name. any_of (found_word name false) ss) names
joined_any [] ss h = refl
joined_any (n ∷ ns) ss (h, hs) = ap₂ ◌||◌ (found_word-join n ss h) (joined_any ns ss hs)

-- A failure is terminal exactly if one of the texts along its chain of causes, to the depth that is
-- searched, names one of the five reverts as a whole word: joining the texts by lines neither hides
-- a name nor makes one up.
pub is_terminal_attestation_error-parts :
    (heap : ℕ → ErrorObject) (err : Thrown)
    → is_terminal_attestation_error heap err ≡ any_of names_terminal (error_parts heap err)
unfolding is_terminal_attestation_error describe_error_chain
is_terminal_attestation_error-parts heap err =
    unless_empty (join (10 ∷ []) (error_parts heap err))
    ∙ joined_any terminal_attestation_reverts (error_parts heap err) names
    ∙ swap_any terminal_attestation_reverts (error_parts heap err)
  where
    names : All IsName terminal_attestation_reverts
    names = ((refl, refl), ((refl, refl), ((refl, refl), ((refl, refl), ((refl, refl), tt)))))

    unless_empty : (s : Text) → (if is_empty s then false else names_terminal s) ≡ names_terminal s
    unless_empty s = elim (Bool-cases (is_empty s)) [
      | inl y ↦ rw y (sym (any_of-empty s y))
      | inr n ↦ rw n refl
    ]
