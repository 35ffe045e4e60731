-- ===== src/Middleware/AttestationErrors/Words.antt =====
-- packages/middleware/src/attestation-queue.ts: the pattern that finds a name as a whole word.
use g_gate.Prelude.{
  ℕ, ◌≡◌, ◌↔◌, refl, ap, ◌∙◌, inl, inr, Bool, true, false, not, ◌&&◌, ◌||◌, Option, none, some, [],
  ◌∷◌, ◌++◌, ◌==◌, arith, leb, Bool-cases,
}
use g_gate.Prelude.Text.{Text, drop_prefix, is_digit}
use g_gate.Middleware.AttestationErrors.{is_word, starts_word, word_at, found_word}

-- A letter, a digit or an underscore.
abbrev pub word_code : ℕ → Bool
word_code c = is_digit c || (leb b'a' c && leb c b'z') || (leb b'A' c && leb c b'Z') || c == b'_'

-- The last character of the text is one of a word; `after` stands for it in the empty text.
abbrev pub ends_word : Bool → Text → Bool
ends_word after [] = after
ends_word after (c ∷ s) = ends_word (word_code c) s

abbrev pub begins_word : Text → Bool
begins_word [] = false
begins_word (c ∷ s) = word_code c

-- The name stands in the text as a whole word.
abbrev pub IsWordIn : Bool → Text → Text → Type 0
IsWordIn after name s =
    (before : Text) × (rest : Text) × (s ≡ before ++ (name ++ rest))
    × (ends_word after before ≡ false)
    × (begins_word rest ≡ false)

abbrev pub HasWord : Text → Text → Type 0
HasWord name s = IsWordIn false name s

drop_prefix-append : (p rest : Text) → drop_prefix p (p ++ rest) ≡ some rest
unfolding drop_prefix
drop_prefix-append [] rest = refl
drop_prefix-append (c ∷ p) rest = ground (arith, drop_prefix-append p rest)

drop_prefix_sound : (p s rest : Text) → drop_prefix p s ≡ some rest → s ≡ p ++ rest
unfolding drop_prefix
drop_prefix_sound [] s rest h = cc
drop_prefix_sound (c ∷ p) [] rest h = cc
drop_prefix_sound (c ∷ p) (d ∷ s) rest h = ground (arith, h, drop_prefix_sound p s rest)

word_here : (name rest : Text) → begins_word rest ≡ false → word_at name (name ++ rest) ≡ true
unfolding word_at
word_here name rest free = rw (drop_prefix-append name rest, word_at) (ground (arith, free))

word_at_iff :
    (name s : Text)
    → (word_at name s ≡ true) ↔ ((rest : Text) × (s ≡ name ++ rest) × (begins_word rest ≡ false))
unfolding word_at
word_at_iff name s = (
  λ h. split (drop_prefix name s) refl h,
  λ (rest, e, free). ap (word_at name) e ∙ word_here name rest free,
)
  where
    split :
        (o : Option Text)
        → drop_prefix name s ≡ o
        → (elim o [ none ↦ false | some rest ↦ not (starts_word rest) ]) ≡ true
        → (rest : Text) × (s ≡ name ++ rest) × (begins_word rest ≡ false)
    split none e h = absurd (ground (arith, h))
    split (some rest) e h = (rest, drop_prefix_sound name s rest e, ground (arith, h))

pub found_word_iff :
    (name s : Text) (after : Bool) → (found_word name after s ≡ true) ↔ IsWordIn after name s
unfolding found_word
found_word_iff name [] after = (
  λ h.
      let (rest, e, free) = (word_at_iff name []).0 (ground (arith, h)) in
      ([], rest, e, ground (arith, h), free),
  λ (before, rest, e, ended, free). at_end before rest e ended free,
)
  where
    at_end :
        (before rest : Text)
        → [] ≡ before ++ (name ++ rest)
        → ends_word after before ≡ false
        → begins_word rest ≡ false
        → (not after && word_at name []) ≡ true
    at_end [] rest e ended free = ground (arith, ended, (word_at_iff name []).1 (rest, e, free))
    at_end (d ∷ before) rest e ended free = cc
found_word_iff name (c ∷ s) after =
    let (to, from) = found_word_iff name s (is_word c) in
    (
      λ h. elim (Bool-cases (not after && word_at name (c ∷ s))) [
        | inl here ↦
            let (rest, e, free) = (word_at_iff name (c ∷ s)).0 (ground (arith, here)) in
            ([], rest, e, ground (arith, here), free)
        | inr absent ↦
            let (before, rest, e, ended, free) = to (further absent h) in
            (c ∷ before, rest, ap (λ x. c ∷ x) e, ended, free)
      ],
      λ (before, rest, e, ended, free). found from before rest e ended free,
    )
  where
    further :
        (not after && word_at name (c ∷ s)) ≡ false
        → ((not after && word_at name (c ∷ s)) || found_word name (is_word c) s) ≡ true
        → found_word name (is_word c) s ≡ true
    further absent h = rw absent at h

    found :
        (IsWordIn (is_word c) name s → found_word name (is_word c) s ≡ true)
        → (before rest : Text) → c ∷ s ≡ before ++ (name ++ rest)
        → ends_word after before ≡ false
        → begins_word rest ≡ false
        → ((not after && word_at name (c ∷ s)) || found_word name (is_word c) s) ≡ true
    found from [] rest e ended free =
        ground (arith, ended, (word_at_iff name (c ∷ s)).1 (rest, e, free))
    found from (d ∷ before) rest e ended free =
        let same : c ≡ d = cc in
        let tail : s ≡ before ++ (name ++ rest) = cc in
        let later =
          from (before, rest, tail, ap (λ x. ends_word (word_code x) before) same ∙ ended, free) in
        ground (arith, later)
