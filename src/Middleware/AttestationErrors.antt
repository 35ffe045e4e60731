-- ===== src/Middleware/AttestationErrors.antt =====
-- packages/middleware/src/attestation-queue.ts: which failures of an attestation no retry can
-- change. What was thrown may be an object with a `cause`, and causes may form a cycle, so objects
-- are numbers that a heap describes.
pub mod Parts
pub mod Words
pub mod Causes
pub mod Terminal
use g_gate.Prelude.{
  ℕ, zero, suc, Bool, true, false, not, ◌&&◌, ◌||◌, Option, none, some, List, [], ◌∷◌, ◌++◌, ◌==◌,
  leb, if◌then◌else◌,
}
use g_gate.Prelude.Text.{Text, codes, is_digit, is_empty, drop_prefix, join}

pub data Thrown : Type 0 where
  nullish primitive : Thrown
  text : Text → Thrown
  object : ℕ → Thrown

-- The fields that are texts, `error_name` being `data.errorName`.
pub record ErrorObject : Type 0 where
  pub message : Option Text
  pub short_message : Option Text
  pub details : Option Text
  pub error_name : Option Text
  pub cause : Thrown

abbrev pub terminal_attestation_reverts : List Text
terminal_attestation_reverts =
    codes "SelfPayment"
    ∷ codes "NoSuchPayment"
    ∷ codes "Underpaid"
    ∷ codes "NotAuthorized"
    ∷ codes "ServiceNotFound"
    ∷ []

abbrev pub any_of {ℓ} : {A : Type ℓ} → (A → Bool) → List A → Bool
any_of p [] = false
any_of p (x ∷ xs) = p x || any_of p xs

abbrev pub is_seen : ℕ → List ℕ → Bool
is_seen i seen = any_of (λ j. j == i) seen

abbrev pub text_part : Option Text → List Text
text_part none = []
text_part (some s) = s ∷ []

abbrev pub object_parts : ErrorObject → List Text
object_parts e =
    text_part e.message
    ++ text_part e.short_message
    ++ text_part e.details
    ++ text_part e.error_name

-- The loop of `describeErrorChain`, with the depth that is left and the objects that were visited.
unfoldable pub chain_parts : ℕ → (ℕ → ErrorObject) → List ℕ → Thrown → List Text
chain_parts zero heap seen current = []
chain_parts (suc depth) heap seen nullish = []
chain_parts (suc depth) heap seen primitive = []
chain_parts (suc depth) heap seen (text s) = s ∷ []
chain_parts (suc depth) heap seen (object i) =
    let rest = chain_parts depth heap (i ∷ seen) (heap i).cause in
    if is_seen i seen then [] else object_parts (heap i) ++ rest

abbrev pub error_parts : (ℕ → ErrorObject) → Thrown → List Text
error_parts heap err = chain_parts 8 heap [] err

unfoldable pub describe_error_chain : (ℕ → ErrorObject) → Thrown → Text
describe_error_chain heap err = join (10 ∷ []) (error_parts heap err)

-- The class `\w`.
abbrev pub is_word : ℕ → Bool
is_word c = is_digit c || (leb b'a' c && leb c b'z') || (leb b'A' c && leb c b'Z') || c == b'_'

abbrev pub starts_word : Text → Bool
starts_word [] = false
starts_word (c ∷ s) = is_word c

-- The name stands at the start of the text, and a word ends there.
unfoldable pub word_at : Text → Text → Bool
word_at name s = elim (drop_prefix name s) [ none ↦ false | some rest ↦ not (starts_word rest) ]

-- `/\bname\b/` in a text that comes after a word's character or not.
unfoldable pub found_word : Text → Bool → Text → Bool
found_word name after_word [] = not after_word && word_at name []
found_word name after_word (c ∷ s) =
    (not after_word && word_at name (c ∷ s)) || found_word name (is_word c) s

abbrev pub names_terminal : Text → Bool
names_terminal s = any_of (λ name. found_word name false s) terminal_attestation_reverts

unfoldable pub is_terminal_attestation_error : (ℕ → ErrorObject) → Thrown → Bool
is_terminal_attestation_error heap err =
    let haystack = describe_error_chain heap err in
    if is_empty haystack then false else names_terminal haystack
