-- ===== src/Shared/Url.antt =====
-- packages/shared/src/url.ts: stripTrailingSlashes, by the reversed text.
use g_gate.Prelude.{reverse, [], ◌∷◌, if◌then◌else◌, ◌==◌}
use g_gate.Prelude.Text.{Text}

unfoldable pub drop_slashes : Text → Text
drop_slashes [] = []
drop_slashes (c ∷ s) = let rest = drop_slashes s in if c == b'/' then rest else c ∷ s

unfoldable pub strip_trailing_slashes : Text → Text
unfolding drop_slashes
strip_trailing_slashes s = reverse (drop_slashes (reverse s))
