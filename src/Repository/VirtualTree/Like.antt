-- ===== src/Repository/VirtualTree/Like.antt =====
-- internal/repository/binary_file_virtual.go: LIKE with a prefix, with and without wildcards.
use omni_blob.Base.{
  ◌≡◌, refl, Bool, true, false, ◌||◌, not, [], ◌∷◌, ◌++◌, arith, ◌==◌, any_of, all_of, Text, codes,
  has_prefix,
}
use omni_blob.Repository.VirtualTree.{tokens, suffixes, matches, like}

-- No character has a meaning in a pattern.
abbrev pub is_plain : Text → Bool
is_plain p = all_of (λ c. not ((c == b'_') || (c == b'%') || (c == b'\\'))) p

any_suffix : (s : Text) → any_of (matches []) (suffixes s) ≡ true
unfolding matches
any_suffix [] = refl
any_suffix (c ∷ s) = any_suffix s

matches-run : (s : Text) → matches (tokens false (codes "%")) s ≡ true
unfolding tokens matches
matches-run s = any_suffix s

-- A prefix without wildcards selects the paths that begin with it.
pub like-plain : (p s : Text) → is_plain p ≡ true → like s (p ++ codes "%") ≡ has_prefix s p
unfolding like tokens matches has_prefix
like-plain [] s h = any_suffix s
like-plain (c ∷ p) [] h = ground arith
like-plain (c ∷ p) (d ∷ s) h = ground (arith, like-plain p s)
