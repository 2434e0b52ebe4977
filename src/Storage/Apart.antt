-- ===== src/Storage/Apart.antt =====
-- internal/storage/storage.go: the paths of objects beside those of temporary files.
use omni_blob.Base.{
  ℕ, ◌≡◌, refl, ap, ◌∙◌, inl, inr, true, false, [], ◌∷◌, ◌++◌, arith, Bool-cases, length, Text,
  codes, text_eq, text_eq_iff, text_eq-common, has_prefix, has_prefix-common, has_byte,
}
use mathlib.Core.List.{append_assoc}
use omni_blob.FilePath.{slash, elements}
use omni_blob.Storage.{StorageService, temp_name}
use omni_blob.Storage.Paths.{below, dirs_text}

pub below-eq : (s : StorageService) (x y : Text) → text_eq (below s x) (below s y) ≡ text_eq x y
unfolding text_eq
below-eq s x y =
    text_eq-common (dirs_text (elements s.root_path)) (codes "objects/" ++ x)
      (codes "objects/" ++ y)
    ∙ text_eq-common (codes "objects/") x y

append_slash :
    (d x : Text)
    → (d ++ (codes "objects/" ++ x)) ++ (slash ∷ [])
      ≡ d ++ (codes "objects/" ++ (x ++ (slash ∷ [])))
append_slash d x = append_assoc d (codes "objects/" ++ x) (slash ∷ [])

pub below-above :
    (s : StorageService) (x y : Text)
    → has_prefix (below s x) (below s y ++ (slash ∷ [])) ≡ has_prefix x (y ++ (slash ∷ []))
unfolding has_prefix
below-above s x y = rw (append_slash (dirs_text (elements s.root_path)) y) (
    has_prefix-common (dirs_text (elements s.root_path)) (codes "objects/" ++ x)
      (codes "objects/" ++ (y ++ (slash ∷ [])))
    ∙ has_prefix-common (codes "objects/") x (y ++ (slash ∷ [])))

-- A path is not above itself.
pub not_above_self : (x : Text) (c : ℕ) → has_prefix x (x ++ (c ∷ [])) ≡ false
unfolding has_prefix
not_above_self [] c = refl
not_above_self (d ∷ x) c = ground (arith, not_above_self x c)

-- The directory above a path, by its first element.
first_above :
    (w t h : Text)
    → has_byte slash w ≡ false
    → has_byte slash h ≡ false
    → has_prefix (w ++ (slash ∷ t)) (h ++ (slash ∷ [])) ≡ true
    → h ≡ w
unfolding has_prefix has_byte
first_above [] t [] hw hh e = refl
first_above [] t (d ∷ h) hw hh e = absurd (ground arith)
first_above (c ∷ w) t [] hw hh e = absurd (ground arith)
first_above (c ∷ w) t (d ∷ h) hw hh e = ground (arith, first_above w t h)

-- The temporary file of a stream, below the objects.
abbrev pub temp_text : ℕ → Text
temp_text nano = codes "temp" ++ (slash ∷ temp_name nano)

temp_has_slash : (nano : ℕ) → has_byte slash (temp_text nano) ≡ true
unfolding has_byte
temp_has_slash nano = refl

pub object-ne-temp :
    (h : Text) (nano : ℕ) → has_byte slash h ≡ false → text_eq (temp_text nano) h ≡ false
object-ne-temp h nano w = elim (Bool-cases (text_eq (temp_text nano) h)) [
  | inl e ↦ absurd (ground (arith, (text_eq_iff (temp_text nano) h).0 e, temp_has_slash nano))
  | inr e ↦ e
]

pub temp_not_above :
    (h : Text) (nano : ℕ)
    → length h ≡ 64
    → has_byte slash h ≡ false
    → has_prefix (temp_text nano) (h ++ (slash ∷ [])) ≡ false
unfolding has_byte
temp_not_above h nano l w = elim (Bool-cases (has_prefix (temp_text nano) (h ++ (slash ∷ [])))) [
  | inl e ↦
      absurd (omega (arith, l, ap length (first_above (codes "temp") (temp_name nano) h refl w e)))
  | inr e ↦ e
]
