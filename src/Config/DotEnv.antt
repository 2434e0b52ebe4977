-- ===== src/Config/DotEnv.antt =====
-- internal/config/config.go: what loadDotEnv leaves in the environment.
use omni_blob.Base.{
  ◌≡◌, refl, sym, ap, ◌∙◌, inl, inr, Bool, true, false, ◌&&◌, Option, none, some, List, [], ◌∷◌,
  arith, if◌then◌else◌, Bool-cases, Text, text_eq, text_eq_iff, is_empty, or_else, split_on, insert,
  lookup-insert,
}
use omni_blob.Config.Load.{
  Environment, getenv, setenv, is_settable, parse_line, set_if_unset, load_lines, load_dot_env,
}

abbrev value_for : Text → Option (Text × Text) → Text
value_for k none = []
value_for k (some (j, v)) = if text_eq j k && is_settable j v then v else []

-- The value that lines of .env give a key: the first one that is not blank and can be set.
abbrev pub first_value : Text → List Text → Text
first_value k [] = []
first_value k (l ∷ ls) = or_else (value_for k (parse_line l)) (first_value k ls)

abbrev pub dot_env_value : Text → Option Text → Text
dot_env_value k none = []
dot_env_value k (some content) = first_value k (split_on b'\n' content)

pub or_else_assoc : (a b c : Text) → or_else (or_else a b) c ≡ or_else a (or_else b c)
or_else_assoc [] b c = refl
or_else_assoc (x ∷ a) b c = refl

or_else_blank : (a : Text) → or_else a [] ≡ a
or_else_blank [] = refl
or_else_blank (x ∷ a) = refl

getenv-insert :
    (j k v : Text) (env : Environment)
    → getenv (insert j v env) k ≡ (if text_eq j k then v else getenv env k)
unfolding getenv
getenv-insert j k v env = ground (arith, lookup-insert j k v env)

or_else_given : (a d : Text) → is_empty a ≡ false → or_else a d ≡ a
or_else_given [] d e = cc
or_else_given (x ∷ a) d e = refl

empty_nil : (a : Text) → is_empty a ≡ true → a ≡ []
empty_nil [] e = refl
empty_nil (x ∷ a) e = cc

getenv-setenv :
    (j k v : Text) (env : Environment)
    → getenv (setenv j v env) k ≡ (if text_eq j k && is_settable j v then v else getenv env k)
unfolding setenv
getenv-setenv j k v env = ground (arith, getenv-insert j k v env)

-- Whether setting `j` to `v` sets `k`.
abbrev sets : Text → Text → Text → Bool
sets j v k = text_eq j k && is_settable j v

same_key : (j v k : Text) → sets j v k ≡ true → j ≡ k
same_key j v k e = (text_eq_iff j k).0 (ground (arith, e))

getenv-unset :
    (j v k : Text) (env : Environment)
    → is_empty (getenv env j) ≡ true
    → (if sets j v k then v else getenv env k)
      ≡ or_else (getenv env k) (if sets j v k then v else [])
getenv-unset j v k env e = elim (Bool-cases (sets j v k)) [
  | inl s ↦
      let blank : getenv env k ≡ [] =
        ap (getenv env) (sym (same_key j v k s)) ∙ empty_nil (getenv env j) e in
      rw (s, blank) refl
  | inr s ↦ rw s (sym (or_else_blank (getenv env k)))
]

getenv-kept :
    (j v k : Text) (env : Environment)
    → is_empty (getenv env j) ≡ false
    → getenv env k ≡ or_else (getenv env k) (if sets j v k then v else [])
getenv-kept j v k env e = elim (Bool-cases (sets j v k)) [
  | inl s ↦
      let given : is_empty (getenv env k) ≡ false =
        ap (λ i. is_empty (getenv env i)) (sym (same_key j v k s)) ∙ e in
      sym (or_else_given (getenv env k) (if sets j v k then v else []) given)
  | inr s ↦ rw s (sym (or_else_blank (getenv env k)))
]

getenv-set_pair :
    (j v k : Text) (env : Environment)
    → getenv (set_if_unset (some (j, v)) env) k ≡ or_else (getenv env k) (value_for k (some (j, v)))
getenv-set_pair j v k env = elim (Bool-cases (is_empty (getenv env j))) [
  | inl e ↦ rw e (getenv-setenv j k v env ∙ getenv-unset j v k env e)
  | inr e ↦ rw e (getenv-kept j v k env e)
]

getenv-set_if_unset :
    (p : Option (Text × Text)) (k : Text) (env : Environment)
    → getenv (set_if_unset p env) k ≡ or_else (getenv env k) (value_for k p)
getenv-set_if_unset none k env = sym (or_else_blank (getenv env k))
getenv-set_if_unset (some (j, v)) k env = getenv-set_pair j v k env

getenv-load_lines :
    (ls : List Text) (k : Text) (env : Environment)
    → getenv (load_lines ls env) k ≡ or_else (getenv env k) (first_value k ls)
unfolding load_lines
getenv-load_lines [] k env = sym (or_else_blank (getenv env k))
getenv-load_lines (l ∷ ls) k env =
    getenv-load_lines ls k (set_if_unset (parse_line l) env)
    ∙ ap (λ t. or_else t (first_value k ls)) (getenv-set_if_unset (parse_line l) k env)
    ∙ or_else_assoc (getenv env k) (value_for k (parse_line l)) (first_value k ls)

-- After loadDotEnv a variable that was set reads as before, and any other reads as the first value
-- of the file that is not blank and that os.Setenv takes, or as blank.
pub getenv-load_dot_env :
    (dot_env : Option Text) (k : Text) (env : Environment)
    → getenv (load_dot_env dot_env env) k ≡ or_else (getenv env k) (dot_env_value k dot_env)
unfolding load_dot_env
getenv-load_dot_env none k env = sym (or_else_blank (getenv env k))
getenv-load_dot_env (some content) k env = getenv-load_lines (split_on b'\n' content) k env
