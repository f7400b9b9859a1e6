-- ===== src/Base/Text.antt =====
-- Texts as Go strings of whole Unicode characters, `strings.TrimSpace`, and maps keyed by texts.
use Prim.Native.Nat.{ℕ}
use Prim.Native.Char.{Char, code}
use Prim.Native.String.{String}
use mathlib.Core.Path.{◌≡◌, refl, subst}
use mathlib.Core.Logic.{◌↔◌, inl, inr}
use mathlib.Core.Bool.{Bool, true, false, ◌&&◌, ◌||◌}
use mathlib.Core.Option.{Option, none, some}
use mathlib.Core.List.{List, [], ◌∷◌}
use native.Mathlib.Omega.{arith}
use text.Mathlib.Text.{◌==◌ as text_eq}
pub use text.Mathlib.Text.{starts_with}
use text.Mathlib.TextEquality.{eq_iff}
use kenshu_elaris_project_st.Base.Tests.{leb, ◌==◌, Bool-cases, if◌then◌else◌}

abbrev pub str_eq : String → String → Bool
str_eq = text_eq

pub str_eq_iff : (s t : String) → (str_eq s t ≡ true) ↔ (s ≡ t)
str_eq_iff = eq_iff

-- `+` of texts.
abbrev pub concat : String → String → String
concat String.[] t = t
concat (String.◌∷◌ c s) t = String.◌∷◌ c (concat s t)

pub concat_assoc : (s t u : String) → concat (concat s t) u ≡ concat s (concat t u)
concat_assoc String.[] t u = refl
concat_assoc (String.◌∷◌ c s) t u = rw (concat_assoc s t u) refl

-- `unicode.IsSpace`.
unfoldable pub is_space : ℕ → Bool
is_space c =
    (leb 9 c && leb c 13)
    || c == 32
    || c == 0x85
    || c == 0xA0
    || c == 0x1680
    || (leb 0x2000 c && leb c 0x200A)
    || c == 0x2028
    || c == 0x2029
    || c == 0x202F
    || c == 0x205F
    || c == 0x3000

trim_left : String → String
trim_left String.[] = String.[]
trim_left (String.◌∷◌ c s) = if is_space (code c) then trim_left s else String.◌∷◌ c s

-- What a character leaves in front of a text whose end is trimmed.
trim_cons : Char → String → String
trim_cons c String.[] = if is_space (code c) then String.[] else String.◌∷◌ c String.[]
trim_cons c (String.◌∷◌ d s) = String.◌∷◌ c (String.◌∷◌ d s)

trim_right : String → String
unfolding trim_cons
trim_right String.[] = String.[]
trim_right (String.◌∷◌ c s) = trim_cons c (trim_right s)

-- `strings.TrimSpace`.
unfoldable pub trim_space : String → String
unfolding trim_left trim_right is_space
trim_space s = trim_right (trim_left s)

-- Every character is white space.
unfoldable pub all_space : String → Bool
all_space String.[] = true
all_space (String.◌∷◌ c s) = is_space (code c) && all_space s

is_nil : String → Bool
is_nil String.[] = true
is_nil (String.◌∷◌ c s) = false

trim_left-nil : (s : String) → all_space s ≡ true → trim_left s ≡ ""
unfolding trim_left all_space
trim_left-nil String.[] h = refl
trim_left-nil (String.◌∷◌ c s) h = elim (Bool-cases (is_space (code c))) [
  | inl e ↦ rw e (trim_left-nil s (rw e at h))
  | inr e ↦ cc (rw e at h)
]

all_space-trim_left : (s : String) → all_space (trim_left s) ≡ true → all_space s ≡ true
unfolding trim_left all_space
all_space-trim_left String.[] h = refl
all_space-trim_left (String.◌∷◌ c s) h = elim (Bool-cases (is_space (code c))) [
  | inl e ↦ rw e (all_space-trim_left s (rw e at h))
  | inr e ↦ rw e at h
]

trim_cons-nil :
    (c : Char) (s : String)
    → is_nil (trim_cons c s) ≡ true
    → (is_space (code c) ≡ true) × (is_nil s ≡ true)
unfolding trim_cons is_nil
trim_cons-nil c String.[] h = elim (Bool-cases (is_space (code c))) [
  | inl e ↦ (e, refl)
  | inr e ↦ cc (rw e at h)
]
trim_cons-nil c (String.◌∷◌ d s) h = cc h

trim_right-nil : (s : String) → is_nil (trim_right s) ≡ true → all_space s ≡ true
unfolding trim_right all_space
trim_right-nil String.[] h = refl
trim_right-nil (String.◌∷◌ c s) h =
    let (space, rest) = trim_cons-nil c (trim_right s) h in rw space (trim_right-nil s rest)

-- Nothing is left by trimming exactly when every character is white space.
pub trim_space-eq-nil : (s : String) → (trim_space s ≡ "") ↔ (all_space s ≡ true)
unfolding trim_space is_nil
trim_space-eq-nil s = (
  λ e. all_space-trim_left s (trim_right-nil (trim_left s) (rw e refl)),
  λ h. rw (trim_left-nil s h),
)

-- A Go map, or the cases of a `switch`, as an association list; the first entry of a key counts.
module _ {ℓ} {V : Type ℓ} where
  abbrev pub lookup : String → List (String × V) → Option V
  lookup wanted [] = none
  lookup wanted (entry ∷ others) =
      if str_eq entry.0 wanted then some entry.1 else lookup wanted others

  -- `m[key] = value`.
  abbrev pub insert : String → V → List (String × V) → List (String × V)
  insert key value [] = (key, value) ∷ []
  insert key value (entry ∷ others) =
      if str_eq entry.0 key then (key, value) ∷ others else entry ∷ insert key value others

  -- The entry written is found, and every other name finds what it found before.
  pub lookup-insert :
      (entries : List (String × V)) (key wanted : String) (value : V)
      → (if str_eq key wanted then some value else lookup wanted entries)
        ≡ lookup wanted (insert key value entries)
  lookup-insert [] key wanted value = refl
  lookup-insert (entry ∷ others) key wanted value = ground (
    arith,
    eq_iff key wanted,
    eq_iff entry.0 wanted,
    eq_iff entry.0 key,
    lookup-insert others key wanted value,
  )

  -- What holds of every entry holds of an entry that is found.
  abbrev pub Entries {κ} : (String → V → Type κ) → List (String × V) → Type κ
  Entries P [] = Unit
  Entries P ((k, v) ∷ m) = P k v × Entries P m

  pub lookup-Entries {κ} :
      (P : String → V → Type κ) (k : String) {v : V} (m : List (String × V))
      → Entries P m
      → lookup k m ≡ some v
      → P k v
  lookup-Entries P k [] h e = cc
  lookup-Entries P k {v} ((j, w) ∷ m) h e = elim (Bool-cases (str_eq j k)) [
    | inl same ↦ subst (λ i. P i v) ((eq_iff j k).0 same) (subst (P j) (found same e) h.0)
    | inr other ↦ lookup-Entries P k m h.1 (rw other at e)
  ]
    where
      found : str_eq j k ≡ true → lookup k ((j, w) ∷ m) ≡ some v → w ≡ v
      found same e' = cc (rw same at e')
