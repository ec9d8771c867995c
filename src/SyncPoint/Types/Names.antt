-- ===== src/SyncPoint/Types/Names.antt =====
-- The names of the kinds of points tell the kinds apart.
use rvnsyncpoint.Base.{
  ℕ, ◌≡◌, refl, ap, sym, ◌∙◌, ◌⊎◌, inl, inr, Bool, true, ◌&&◌, ◌==◌, List, [], ◌∷◌, if◌then◌else◌,
  Bool-cases, arith,
}
use Prim.Native.String.{String}
use text.Mathlib.Text
use rvnsyncpoint.SyncPoint.Types.{type_names, type_name_in, sync_point_type_to_string}

-- The first kind of that name; 256 is none.
code_of : List (ℕ × String) → String → ℕ
code_of [] name = 256
code_of ((value, n) ∷ rest) name = if Text.◌==◌ n name then value else code_of rest name

module _ (read : String → ℕ) where
  -- Every name in the rows is read as its kind.
  abbrev are_read : List (ℕ × String) → Bool
  are_read [] = true
  are_read ((value, name) ∷ rest) = read name == value && are_read rest

  are_read-head :
      (value code : ℕ) (name : String) (rest : List (ℕ × String))
      → are_read ((value, name) ∷ rest) ≡ true
      → code == value ≡ true
      → read name ≡ code
  are_read-head value code name rest h here = ground arith

  are_read-tail :
      (value : ℕ) (name : String) (rest : List (ℕ × String))
      → are_read ((value, name) ∷ rest) ≡ true
      → are_read rest ≡ true
  are_read-tail value name rest h = ground arith

  type_name_in-read :
      (rows : List (ℕ × String)) (code : ℕ)
      → are_read rows ≡ true
      → (type_name_in rows code ≡ "Unknown") ⊎ (read (type_name_in rows code) ≡ code)
  type_name_in-read [] code h = inl refl
  type_name_in-read ((value, name) ∷ rest) code h = elim (Bool-cases (code == value)) [
    | inl here ↦ rw here (inr (are_read-head value code name rest h here))
    | inr other ↦ rw other (type_name_in-read rest code (are_read-tail value name rest h))
  ]

type_names-are_read : are_read (code_of type_names) type_names ≡ true
unfolding code_of
type_names-are_read = refl

read_name :
    (code : ℕ)
    → ¬ (sync_point_type_to_string code ≡ "Unknown")
    → code_of type_names (sync_point_type_to_string code) ≡ code
unfolding sync_point_type_to_string
read_name code named =
    elim (type_name_in-read (code_of type_names) type_names code type_names-are_read) [
      | inl none ↦ absurd (named none)
      | inr found ↦ found
    ]

-- Two kinds of points that have the same name, and not the one for an unknown kind, are the same
-- kind.
pub sync_point_type_to_string-injective :
    (code other : ℕ)
    → ¬ (sync_point_type_to_string code ≡ "Unknown")
    → sync_point_type_to_string code ≡ sync_point_type_to_string other
    → code ≡ other
sync_point_type_to_string-injective code other named same =
    sym (read_name code named)
    ∙ (ap (code_of type_names) same ∙ read_name other (λ unknown. named (same ∙ unknown)))
