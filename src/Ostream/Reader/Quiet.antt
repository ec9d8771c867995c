-- ===== src/Ostream/Reader/Quiet.antt =====
-- Text that adds nothing to what is read, as it has no `=`.
use rvnsyncpoint.Base.{
  ℕ, zero, suc, ◌/◌, ◌%◌, ◌≡◌, ◌≢◌, refl, sym, Bool, true, false, not, ◌&&◌, ◌||◌, List, [], ◌∷◌,
  ◌++◌, All, Bool-cases, inl, inr, replicate, ltb, ◌==◌, arith,
}
use mathlib.Core.Path.{subst}
use native.Mathlib.Decide.{dec_lt}
use rvnsyncpoint.Ostream.{digit, digits}
use rvnsyncpoint.Ostream.Reader.{Reader, step, run, between}

-- Text without `=` adds no item to it.
abbrev pub IsQuiet : List ℕ → Type 0
IsQuiet = All (λ c. c ≢ b'=')

abbrev pub StaysBetween : List (List ℕ × ℕ) → Reader → Type 0
StaysBetween items r = (word : List ℕ) × (r ≡ between items word)

step-quiet :
    (items : List (List ℕ × ℕ)) (word : List ℕ) (c : ℕ)
    → c ≢ b'='
    → StaysBetween items (step (between items word) c)
unfolding step
step-quiet items word c h = elim (Bool-cases ((c == b' ') || (c == 10))) [
  | inl e ↦ ([], rw e refl)
  | inr e ↦ (word ++ (c ∷ []), ground (arith, e))
]

pub run-quiet :
    (items : List (List ℕ × ℕ)) (word cs : List ℕ)
    → IsQuiet cs
    → StaysBetween items (run (between items word) cs)
unfolding run
run-quiet items word [] h = (word, refl)
run-quiet items word (c ∷ cs) h =
    let (w, e) = step-quiet items word c h.0 in
    subst (λ r. StaysBetween items (run r cs)) (sym e) (run-quiet items w cs h.1)

-- The test of it.
abbrev pub is_quiet : List ℕ → Bool
is_quiet [] = true
is_quiet (c ∷ cs) = not (c == b'=') && is_quiet cs

pub is_quiet-IsQuiet : (cs : List ℕ) → is_quiet cs ≡ true → IsQuiet cs
is_quiet-IsQuiet [] h = tt
is_quiet-IsQuiet (c ∷ cs) h = (ground (arith, h), is_quiet-IsQuiet cs (ground (arith, h)))

pub IsQuiet-append : (xs ys : List ℕ) → IsQuiet xs → IsQuiet ys → IsQuiet (xs ++ ys)
IsQuiet-append [] ys g h = h
IsQuiet-append (x ∷ xs) ys g h = (g.0, IsQuiet-append xs ys g.1 h)

pub IsQuiet-replicate : (k c : ℕ) → c ≢ b'=' → IsQuiet (replicate k c)
IsQuiet-replicate zero c h = tt
IsQuiet-replicate (suc k) c h = (h, IsQuiet-replicate k c h)

digit-quiet : (d : ℕ) → digit d ≢ b'='
digit-quiet d = elim (dec_lt d 10) [ yes h ↦ ground arith | no h ↦ ground arith ]

pub IsQuiet-digits : (base left n : ℕ) → IsQuiet (digits base left n)
unfolding digits
IsQuiet-digits base zero n = (digit-quiet n, tt)
IsQuiet-digits base (suc left) n =
    let last : IsQuiet (digit (n % base) ∷ []) = (digit-quiet (n % base), tt) in
    let more =
      IsQuiet-append (digits base left (n / base)) _ (IsQuiet-digits base left (n / base)) last in
    elim (ltb n base)
      as (λ b. IsQuiet (elim b [
        | true ↦ digit n ∷ []
        | false ↦ digits base left (n / base) ++ (digit (n % base) ∷ [])
      ])) [ true ↦ (digit-quiet n, tt) | false ↦ more ]
