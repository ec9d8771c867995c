-- ===== src/Ostream/Reader.antt =====
-- A reader of printed lines: words that are a label, `=` and a hexadecimal number, between other
-- words. It knows nothing of the printers.
pub mod Quiet
pub mod Labels
use rvnsyncpoint.Base.{
  ℕ, zero, suc, ◌+◌, ◌-◌, ◌*◌, ◌/◌, ◌%◌, ◌≤◌, ◌<◌, ◌≡◌, ◌≢◌, refl, sym, ap, ◌∙◌, Bool, true, false,
  not, ◌&&◌, ◌||◌, Option, none, some, List, [], ◌∷◌, ◌++◌, All, Bool-cases, inl, inr, replicate,
  leb, ltb, ==_iff, ◌==◌, if◌then◌else◌, arith,
}
use mathlib.Core.Path.{subst}
use native.Mathlib.Decide.{dec_lt}
use rvnsyncpoint.Ostream.{digit, digits}

-- What has been read, the word so far, and the value behind its `=`.
pub record Reader : Type 0 where
  pub items : List (List ℕ × ℕ)
  pub word : List ℕ
  pub value : Option ℕ

abbrev pub reader : Reader
reader = record { items = []; word = []; value = none }

-- The value of a hexadecimal digit.
abbrev pub digit_value : ℕ → ℕ
digit_value c = if leb b'a' c then c - b'a' + 10 else c - b'0'

-- What has been read, at the end of a word.
abbrev pub finish_word : List (List ℕ × ℕ) → List ℕ → Option ℕ → List (List ℕ × ℕ)
finish_word items word none = items
finish_word items word (some n) = items ++ ((word, n) ∷ [])

abbrev pub finish : Reader → List (List ℕ × ℕ)
finish r = finish_word r.items r.word r.value

-- A character that ends no word.
abbrev in_word : Option ℕ → ℕ → Reader → Reader
in_word none c r =
    if c == b'=' then record r { value = some 0 } else record r { word = r.word ++ (c ∷ []) }
in_word (some n) c r = record r { value = some (n * 16 + digit_value c) }

unfoldable pub step : Reader → ℕ → Reader
step r c =
    if (c == b' ') || (c == 10)
    then record { items = finish r; word = []; value = none }
    else in_word r.value c r

unfoldable pub run : Reader → List ℕ → Reader
run r [] = r
run r (c ∷ cs) = run (step r c) cs

pub run-append : (r : Reader) (xs ys : List ℕ) → run r (xs ++ ys) ≡ run (run r xs) ys
unfolding run
run-append r [] ys = refl
run-append r (x ∷ xs) ys = run-append (step r x) xs ys

-- The digits of a value that is being read.
abbrev pub reading_value : List (List ℕ × ℕ) → List ℕ → ℕ → Reader
reading_value items word n = record { items = items; word = word; value = some n }

step-digit :
    (items : List (List ℕ × ℕ)) (word : List ℕ) (n d : ℕ)
    → d < 16
    → step (reading_value items word n) (digit d) ≡ reading_value items word (n * 16 + d)
unfolding step
step-digit items word n d h =
    let inside : ((digit d == b' ') || (digit d == 10)) ≡ false = ground arith in
    let same : digit_value (digit d) ≡ d = ground arith in rw (inside, same) refl

pub run-zeros :
    (items : List (List ℕ × ℕ)) (word : List ℕ) (k : ℕ)
    → run (reading_value items word 0) (replicate k b'0') ≡ reading_value items word 0
unfolding run step
run-zeros items word zero = refl
run-zeros items word (suc k) = run-zeros items word k

-- The digits of a number with more than one of them.
digits-longer :
    (left n : ℕ)
    → 16 ≤ n
    → digits 16 (suc left) n ≡ digits 16 left (n / 16) ++ (digit (n % 16) ∷ [])
unfolding digits
digits-longer left n h = ground arith

digits-single : (left n : ℕ) → n < 16 → digits 16 left n ≡ digit n ∷ []
unfolding digits
digits-single zero n h = refl
digits-single (suc left) n h = ground arith

-- The value that the digits of a number give.
pub run-digits :
    (items : List (List ℕ × ℕ)) (word : List ℕ) (left n : ℕ)
    → n ≤ left
    → run (reading_value items word 0) (digits 16 left n) ≡ reading_value items word n
unfolding run
run-digits items word zero n h =
    rw (digits-single 0 n (omega arith))
      (step-digit items word 0 n (omega arith) ∙ ap (reading_value items word) (omega arith))
run-digits items word (suc left) n h = elim (dec_lt n 16) [
  | yes small ↦
      rw (digits-single (suc left) n small)
        (step-digit items word 0 n small ∙ ap (reading_value items word) (omega arith))
  | no large ↦
      let start : Reader = reading_value items word 0 in
      rw
        (
          digits-longer left n (omega arith),
          run-append start (digits 16 left (n / 16)) (digit (n % 16) ∷ []),
          run-digits items word left (n / 16) (omega arith),
        )
        (step-digit items word (n / 16) (n % 16) (omega arith)
          ∙ ap (reading_value items word) (omega arith))
]

-- A reader that is in no value.
abbrev pub between : List (List ℕ × ℕ) → List ℕ → Reader
between items word = record { items = items; word = word; value = none }
