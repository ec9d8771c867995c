-- ===== src/Ostream/Reader/Labels.antt =====
-- Labels, which start a value.
use rvnsyncpoint.Base.{
  ℕ, ◌≡◌, refl, sym, ap, ◌∙◌, Bool, true, false, not, ◌&&◌, List, [], ◌∷◌, ◌++◌, ==_iff, ◌==◌,
  arith,
}
use mathlib.Core.Path.{subst}
use rvnsyncpoint.Ostream.Reader.{Reader, reader, finish, step, run, between, reading_value}

-- The characters of a label behind its first: a word and `=`.
abbrev pub ends_label : List ℕ → Bool
ends_label [] = false
ends_label (c ∷ []) = c == b'='
ends_label (c ∷ cs) = not (c == b' ') && not (c == 10) && not (c == b'=') && ends_label cs

step-word :
    (items : List (List ℕ × ℕ)) (word : List ℕ) (c : ℕ)
    → (not (c == b' ') && not (c == 10) && not (c == b'=')) ≡ true
    → step (between items word) c ≡ between items (word ++ (c ∷ []))
unfolding step
step-word items word c h = ground (arith, h)

step-equals :
    (items : List (List ℕ × ℕ)) (word : List ℕ) (c : ℕ)
    → (c == b'=') ≡ true
    → step (between items word) c ≡ reading_value items word 0
unfolding step
step-equals items word c h =
    subst (λ c. step (between items word) c ≡ reading_value items word 0)
      (sym ((==_iff c b'=').0 h)) refl

-- What a label starts, behind a separator.
pub run-label :
    (items : List (List ℕ × ℕ)) (word cs : List ℕ)
    → ends_label cs ≡ true
    → run (between items word) cs ≡ reading_value items (run (between [] word) cs).word 0
unfolding run
run-label items word [] h = absurd (ground (arith, h))
run-label items word (c ∷ []) h =
    step-equals items word c h
    ∙ sym (ap (λ r. reading_value items r.word 0) (step-equals [] word c h))
run-label items word (c ∷ d ∷ cs) h =
    let plain : (not (c == b' ') && not (c == 10) && not (c == b'=')) ≡ true = ground (arith, h) in
    let next_word : List ℕ = word ++ (c ∷ []) in
    ap (λ r. run r (d ∷ cs)) (step-word items word c plain)
    ∙ (run-label items next_word (d ∷ cs) (ground (arith, h))
        ∙ sym (ap (λ r. reading_value items (run r (d ∷ cs)).word 0) (step-word [] word c plain)))

-- A label with a space before it, and its test.
abbrev pub is_label : List ℕ → Bool
is_label [] = false
is_label (c ∷ cs) = c == b' ' && ends_label cs

pub run-spaced_label :
    (r : Reader) (cs : List ℕ)
    → is_label cs ≡ true
    → run r cs ≡ reading_value (finish r) (run reader cs).word 0
unfolding run step
run-spaced_label r [] h = absurd (ground (arith, h))
run-spaced_label r (c ∷ cs) h =
    subst (λ c. run r (c ∷ cs) ≡ reading_value (finish r) (run reader (c ∷ cs)).word 0)
      (sym ((==_iff c b' ').0 (ground (arith, h)))) (run-label (finish r) [] cs (ground (arith, h)))
