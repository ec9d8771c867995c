-- ===== src/SyncPoint/Equality.antt =====
-- What the two comparisons of src/sync_point.cpp decide.
use rvnsyncpoint.Base.{
  ℕ, ◌≡◌, refl, ap, sym, ◌∙◌, ◌↔◌, Bool, true, false, ◌&&◌, List, [], ◌∷◌, ◌==◌, arith,
}
use rvnsyncpoint.SyncPoint.{SyncPoint, same_point, is_equivalent}

-- A row of comparisons, joined from the left as `and` joins them.
abbrev pub all_from : Bool → List ℕ → List ℕ → Bool
all_from b [] ys = b
all_from b (x ∷ xs) [] = b
all_from b (x ∷ xs) (y ∷ ys) = all_from (b && x == y) xs ys

all_from-false : (xs ys : List ℕ) → all_from false xs ys ≡ false
all_from-false [] ys = refl
all_from-false (x ∷ xs) [] = refl
all_from-false (x ∷ xs) (y ∷ ys) = all_from-false xs ys

-- Lists of one length.
abbrev SameLength : List ℕ → List ℕ → Type 0
SameLength [] [] = Unit
SameLength (x ∷ xs) (y ∷ ys) = SameLength xs ys
SameLength _ _ = ⊥

pub all_from→eq :
    (b : Bool) (xs ys : List ℕ)
    → SameLength xs ys
    → all_from b xs ys ≡ true
    → (b ≡ true) × (xs ≡ ys)
all_from→eq b [] [] s h = (h, refl)
all_from→eq b [] (y ∷ ys) s h = absurd s
all_from→eq b (x ∷ xs) [] s h = absurd s
all_from→eq b (x ∷ xs) (y ∷ ys) s h = ground (arith, all_from→eq (b && x == y) xs ys s h)

pub eq→all_from : (xs : List ℕ) → all_from true xs xs ≡ true
eq→all_from [] = refl
eq→all_from (x ∷ xs) = ground (arith, eq→all_from xs)

-- The fields that `operator==` compares, in its order.
abbrev compared : SyncPoint → List ℕ
compared p =
    p.rax ∷ p.rbx ∷ p.rcx ∷ p.rdx ∷ p.rsi ∷ p.rdi ∷ p.rbp ∷ p.rsp ∷ p.r8 ∷ p.r9 ∷ p.r10 ∷ p.r11
    ∷ p.r12 ∷ p.r13 ∷ p.r14 ∷ p.r15 ∷ p.rip ∷ p.rflags ∷ p.tsc ∷ p.cr0 ∷ p.cr2 ∷ p.cr3 ∷ p.cr4
    ∷ p.cs ∷ p.interrupt_vector ∷ p.fault_error_code ∷ p.type ∷ []

abbrev compared_equivalent : SyncPoint → List ℕ
compared_equivalent p =
    p.rax ∷ p.rbx ∷ p.rcx ∷ p.rdx ∷ p.rsi ∷ p.rdi ∷ p.rbp ∷ p.rsp ∷ p.r8 ∷ p.r9 ∷ p.r10 ∷ p.r11
    ∷ p.r12 ∷ p.r13 ∷ p.r14 ∷ p.r15 ∷ p.rip ∷ p.rflags ∷ p.cr0 ∷ p.cr2 ∷ p.cr3 ∷ p.cr4 ∷ p.cs ∷ []

same_point-row : (p q : SyncPoint) → same_point p q ≡ all_from true (compared p) (compared q)
unfolding same_point
same_point-row p q = refl

is_equivalent-row :
    (p q : SyncPoint)
    → is_equivalent p q ≡ all_from true (compared_equivalent p) (compared_equivalent q)
unfolding is_equivalent
is_equivalent-row p q = refl

-- The point `p` with those parts of `q` that `operator==` does not compare.
abbrev pub with_uncompared : SyncPoint → SyncPoint → SyncPoint
with_uncompared p q = record p {
  fpu_sw = q.fpu_sw;
  fpu_cw = q.fpu_cw;
  fpu_tags = q.fpu_tags;
  blocks = q.blocks;
}

abbrev pub with_unchecked : SyncPoint → SyncPoint → SyncPoint
with_unchecked p q = record p {
  tsc = q.tsc;
  fpu_sw = q.fpu_sw;
  fpu_cw = q.fpu_cw;
  fpu_tags = q.fpu_tags;
  interrupt_vector = q.interrupt_vector;
  fault_error_code = q.fault_error_code;
  type = q.type;
  blocks = q.blocks;
}

compared→eq : (p q : SyncPoint) → compared p ≡ compared q → with_uncompared p q ≡ q
compared→eq p q h = cc

compared_equivalent→eq :
    (p q : SyncPoint) → compared_equivalent p ≡ compared_equivalent q → with_unchecked p q ≡ q
compared_equivalent→eq p q h = cc

-- Two points compare equal exactly when they differ at most in the floating point registers and
-- in the dumped blocks.
pub same_point_iff : (p q : SyncPoint) → (same_point p q ≡ true) ↔ (with_uncompared p q ≡ q)
same_point_iff p q = (
  λ h.
      compared→eq p q
        (all_from→eq true (compared p) (compared q) tt (sym (same_point-row p q) ∙ h)).1,
  λ e.
      same_point-row p q
      ∙ (ap (λ r. all_from true (compared p) (compared r)) (sym e) ∙ eq→all_from (compared p)),
)

-- Two points are equivalent exactly when they differ at most in the time stamp, the interrupt, the
-- kind, the floating point registers and the dumped blocks.
pub is_equivalent_iff : (p q : SyncPoint) → (is_equivalent p q ≡ true) ↔ (with_unchecked p q ≡ q)
is_equivalent_iff p q = (
  λ h.
      compared_equivalent→eq p q
        (all_from→eq true (compared_equivalent p) (compared_equivalent q) tt
          (sym (is_equivalent-row p q) ∙ h)).1,
  λ e.
      is_equivalent-row p q
      ∙ (ap (λ r. all_from true (compared_equivalent p) (compared_equivalent r)) (sym e)
          ∙ eq→all_from (compared_equivalent p)),
)

pub same_point_refl : (p : SyncPoint) → same_point p p ≡ true
same_point_refl p = (same_point_iff p p).1 refl
