-- ===== src/Reorder/Order.antt =====
-- The multimap of reorder_hardware: sorted, and stable.
use rvnsyncpoint.Base.{
  append_assoc, append_nil, ℕ, ◌≤◌, ◌≡◌, refl, sym, ap, ◌∙◌, inl, inr, Bool, true, false,
  Bool-cases, List, [], ◌∷◌, ◌++◌, leb, ◌==◌, if◌then◌else◌, All, arith,
}
use rvnsyncpoint.Hardware.Access.{HardwareAccess}
use rvnsyncpoint.Hardware.Replay.{fold_left, IsRecorded}
use rvnsyncpoint.Reorder.{Multimap, insert, insert_access}

-- The accesses of the map, in its order.
abbrev pub values : Multimap → List HardwareAccess
values [] = []
values ((k, a) ∷ rest) = a ∷ values rest

-- From `low` on, the keys do not decrease, and are the time stamps.
abbrev pub IsOrdered : ℕ → Multimap → Type 0
IsOrdered low [] = Unit
IsOrdered low ((k, a) ∷ rest) = (low ≤ k) × (k ≡ a.tsc) × IsOrdered k rest

-- The accesses with one time stamp, in their order.
abbrev pub with_tsc : ℕ → List HardwareAccess → List HardwareAccess
with_tsc t [] = []
with_tsc t (a ∷ rest) = if a.tsc == t then a ∷ with_tsc t rest else with_tsc t rest

insert-IsOrdered :
    (low : ℕ) (access : HardwareAccess) (m : Multimap)
    → IsOrdered low m
    → low ≤ access.tsc
    → IsOrdered low (insert access.tsc access m)
unfolding insert
insert-IsOrdered low access [] h l = (l, refl, tt)
insert-IsOrdered low access ((k, a) ∷ rest) h l = elim (Bool-cases (leb k access.tsc)) [
  | inl e ↦ rw e (h.0, h.1, insert-IsOrdered k access rest h.2 (ground arith))
  | inr e ↦ rw e (l, refl, (ground arith, h.1, h.2))
]

-- A lower bound may be raised to the first key.
none_below :
    (t low : ℕ) (m : Multimap) → IsOrdered low m → (leb low t ≡ false) → with_tsc t (values m) ≡ []
none_below t low [] h l = refl
none_below t low ((k, a) ∷ rest) h l =
    let e : (a.tsc == t) ≡ false = ground arith in rw e (none_below t k rest h.2 (ground arith))

-- Where nothing else is listed, the front is the end.
in_front :
    (b : Bool) (access : HardwareAccess) (rest : List HardwareAccess)
    → (b ≡ true → rest ≡ [])
    → (if b then access ∷ rest else rest) ≡ rest ++ (if b then access ∷ [] else [])
in_front true access rest h = rw (h refl) refl
in_front false access rest h = sym (append_nil rest)

insert-with_tsc :
    (t low : ℕ) (access : HardwareAccess) (m : Multimap)
    → IsOrdered low m
    → with_tsc t (values (insert access.tsc access m))
      ≡ with_tsc t (values m) ++ with_tsc t (access ∷ [])
unfolding insert
insert-with_tsc t low access [] h = refl
insert-with_tsc t low access ((k, a) ∷ rest) h = elim (Bool-cases (leb k access.tsc)) [
  | inl e ↦ rw e (ground (arith, insert-with_tsc t k access rest h.2))
  | inr e ↦ rw e (
      in_front (access.tsc == t) access (with_tsc t (values ((k, a) ∷ rest)))
        (λ q. none_below t k ((k, a) ∷ rest) (omega arith, h.1, h.2) (ground arith)))
]

insert-IsRecorded :
    (access : HardwareAccess) (m : Multimap)
    → IsRecorded access
    → All IsRecorded (values m)
    → All IsRecorded (values (insert access.tsc access m))
unfolding insert
insert-IsRecorded access [] w h = (w, tt)
insert-IsRecorded access ((k, a) ∷ rest) w h = elim (Bool-cases (leb k access.tsc)) [
  | inl e ↦ rw e (h.0, insert-IsRecorded access rest w h.1)
  | inr e ↦ rw e (w, h)
]

pub fold_left-IsOrdered :
    (accesses : List HardwareAccess) (m : Multimap)
    → IsOrdered 0 m
    → IsOrdered 0 (fold_left insert_access m accesses)
fold_left-IsOrdered [] m h = h
fold_left-IsOrdered (access ∷ rest) m h =
    fold_left-IsOrdered rest (insert_access access m) (insert-IsOrdered 0 access m h (omega arith))

pub fold_left-All-IsRecorded :
    (accesses : List HardwareAccess) (m : Multimap)
    → All IsRecorded accesses
    → All IsRecorded (values m)
    → All IsRecorded (values (fold_left insert_access m accesses))
fold_left-All-IsRecorded [] m w h = h
fold_left-All-IsRecorded (access ∷ rest) m w h =
    fold_left-All-IsRecorded rest (insert_access access m) w.1 (insert-IsRecorded access m w.0 h)

with_tsc-append :
    (t : ℕ) (xs ys : List HardwareAccess) → with_tsc t (xs ++ ys) ≡ with_tsc t xs ++ with_tsc t ys
with_tsc-append t [] ys = refl
with_tsc-append t (x ∷ xs) ys = ground (arith, with_tsc-append t xs ys)

-- What the reading loop collects has its time stamps in order, and the accesses with the same time
-- stamp are those that were inserted, in the order in which they were inserted.
pub fold_left-with_tsc :
    (t : ℕ) (accesses : List HardwareAccess) (m : Multimap)
    → IsOrdered 0 m
    → with_tsc t (values (fold_left insert_access m accesses))
      ≡ with_tsc t (values m) ++ with_tsc t accesses
fold_left-with_tsc t [] m h = sym (append_nil (with_tsc t (values m)))
fold_left-with_tsc t (access ∷ rest) m h =
    fold_left-with_tsc t rest (insert_access access m) (insert-IsOrdered 0 access m h (omega arith))
    ∙ (ap (λ l. l ++ with_tsc t rest) (insert-with_tsc t 0 access m h)
        ∙ (append_assoc (with_tsc t (values m)) (with_tsc t (access ∷ [])) (with_tsc t rest)
            ∙ ap (λ l. with_tsc t (values m) ++ l) (sym (with_tsc-append t (access ∷ []) rest))))
