-- ===== src/SyncFile/Blocks/Ends.antt =====
-- Reading the blocks of a point ends, whatever the data file holds and whatever state it is in.
use mathlib.Core.Option
use mathlib.Core.Path.{subst}
use rvnsyncpoint.Base.{
  ℕ, zero, suc, ◌-◌, ◌≤◌, ◌<◌, ◌≡◌, ◌≢◌, refl, sym, ap, ◌∙◌, inl, inr, true, false, Option, none,
  some, List, [], ◌∷◌, ◌++◌, replicate, length, take, drop, length-take, length-drop, ◌==◌,
  Bool-cases, arith,
}
use rvnsyncpoint.Base.Bytes.{le_value, le_value-append_zeros}
use rvnsyncpoint.Stream.{
  StreamableFile, read_uint, read_u8, read_u32, read_u64, read_items, read_vector,
}
use rvnsyncpoint.SyncPoint.{SyncPointData, data_end}
use rvnsyncpoint.SyncFile.Blocks.{read_blocks, read_data}

-- The bytes that are left.
abbrev pub remaining : StreamableFile → ℕ
remaining f = length f.in_file.bytes - f.in_file.offset

-- A read keeps the file, and gives no byte back.
pub record Follows (f g : StreamableFile) : Type 0 where
  pub same : g.in_file.bytes ≡ f.in_file.bytes
  pub less : remaining g ≤ remaining f

Follows-trans : {f g h : StreamableFile} → Follows f g → Follows g h → Follows f h
Follows-trans a b = record { same = b.same ∙ a.same; less = omega (arith, a.less, b.less) }

pub read_uint-Follows : (n : ℕ) (f : StreamableFile) → Follows f (read_uint n f).1
unfolding read_uint
read_uint-Follows n f = record { same = ground arith; less = ground arith }

le_value-empty : (bs : List ℕ) (k : ℕ) → length bs ≡ 0 → le_value (bs ++ replicate k 0) ≡ 0
unfolding le_value
le_value-empty [] k h = le_value-append_zeros [] k
le_value-empty (b ∷ bs) k h = absurd (omega arith)

-- A number that is not 0 takes a byte at least.
pub read_uint-takes :
    (n : ℕ) (f : StreamableFile) → (read_uint n f).0 ≢ 0 → remaining (read_uint n f).1 < remaining f
unfolding read_uint
read_uint-takes n f h = ground (
  arith,
  length-take n (drop f.in_file.offset f.in_file.bytes),
  length-drop f.in_file.offset f.in_file.bytes,
  le_value-empty (take n (drop f.in_file.offset f.in_file.bytes))
      (n - length (take n (drop f.in_file.offset f.in_file.bytes))),
  le_value-empty [] n,
)

read_items-going :
    (left : ℕ) (f : StreamableFile)
    → f.eof ≡ false
    → (read_items read_u8 (suc left) f).1 ≡ (read_items read_u8 left (read_uint 1 f).1).1
unfolding read_items
read_items-going left f h = ground arith

read_items-ended :
    (left : ℕ) (f : StreamableFile) → f.eof ≡ true → (read_items read_u8 (suc left) f).1 ≡ f
unfolding read_items
read_items-ended left f h = ground arith

read_items-Follows : (left : ℕ) (f : StreamableFile) → Follows f (read_items read_u8 left f).1
read_items-Follows zero f = unfold read_items in record { same = refl; less = omega arith }
read_items-Follows (suc left) f = elim (Bool-cases f.eof) [
  | inl ended ↦
      subst (Follows f) (sym (read_items-ended left f ended))
        (record { same = refl; less = omega arith })
  | inr going ↦
      subst (Follows f) (sym (read_items-going left f going))
        (Follows-trans (read_uint-Follows 1 f) (read_items-Follows left (read_uint 1 f).1))
]

read_vector-Follows : (f : StreamableFile) → Follows f (read_vector read_u8 f).1
unfolding read_vector
read_vector-Follows f =
    Follows-trans (read_uint-Follows 8 f) (read_items-Follows (read_uint 8 f).0 (read_uint 8 f).1)

-- With more rounds than bytes left in the data file, the loop over the blocks of a point ends, in
-- every state of the stream.
pub read_blocks-ne-none :
    (rounds : ℕ) (f : StreamableFile) → remaining f < rounds → (read_blocks rounds f).0 ≢ none
unfolding read_blocks
read_blocks-ne-none zero f h = elim h [ ]
read_blocks-ne-none (suc rounds) f h = elim (Bool-cases ((read_u32 f).0 == data_end)) [
  | inl marker ↦ rw marker (λ e. cc)
  | inr block ↦ rw block (
      let g = (read_u32 f).1 in
      let g' = (read_u64 g).1 in
      let g'' = (read_vector read_u8 g').1 in
      ground (
        arith,
        read_uint-takes 4 f,
        read_uint-Follows 8 g,
        read_vector-Follows g',
        read_blocks-ne-none rounds g'',
      ))
]

-- So the blocks of a point are always all that the data file holds for it.
pub read_data_lem :
    (f : StreamableFile)
    → (blocks : List SyncPointData) × (f' : StreamableFile) × (read_blocks
          (suc (suc (length f.in_file.bytes)))
          f
        ≡ (some blocks, f'))
      × (read_data f ≡ (blocks, f'))
unfolding read_data
read_data_lem f =
    go (read_blocks (suc (suc (length f.in_file.bytes))) f) refl
      (read_blocks-ne-none (suc (suc (length f.in_file.bytes))) f (omega arith))
  where
    go :
        (r : Option (List SyncPointData) × StreamableFile)
        → read_blocks (suc (suc (length f.in_file.bytes))) f ≡ r
        → (read_blocks (suc (suc (length f.in_file.bytes))) f).0 ≢ none
        → (blocks : List SyncPointData) × (f' : StreamableFile) × (read_blocks
              (suc (suc (length f.in_file.bytes)))
              f
            ≡ (some blocks, f'))
          × (read_data f ≡ (blocks, f'))
    go (none, f') e ne = absurd (ne (ap (λ r. r.0) e))
    go (some blocks, f') e ne = (blocks, f', e, ap (λ r. (Option.get_or r.0 [], r.1)) e)
