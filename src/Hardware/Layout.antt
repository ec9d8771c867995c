-- ===== src/Hardware/Layout.antt =====
-- A hardware access as bytes: what `operator>>` reads back.
use rvnsyncpoint.Base.{
  append_assoc, ℕ, ◌^◌, ◌<◌, ◌≡◌, refl, ◌∙◌, List, ◌++◌, length, length-append, All, arith,
}
use rvnsyncpoint.Base.Bytes.{IsByte, le_bytes, length-le_bytes}
use rvnsyncpoint.Stream.Cursor.{at}
use rvnsyncpoint.Outfile.Written.{vector_bytes, read_uint-written, read_vector-written}
use rvnsyncpoint.Hardware.Access.{HardwareAccess, read_access}

-- The members fit in their types.
pub record IsSized (access : HardwareAccess) : Type 0 where
  pub tsc : access.tsc < 2 ^ 64
  pub physical_address : access.physical_address < 2 ^ 64
  pub type : access.type < 2 ^ 64
  pub device_id : access.device_id < 2 ^ 64
  pub device_instance : access.device_instance < 2 ^ 32
  pub size : length access.bytes < 2 ^ 64
  pub bytes : All IsByte access.bytes

-- The record of an access, in front of other bytes.
abbrev pub access_bytes : HardwareAccess → List ℕ → List ℕ
access_bytes access more =
    le_bytes 8 access.tsc
    ++ (le_bytes 8 access.physical_address
        ++ (le_bytes 8 access.type
            ++ (le_bytes 8 access.device_id
                ++ (le_bytes 4 access.device_instance ++ (vector_bytes access.bytes ++ more)))))

-- The bytes up to the end of the record, in the order in which they are written.
abbrev pub then_access : List ℕ → HardwareAccess → List ℕ
then_access before access =
    (((((before ++ le_bytes 8 access.tsc) ++ le_bytes 8 access.physical_address)
          ++ le_bytes 8 access.type)
        ++ le_bytes 8 access.device_id)
      ++ le_bytes 4 access.device_instance)
    ++ vector_bytes access.bytes

pub then_access-append :
    (before more : List ℕ) (access : HardwareAccess)
    → then_access before access ++ more ≡ before ++ access_bytes access more
then_access-append before more access =
    append_assoc _ (vector_bytes access.bytes) more
    ∙ (append_assoc _ (le_bytes 4 access.device_instance) _
        ∙ (append_assoc _ (le_bytes 8 access.device_id) _
            ∙ (append_assoc _ (le_bytes 8 access.type) _
                ∙ (append_assoc _ (le_bytes 8 access.physical_address) _
                    ∙ append_assoc before (le_bytes 8 access.tsc) _))))

pub then_access-longer :
    (before : List ℕ) (access : HardwareAccess) → length before < length (then_access before access)
then_access-longer before access =
    let b1 : List ℕ = before ++ le_bytes 8 access.tsc in
    let b2 : List ℕ = b1 ++ le_bytes 8 access.physical_address in
    let b3 : List ℕ = b2 ++ le_bytes 8 access.type in
    let b4 : List ℕ = b3 ++ le_bytes 8 access.device_id in
    omega (
      arith,
      length-le_bytes 8 access.tsc,
      length-append before (le_bytes 8 access.tsc),
      length-append b1 (le_bytes 8 access.physical_address),
      length-append b2 (le_bytes 8 access.type),
      length-append b3 (le_bytes 8 access.device_id),
      length-append b4 (le_bytes 4 access.device_instance),
      length-append (b4 ++ le_bytes 4 access.device_instance) (vector_bytes access.bytes),
    )

-- An access whose members fit, and that stands in a file behind the bytes `before`, is read back,
-- and the reader stands behind it.
pub read_access-written :
    (before more : List ℕ) (access : HardwareAccess)
    → IsSized access
    → read_access (at (before ++ access_bytes access more) (length before))
      ≡ (access, at (then_access before access ++ more) (length (then_access before access)))
unfolding read_access
read_access-written before more access h =
    let b1 : List ℕ = before ++ le_bytes 8 access.tsc in
    let b2 : List ℕ = b1 ++ le_bytes 8 access.physical_address in
    let b3 : List ℕ = b2 ++ le_bytes 8 access.type in
    let b4 : List ℕ = b3 ++ le_bytes 8 access.device_id in
    let b5 : List ℕ = b4 ++ le_bytes 4 access.device_instance in
    rw (read_uint-written before _ 8 access.tsc (omega (arith, h.tsc))) (
      rw (read_uint-written b1 _ 8 access.physical_address (omega (arith, h.physical_address))) (
        rw (read_uint-written b2 _ 8 access.type (omega (arith, h.type))) (
          rw (read_uint-written b3 _ 8 access.device_id (omega (arith, h.device_id))) (
            rw (read_uint-written b4 _ 4 access.device_instance (omega (arith, h.device_instance)))
              (rw (read_vector-written access.bytes b5 more h.bytes h.size) refl)))))
