-- ===== src/Device/Layout/Loading.antt =====
-- Loading a file of devices.
use rvnsyncpoint.Base.{
  append_assoc, append_nil, ℕ, ◌^◌, ◌≤◌, ◌<◌, ◌≡◌, refl, sym, ap, ◌∙◌, Bool, true, false, not, ◌||◌,
  Option, none, some, List, [], ◌∷◌, ◌++◌, length, All, ◌==◌, if◌then◌else◌, arith,
}
use rvnsyncpoint.Base.Bytes.{le_bytes}
use rvnsyncpoint.Outcome.{Outcome, ok, throws, crash, stuck}
use rvnsyncpoint.Stream.{StreamableFile}
use rvnsyncpoint.Stream.Cursor.{at, load-at}
use rvnsyncpoint.Stream.Ifstream.{Files}
use rvnsyncpoint.Outfile.Written.{read_uint-written}
use rvnsyncpoint.Device.{Device}
use rvnsyncpoint.Device.File.{
  Devices, IoFile, io_file_magic, assign, read_devices, load_devices, load_magic, load,
}
use rvnsyncpoint.Device.Devices.{lookup, IsIncreasing, assign-IsIncreasing, lookup-assign}
use rvnsyncpoint.Device.Layout.{items_bytes, device_bytes, IsDevice, read_device-Reads}

-- The map behind a list of devices.
abbrev assign_each : List Device → Devices → Devices
assign_each [] m = m
assign_each (d ∷ rest) m = assign_each rest (assign d.id d m)

read_devices-written :
    (limit : ℕ) (devices : List Device) (before : List ℕ) (m : Devices)
    → limit ≤ 2 ^ 32
    → All (IsDevice limit) devices
    → read_devices limit (length devices) (record {
      file = at (before ++ items_bytes device_bytes devices) (length before);
      devices = m;
    })
      ≡ (
        ok true,
        record {
          file =
              at
                (before ++ items_bytes device_bytes devices)
                (length (before ++ items_bytes device_bytes devices));
          devices = assign_each devices m;
        },
      )
unfolding read_devices
read_devices-written limit [] before m small h =
    ap (λ n. (ok true, record { file = at (before ++ []) n; devices = m }))
      (ap length (sym (append_nil before)))
read_devices-written limit (d ∷ rest) before m small h =
    let body : List ℕ = items_bytes device_bytes rest in
    let after : Outcome Device × StreamableFile → Outcome Bool × IoFile = λ r. elim r.0 [
      | ok e ↦ read_devices limit (length rest) (record { file = r.1; devices = assign e.id e m })
      | throws e ↦ (throws e, record { file = r.1; devices = m })
      | crash ↦ (crash, record { file = r.1; devices = m })
      | stuck ↦ (stuck, record { file = r.1; devices = m })
    ] in
    let reached : List ℕ → Outcome Bool × IoFile =
      λ l. (ok true, record { file = at l (length l); devices = assign_each (d ∷ rest) m }) in
    ap after (read_device-Reads limit small d h.0 before body)
    ∙ (read_devices-written limit rest (before ++ device_bytes d) (assign d.id d m) small h.1
        ∙ ap reached (append_assoc before (device_bytes d) body))

-- The last device with an identifier, or `found` where there is none.
abbrev pub last_with : ℕ → Option Device → List Device → Option Device
last_with id found [] = found
last_with id found (d ∷ rest) = last_with id (if d.id == id then some d else found) rest

lookup-assign_each :
    (id : ℕ) (devices : List Device) (m : Devices)
    → IsIncreasing 0 m
    → lookup id (assign_each devices m) ≡ last_with id (lookup id m) devices
lookup-assign_each id [] m h = refl
lookup-assign_each id (d ∷ rest) m h =
    lookup-assign_each id rest (assign d.id d m) (assign-IsIncreasing 0 d.id d m h (omega arith))
    ∙ ap (λ found. last_with id found rest) (lookup-assign id d.id 0 d m h)

-- A file of devices: the header, and the devices.
abbrev pub io_header : ℕ → ℕ → List ℕ
io_header version count = (le_bytes 8 io_file_magic ++ le_bytes 4 version) ++ le_bytes 8 count

module _ (limit version : ℕ) (devices : List Device) (small : limit ≤ 2 ^ 32) (v : version < 2 ^ 32)
    (few : length devices < 2 ^ 64) (h : All (IsDevice limit) devices) where
  load_magic-written :
      load_magic limit (record {
        file =
            at
              (le_bytes 8 io_file_magic
                ++ (le_bytes 4 version
                    ++ (le_bytes 8 (length devices) ++ items_bytes device_bytes devices)))
              0;
        devices = [];
      })
      ≡ (
        ok true,
        record {
          file =
              at
                (io_header version (length devices) ++ items_bytes device_bytes devices)
                (length (io_header version (length devices) ++ items_bytes device_bytes devices));
          devices = assign_each devices [];
        },
      )
  unfolding load_magic load_devices
  load_magic-written =
      let magic : List ℕ = le_bytes 8 io_file_magic in
      let body : List ℕ = items_bytes device_bytes devices in
      let count : List ℕ = le_bytes 8 (length devices) in
      rw
        (read_uint-written [] (le_bytes 4 version ++ (count ++ body)) 8 io_file_magic (omega arith))
        (rw (read_uint-written magic (count ++ body) 4 version v) (
          rw (read_uint-written (magic ++ le_bytes 4 version) body 8 (length devices) few)
            (read_devices-written limit devices (io_header version (length devices)) [] small h)))

-- A file with the right magic number, any version, and devices whose members fit in their types and
-- whose strings have no NUL characters and fit in the reader's room, is loaded, whatever was loaded
-- before; then every identifier has the last device of the file with it, or none where there is no
-- such device.
pub load-last_with :
    (files : Files) (limit file_path version : ℕ) (devices : List Device) (s : IoFile)
    → files file_path
      ≡ some (io_header version (length devices) ++ items_bytes device_bytes devices)
    → limit ≤ 2 ^ 32
    → version < 2 ^ 32
    → length devices < 2 ^ 64
    → All (IsDevice limit) devices
    → ((load files limit file_path s).0 ≡ ok true)
      × ((id : ℕ) → lookup id (load files limit file_path s).1.devices ≡ last_with id none devices)
unfolding load
load-last_with files limit file_path version devices s found small v few h =
    let magic : List ℕ = le_bytes 8 io_file_magic in
    let body : List ℕ = items_bytes device_bytes devices in
    let count : List ℕ = le_bytes 8 (length devices) in
    let contents : List ℕ = io_header version (length devices) ++ body in
    let start : StreamableFile → Outcome Bool × IoFile = λ f.
      if f.eof || not f.opened
      then (ok false, record { file = f; devices = [] })
      else load_magic limit (record { file = f; devices = [] }) in
    let e =
      ap start (load-at files file_path contents s.file found)
      ∙ (ap (λ l. start (at l 0))
            (append_assoc (magic ++ le_bytes 4 version) count body
              ∙ append_assoc magic (le_bytes 4 version) (count ++ body))
          ∙ load_magic-written limit version devices small v few h) in
    (ap (λ r. r.0) e, λ id. ap (λ r. lookup id r.1.devices) e ∙ lookup-assign_each id devices [] tt)
