-- ===== src/SyncFile/State.antt =====
-- The members of `sync_file`, its small accessors, and calls that may throw.
use rvnsyncpoint.Base.{ℕ, ◌≡◌, ap, ◌^◌, Bool, not, ◌==◌, ltb, leb, if◌then◌else◌}
use rvnsyncpoint.Outcome.{Outcome, Error, ok, throws, crash, stuck}
use rvnsyncpoint.Stream
use rvnsyncpoint.Stream.{StreamableFile, streamable_file}
use rvnsyncpoint.SyncPoint.{SyncPoint, sync_point}
use rvnsyncpoint.SyncEvent.{SyncEvent, sync_event}

pub record SyncFile : Type 0 where
  pub file : StreamableFile
  pub data_file : StreamableFile
  pub current : SyncPoint
  pub current_event : SyncEvent
  pub position : ℕ
  pub last_valid_position : ℕ
  pub record_size : ℕ
  pub version : ℕ
  pub sync_point_count : ℕ

abbrev pub header_size : ℕ
header_size = 1024

abbrev pub sync_point_magic : ℕ
sync_point_magic = 0x70636e79734e5652

abbrev pub sync_point_data_magic : ℕ
sync_point_data_magic = 0x64636e79734e5652

abbrev pub sync_point_file_version : ℕ
sync_point_file_version = 3

-- The largest uint64_t, and one more.
abbrev pub u64_mod : ℕ
u64_mod = 2 ^ 64

-- What the memory of a new object held in the members that the constructor does not set.
pub record Unset : Type 0 where
  pub file_opened : Bool
  pub data_file_opened : Bool
  pub record_size : ℕ
  pub version : ℕ

unfoldable pub sync_file : Unset → SyncFile
unfolding streamable_file sync_point sync_event
sync_file unset = record {
  file = streamable_file unset.file_opened;
  data_file = streamable_file unset.data_file_opened;
  current = sync_point;
  current_event = sync_event;
  position = 0;
  last_valid_position = 0;
  record_size = unset.record_size;
  version = unset.version;
  sync_point_count = 0;
}

unfoldable pub is_valid : SyncFile → Bool
is_valid s = s.file.opened

abbrev pub eof : SyncFile → Bool
eof s = s.file.eof

unfoldable pub is_deprecated_file : SyncFile → Bool
is_deprecated_file s = ltb s.version sync_point_file_version

unfoldable pub has_fault_error_codes : SyncFile → Bool
has_fault_error_codes s = leb 2 s.version

unfoldable pub validate : SyncFile → SyncFile
validate s =
    if not (s.last_valid_position == s.position)
    then record s { last_valid_position = s.position }
    else s

-- A call takes the object and returns how it ended and the object behind it; what was written
-- before an exception stays written.
abbrev pub Action : Type 0 → Type 0
Action A = SyncFile → Outcome A × SyncFile

infixl 5 ◌>>=◌ ◌>>◌
abbrev pub ◌>>=◌ : {A B : Type 0} → Action A → (A → Action B) → Action B
◌>>=◌ m k s =
    let (r, s') = m s in
    elim r [ ok a ↦ k a s' | throws e ↦ (throws e, s') | crash ↦ (crash, s') | stuck ↦ (stuck, s') ]

abbrev pub ◌>>◌ : {A B : Type 0} → Action A → Action B → Action B
m >> k = m >>= λ _. k

module _ {A : Type 0} where
  abbrev pub pure : A → Action A
  pure a s = (ok a, s)

  abbrev pub gets : (SyncFile → A) → Action A
  gets f s = (ok (f s), s)

  abbrev pub throw : Error → Action A
  throw e s = (throws e, s)

  -- A read of the main file, and of the data file.
  abbrev pub on_file : Stream.Read A → Action A
  on_file m s = let (a, f) = m s.file in (ok a, record s { file = f })

  abbrev pub on_data_file : Stream.Read A → Action A
  on_data_file m s = let (a, f) = m s.data_file in (ok a, record s { data_file = f })

  -- An outcome that changes nothing.
  abbrev pub lift : Outcome A → Action A
  lift r s = (r, s)

abbrev pub modify : (SyncFile → SyncFile) → Action (Unit {0})
modify f s = (ok tt, f s)

abbrev pub modify_file : (StreamableFile → StreamableFile) → Action (Unit {0})
modify_file f s = (ok tt, record s { file = f s.file })

abbrev pub modify_data_file : (StreamableFile → StreamableFile) → Action (Unit {0})
modify_data_file f s = (ok tt, record s { data_file = f s.data_file })

-- A call that returned goes on with its value in the state that it left.
pub bind-ok :
    {A B : Type 0} (m : Action A) (k : A → Action B) (s : SyncFile) (a : A) (t : SyncFile)
    → m s ≡ (ok a, t)
    → (m >>= k) s ≡ k a t
bind-ok m k s a t e = ap (λ r. ((λ _. r) >>= k) s) e
