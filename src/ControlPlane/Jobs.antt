-- ===== src/ControlPlane/Jobs.antt =====
-- crates/control-plane/src/job_store.rs: the event files of the jobs. A file is the list of the events
-- that its lines hold; its length in bytes is a parameter. The directory is a table from job identifiers
-- to the current file and the rotated one. Failures of the file system are left out.
pub mod Order
pub mod Events
pub mod Tests
use simchain.Base.{
  ℕ, Bool, true, false, not, ◌&&◌, ◌||◌, String, String-eq, Option, none, some, List, [], ◌∷◌, ◌++◌,
  leb, nat_eq, if◌then◌else◌, all, Result, ok, err,
}
use simchain.Base.Text.{codes}
use simchain.Base.Table.{lookup, insert, remove}

-- `data` is a JSON value, which no operation of the store reads: a type of its own
pub record JobEvent (Value : Type 0) : Type 0 where
  pub sequence : ℕ
  pub job_id : String
  pub timestamp_ms : ℕ
  pub event : String
  pub phase : String
  pub message : String
  pub data_value : Option Value

pub record EventFiles (Value : Type 0) : Type 0 where
  pub current : Option (List (JobEvent Value))
  pub rotated : Option (List (JobEvent Value))

pub data JobStoreError : Type 0 where
  invalid_job_id : JobStoreError

abbrev pub event_file_limit : ℕ
event_file_limit = 2097152

abbrev pub is_id_byte : ℕ → Bool
is_id_byte c =
    (leb 48 c && leb c 57)
    || (leb 65 c && leb c 90)
    || (leb 97 c && leb c 122)
    || nat_eq c 45
    || nat_eq c 95

abbrev pub has_codes : List ℕ → Bool
has_codes [] = false
has_codes (c ∷ cs) = true

abbrev pub validate_job_id : String → Bool
validate_job_id job_id = has_codes (codes job_id) && all is_id_byte (codes job_id)

module _ {Value : Type 0} where
  abbrev pub no_files : EventFiles Value
  no_files = record { current = none; rotated = none }

  abbrev pub files_of : String → List (String × EventFiles Value) → EventFiles Value
  files_of job_id store = elim (lookup job_id store) [ none ↦ no_files | some files ↦ files ]

  -- the lines of a file, if it is there
  abbrev pub lines_of : Option (List (JobEvent Value)) → List (JobEvent Value)
  lines_of none = []
  lines_of (some events) = events

  -- one place of a stable sort
  unfoldable pub insert_by_sequence : JobEvent Value → List (JobEvent Value) → List (JobEvent Value)
  insert_by_sequence e [] = e ∷ []
  insert_by_sequence e (f ∷ fs) =
      if leb e.sequence f.sequence then e ∷ f ∷ fs else f ∷ insert_by_sequence e fs

  -- `sort_by_key`
  unfoldable pub sort_by_sequence : List (JobEvent Value) → List (JobEvent Value)
  sort_by_sequence [] = []
  sort_by_sequence (e ∷ es) = insert_by_sequence e (sort_by_sequence es)

  unfoldable pub dedup_after : ℕ → List (JobEvent Value) → List (JobEvent Value)
  dedup_after k [] = []
  dedup_after k (e ∷ es) =
      if nat_eq e.sequence k then dedup_after k es else e ∷ dedup_after e.sequence es

  -- `dedup_by_key`
  unfoldable pub dedup_by_sequence : List (JobEvent Value) → List (JobEvent Value)
  dedup_by_sequence [] = []
  dedup_by_sequence (e ∷ es) = e ∷ dedup_after e.sequence es

  unfoldable pub read_events :
      String → List (String × EventFiles Value) → Result JobStoreError (List (JobEvent Value))
  read_events job_id store =
      let files = files_of job_id store in
      if validate_job_id job_id
      then ok
          (dedup_by_sequence (sort_by_sequence (lines_of files.rotated ++ lines_of files.current)))
      else err invalid_job_id

  unfoldable pub remove_events :
      String
      → List (String × EventFiles Value)
      → Result JobStoreError (List (String × EventFiles Value))
  remove_events job_id store =
      if validate_job_id job_id then ok (remove job_id store) else err invalid_job_id

  -- `file_size` is the length of a file with these lines
  module _ (file_size : List (JobEvent Value) → ℕ) where
    abbrev pub is_full : Option (List (JobEvent Value)) → Bool
    is_full none = false
    is_full (some events) = leb event_file_limit (file_size events)

    -- a full file takes the place of the rotated one
    unfoldable pub rotate : EventFiles Value → EventFiles Value
    rotate files =
        if is_full files.current then record { current = none; rotated = files.current } else files

    unfoldable pub append_event :
        JobEvent Value
        → List (String × EventFiles Value)
        → Result JobStoreError (List (String × EventFiles Value))
    append_event event store =
        let files = rotate (files_of event.job_id store) in
        if validate_job_id event.job_id
        then ok (
            insert event.job_id
              (record files { current = some (lines_of files.current ++ event ∷ []) }) store)
        else err invalid_job_id

    -- appends in turn, as long as they succeed
    unfoldable pub append_events :
        List (JobEvent Value)
        → List (String × EventFiles Value)
        → Result JobStoreError (List (String × EventFiles Value))
    append_events [] store = ok store
    append_events (e ∷ es) store = elim (append_event e store) [
      | err x ↦ err x
      | ok store' ↦ append_events es store'
    ]
