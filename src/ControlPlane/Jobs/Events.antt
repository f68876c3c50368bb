-- ===== src/ControlPlane/Jobs/Events.antt =====
-- crates/control-plane/src/job_store.rs: what reading gives back of the events that were appended.
use simchain.Base.{
  ℕ, true, ◌<◌, String, String-eq, some, List, [], ◌∷◌, ◌++◌, ◌≡◌, refl, sym, ap, ◌∙◌, arith, ok,
  All, append_assoc, append-nil, subst, Bool-cases, Option-cases, inl, inr, ◌⊎◌, ◌≤◌, false,
}
use simchain.Base.Table.{lookup, lookup-insert_self, insert}
use simchain.ControlPlane.Jobs.{
  JobEvent, EventFiles, validate_job_id, files_of, lines_of, sort_by_sequence, dedup_by_sequence,
  read_events, is_full, rotate, append_event, append_events, event_file_limit,
}
use simchain.ControlPlane.Jobs.Order.{Rising, dedup-Rising, sort-Rising, Rising-drop}

module _ {Value : Type 0} where
  -- the lines of the two files, the older first
  abbrev pub kept : EventFiles Value → List (JobEvent Value)
  kept files = lines_of files.rotated ++ lines_of files.current

  files_of-insert :
      (job_id : String) (files : EventFiles Value) (store : List (String × EventFiles Value))
      → files_of job_id (insert job_id files store) ≡ files
  files_of-insert job_id files store = rw (lookup-insert_self job_id files store, files_of) refl

  kept-nothing : (job_id : String) → kept (files_of {Value = Value} job_id []) ≡ []
  unfolding lookup
  kept-nothing job_id = refl

  read_events-kept :
      (job_id : String) (store : List (String × EventFiles Value)) (es : List (JobEvent Value))
      → validate_job_id job_id ≡ true
      → kept (files_of job_id store) ≡ es
      → Rising es
      → read_events job_id store ≡ ok es
  unfolding read_events
  read_events-kept job_id store es valid k r =
      rw (valid, read_events)
        (ap (λ xs. ok (dedup_by_sequence (sort_by_sequence xs))) k
          ∙ ap (λ xs. ok (dedup_by_sequence xs)) (sort-Rising es r)
          ∙ ap (λ xs. ok xs) (dedup-Rising es r))

  regroup :
      (old d t d' es : List (JobEvent Value)) (e : JobEvent Value)
      (middle new : List (JobEvent Value))
      → old ≡ d ++ t
      → middle ≡ t ++ e ∷ []
      → middle ++ es ≡ d' ++ new
      → old ++ (e ∷ es) ≡ (d ++ d') ++ new
  regroup old d t d' es e middle new q k q' =
      ap (λ xs. xs ++ (e ∷ es)) q
      ∙ append_assoc d t (e ∷ es)
      ∙ ap (λ xs. d ++ xs) (sym (append_assoc t (e ∷ []) es) ∙ ap (λ xs. xs ++ es) (sym k) ∙ q')
      ∙ sym (append_assoc d d' new)

  -- losing nothing, or a state that lasts, over two stretches
  lost_join :
      (d d' : List (JobEvent Value)) (A B : Type 0)
      → (d ≡ []) ⊎ A
      → (d' ≡ []) ⊎ B
      → (A → B)
      → ((d ++ d') ≡ []) ⊎ B
  lost_join d d' A B h (inr b) f = inr b
  lost_join d d' A B (inr a) (inl n) f = inr (f a)
  lost_join d d' A B (inl m) (inl n) f = inl (ap (λ xs. xs ++ d') m ∙ n)

  module _ (file_size : List (JobEvent Value) → ℕ) where
    -- the rotated file has reached the limit
    abbrev HasFull : EventFiles Value → Type 0
    HasFull files = event_file_limit ≤ file_size (lines_of files.rotated)

    -- the current file, if it has lines, is below the limit
    abbrev HasRoom : EventFiles Value → Type 0
    HasRoom files =
        (lines_of files.current ≡ []) ⊎ (file_size (lines_of files.current) < event_file_limit)

    -- a rotation drops the older file, keeps the full one whole, and leaves room
    abbrev Rotated : (files files' : EventFiles Value) → Type 0
    Rotated files files' =
        (dropped : List (JobEvent Value)) × (kept files ≡ dropped ++ kept files')
        × ((dropped ≡ []) ⊎ HasFull files')
        × (HasFull files → HasFull files')
        × HasRoom files'

    not_full-HasRoom :
        (files : EventFiles Value) → is_full file_size files.current ≡ false → HasRoom files
    not_full-HasRoom files room = elim (Option-cases files.current) [
      | inl q ↦ inl (ap lines_of q)
      | inr (lines, q) ↦ inr (rw q (ground (arith, rw q at room)))
    ]

    rotate-Rotated : (files : EventFiles Value) → Rotated files (rotate file_size files)
    unfolding rotate
    rotate-Rotated files = elim (Bool-cases (is_full file_size files.current)) [
      | inl full ↦ elim (Option-cases files.current) [
        | inl q ↦ absurd (cc)
        | inr (lines, q) ↦
            let whole : event_file_limit ≤ file_size (lines_of files.current) =
              rw q (ground (arith, rw q at full)) in
            rw (full, rotate)
              (
                lines_of files.rotated,
                ap (λ t. lines_of files.rotated ++ t) (sym (append-nil (lines_of files.current))),
                inr whole,
                (λ _. whole),
                inl refl,
              )
      ]
      | inr room ↦ rw (room, rotate) ([], refl, inl refl, (λ h. h), not_full-HasRoom files room)
    ]

    -- what an append leaves of the two files: it may rotate, and then adds its line to the current one
    abbrev Appended :
        String → JobEvent Value → (store new : List (String × EventFiles Value)) → Type 0
    Appended job_id e store new =
        (files : EventFiles Value) × Rotated (files_of job_id store) files
        × (files_of job_id new ≡ record files { current = some (lines_of files.current ++ e ∷ []) })

    append_event-Appended :
        (job_id : String) (e : JobEvent Value) (store : List (String × EventFiles Value))
        → e.job_id ≡ job_id
        → validate_job_id job_id ≡ true
        → (new : List (String × EventFiles Value)) × (append_event file_size e store ≡ ok new)
          × Appended job_id e store new
    unfolding append_event
    append_event-Appended job_id e store same valid =
        let files = rotate file_size (files_of e.job_id store) in
        let next : EventFiles Value = record files {
          current = some (lines_of files.current ++ e ∷ []);
        } in
        let valid' : validate_job_id e.job_id ≡ true = ap validate_job_id same ∙ valid in
        (
          insert e.job_id next store,
          rw (valid', append_event) refl,
          subst (λ id. Appended id e store (insert e.job_id next store)) same
              (
                files,
                rotate-Rotated (files_of e.job_id store),
                files_of-insert e.job_id next store,
              ),
        )

    -- the lines kept, after an append
    Appended-kept :
        (files new : EventFiles Value) (e : JobEvent Value)
        → new ≡ record files { current = some (lines_of files.current ++ e ∷ []) }
        → kept new ≡ kept files ++ e ∷ []
    Appended-kept files new e q =
        ap kept q ∙ sym (append_assoc (lines_of files.rotated) (lines_of files.current) (e ∷ []))

    -- what appends in turn lose
    abbrev Lost :
        String → List (JobEvent Value) → (store new : List (String × EventFiles Value)) → Type 0
    Lost job_id es store new =
        (dropped : List (JobEvent Value)) × (kept (files_of job_id store) ++ es
          ≡ dropped ++ kept (files_of job_id new))
        × ((dropped ≡ []) ⊎ HasFull (files_of job_id new))
        × (HasFull (files_of job_id store) → HasFull (files_of job_id new))

    append_events-Lost :
        (job_id : String) (es : List (JobEvent Value)) (store : List (String × EventFiles Value))
        → validate_job_id job_id ≡ true
        → All (λ e. e.job_id ≡ job_id) es
        → (new : List (String × EventFiles Value)) × (append_events file_size es store ≡ ok new)
          × Lost job_id es store new
    unfolding append_events
    append_events-Lost job_id [] store valid same =
        (store, refl, ([], append-nil (kept (files_of job_id store)), inl refl, λ h. h))
    append_events-Lost job_id (e ∷ es) store valid (same, all_same) =
        let (next, ran, (files, (d, q, l, f, _), q_next)) =
          append_event-Appended job_id e store same valid in
        let (new, ran_on, (d', q', l', f')) = append_events-Lost job_id es next valid all_same in
        let k = Appended-kept files (files_of job_id next) e q_next in
        let full : HasFull files → HasFull (files_of job_id new) = λ h. f' (rw q_next h) in
        (
          new,
          rw (ran, append_events) ran_on,
          (
            d ++ d',
            regroup (kept (files_of job_id store)) d (kept files) d' es e
                (kept (files_of job_id next)) (kept (files_of job_id new)) q k q',
            lost_join d d' (HasFull files) (HasFull (files_of job_id new)) l l' full,
            λ h. full (f h),
          ),
        )

    -- reading after the last append
    abbrev pub ReadsBack : String → List (JobEvent Value) → JobEvent Value → Type 0
    ReadsBack job_id es e =
        (store : List (String × EventFiles Value)) × (new : List (String × EventFiles Value))
        × (lost : List (JobEvent Value)) × (older : List (JobEvent Value)) × (newest : List
            (JobEvent Value))
        × (append_events file_size es [] ≡ ok store)
        × (append_event file_size e store ≡ ok new)
        × (es ≡ lost ++ (older ++ newest))
        × (read_events job_id new ≡ ok ((older ++ newest) ++ e ∷ []))
        × ((lost ≡ []) ⊎ (event_file_limit ≤ file_size older))
        × ((newest ≡ []) ⊎ (file_size newest < event_file_limit))

    -- Let events of one valid job, with rising sequence numbers, be appended to a store without files,
    -- and let one more be, where the file system does not fail. All appends succeed. Reading gives
    -- back a final stretch of these events in order, the last one included: those of an older file,
    -- then those of the newest one. The newest file, without the last event, is empty or below the
    -- limit, and nothing is lost before the older file has reached the limit.
    pub read_events-append_events :
        (job_id : String) (es : List (JobEvent Value)) (e : JobEvent Value)
        → validate_job_id job_id ≡ true
        → All (λ f. f.job_id ≡ job_id) es
        → e.job_id ≡ job_id
        → Rising (es ++ e ∷ [])
        → ReadsBack job_id es e
    read_events-append_events job_id es e valid same last_same rising =
        let (store, ran, (d, q, l, _)) = append_events-Lost job_id es [] valid same in
        let (new, ran_last, (files, (d', q', l', f, room), q_new)) =
          append_event-Appended job_id e store last_same valid in
        let t = kept files in
        let k = Appended-kept files (files_of job_id new) e q_new in
        let split : es ≡ (d ++ d') ++ t =
          ap (λ xs. xs ++ es) (sym (kept-nothing job_id))
          ∙ q
          ∙ ap (λ xs. d ++ xs) q'
          ∙ sym (append_assoc d d' t) in
        let whole : es ++ e ∷ [] ≡ (d ++ d') ++ (t ++ e ∷ []) =
          ap (λ xs. xs ++ e ∷ []) split ∙ append_assoc (d ++ d') t (e ∷ []) in
        let tail_rises = Rising-drop (d ++ d') (t ++ e ∷ []) (subst Rising whole rising) in
        (
          store,
          new,
          d ++ d',
          lines_of files.rotated,
          lines_of files.current,
          ran,
          ran_last,
          split,
          read_events-kept job_id new (t ++ e ∷ []) valid k tail_rises,
          lost_join d d' (HasFull (files_of job_id store)) (HasFull files) l l' f,
          room,
        )
