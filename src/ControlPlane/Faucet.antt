-- ===== src/ControlPlane/Faucet.antt =====
-- crates/control-plane/src/faucet_store.rs: the ledger of faucet transfers. The vector of transfers
-- is a list, oldest first; writing it to its file is a parameter, whose failure is the
-- operation's answer and leaves the change in memory.
pub mod Count
pub mod Ledger
pub mod Survival
pub mod Reopen
pub mod Tests
use simchain.Base.{
  ℕ, zero, suc, Bool, true, false, ◌||◌, not, String, String-eq, Option, none, some, List, [], ◌∷◌,
  ◌++◌, ltb, leb, nat_eq, length, if◌then◌else◌, is_some, ◌==◌, Result, ok, err,
}

pub data FaucetDeliveryState : Type 0 where
  armed confirmed recovering delivery_failed aborted_after_submission : FaucetDeliveryState
  orphaned_after_confirmation : FaucetDeliveryState

pub data FaucetSourceNode : Type 0 where
  node2 node3 : FaucetSourceNode

pub record FaucetOutput : Type 0 where
  pub address : String
  pub amount_sats : ℕ

pub record FaucetInput : Type 0 where
  pub txid : String
  pub vout : ℕ
  pub amount_sats : ℕ
  pub confirmations : ℕ

-- `priority_delta_sats` is an `i64` that no operation of the store reads: a type of its own
pub record FaucetTransfer (Delta : Type 0) : Type 0 where
  pub delivery_state : FaucetDeliveryState
  pub txid : String
  pub source : FaucetSourceNode
  pub wallet_name : String
  pub outputs : List FaucetOutput
  pub total_sats : ℕ
  pub change_sats : ℕ
  pub actual_fee_sats : ℕ
  pub priority_delta_sats : Delta
  pub vsize : ℕ
  pub armed_nodes : List String
  pub visibility : String
  pub armed_at_height : ℕ
  pub armed_at_block_hash : String
  pub armed_at_ms : ℕ
  pub confirmed_height : Option ℕ
  pub confirmed_block_hash : Option String
  pub confirmed_at_ms : Option ℕ
  pub last_error : Option String
  pub observer_unconfirmed : Bool
  pub transfer_url : String
  pub explorer_url : String

pub record StoredFaucetTransfer (Delta : Type 0) : Type 0 where
  pub public : FaucetTransfer Delta
  pub raw_tx_hex : Option String
  pub selected_inputs : List FaucetInput

-- the messages of the store's refusals, and the file system's own
pub data Refusal : Type 0 where
  unsupported_schema several_pending not_pending another_pending invalid_failure : Refusal
  transfer_missing : Refusal
  corrupt : String → Refusal
  io_failed : String → Refusal

abbrev pub max_terminal_history : ℕ
max_terminal_history = 100

abbrev pub faucet_schema_version : ℕ
faucet_schema_version = 1

abbrev pub is_pending_state : FaucetDeliveryState → Bool
is_pending_state FaucetDeliveryState.armed = true
is_pending_state FaucetDeliveryState.recovering = true
is_pending_state _ = false

abbrev pub is_confirmed_state : FaucetDeliveryState → Bool
is_confirmed_state FaucetDeliveryState.confirmed = true
is_confirmed_state _ = false

abbrev pub is_failure_state : FaucetDeliveryState → Bool
is_failure_state FaucetDeliveryState.delivery_failed = true
is_failure_state FaucetDeliveryState.aborted_after_submission = true
is_failure_state _ = false

module _ {A : Type 0} where
  -- `iter().find(..)`
  unfoldable pub find : (A → Bool) → List A → Option A
  find p [] = none
  find p (x ∷ xs) = if p x then some x else find p xs

  -- the same, from the end: `iter().rev().find(..)`
  unfoldable pub find_last : (A → Bool) → List A → Option A
  find_last p [] = none
  find_last p (x ∷ xs) = elim (find_last p xs) [
    | some y ↦ some y
    | none ↦ if p x then some x else none
  ]

  -- changes the first that passes, through `iter_mut().find(..)`
  unfoldable pub update_first : (A → Bool) → (A → A) → List A → List A
  update_first p f [] = []
  update_first p f (x ∷ xs) = if p x then f x ∷ xs else x ∷ update_first p f xs

  -- `remove(position(..))`
  unfoldable pub remove_first : (A → Bool) → List A → List A
  remove_first p [] = []
  remove_first p (x ∷ xs) = if p x then xs else x ∷ remove_first p xs

  -- `filter(..).count()`
  unfoldable pub count_where : (A → Bool) → List A → ℕ
  count_where p [] = 0
  count_where p (x ∷ xs) = if p x then suc (count_where p xs) else count_where p xs

-- what the file holds: no file, text that does not parse, a read error, or a ledger
pub data FileContent (Delta : Type 0) : Type 0 where
  absent : FileContent Delta
  unreadable : String → FileContent Delta
  malformed : String → FileContent Delta
  persisted : (schema_version : ℕ) → List (StoredFaucetTransfer Delta) → FileContent Delta

module _ {Delta : Type 0} where
  abbrev pub is_pending : StoredFaucetTransfer Delta → Bool
  is_pending t = is_pending_state t.public.delivery_state

  abbrev pub is_terminal : StoredFaucetTransfer Delta → Bool
  is_terminal t = not (is_pending t)

  abbrev pub has_txid : String → StoredFaucetTransfer Delta → Bool
  has_txid txid t = t.public.txid == txid

  abbrev pub clear_recovery_material : StoredFaucetTransfer Delta → StoredFaucetTransfer Delta
  clear_recovery_material t = record t { raw_tx_hex = none; selected_inputs = [] }

  -- the loop of `trim`, on fuel
  unfoldable pub trim_within :
      ℕ → List (StoredFaucetTransfer Delta) → List (StoredFaucetTransfer Delta)
  trim_within zero ts = ts
  trim_within (suc fuel) ts =
      let rest = trim_within fuel (remove_first is_terminal ts) in
      if ltb max_terminal_history (count_where is_terminal ts) then rest else ts

  unfoldable pub trim : List (StoredFaucetTransfer Delta) → List (StoredFaucetTransfer Delta)
  trim ts = trim_within (length ts) ts

  unfoldable pub open_store : FileContent Delta → Result Refusal (List (StoredFaucetTransfer Delta))
  open_store absent = ok []
  open_store (unreadable e) = err (io_failed e)
  open_store (malformed e) = err (corrupt e)
  open_store (persisted schema_version ts) =
      if not (nat_eq schema_version faucet_schema_version)
      then err unsupported_schema
      else if leb (count_where is_pending ts) 1
      then ok ts
      else err several_pending

  unfoldable pub pending : List (StoredFaucetTransfer Delta) → Option (StoredFaucetTransfer Delta)
  pending ts = find is_pending ts

  unfoldable pub get : String → List (StoredFaucetTransfer Delta) → Option (FaucetTransfer Delta)
  get txid ts = elim (find (has_txid txid) ts) [ none ↦ none | some t ↦ some t.public ]

  unfoldable pub recent : List (StoredFaucetTransfer Delta) → List (FaucetTransfer Delta)
  recent [] = []
  recent (t ∷ ts) = recent ts ++ t.public ∷ []

  unfoldable pub latest_confirmed :
      List (StoredFaucetTransfer Delta) → Option (FaucetTransfer Delta)
  latest_confirmed ts = elim (find_last (λ t. is_confirmed_state t.public.delivery_state) ts) [
    | none ↦ none
    | some t ↦ some t.public
  ]

  -- a record in another state, with the error that goes with it
  abbrev pub with_state :
      FaucetDeliveryState → Option String → StoredFaucetTransfer Delta → StoredFaucetTransfer Delta
  with_state state error t = record t {
    public = record t.public { delivery_state = state; last_error = error };
  }

  abbrev pub confirm :
      (height : ℕ) (block_hash : String) (confirmed_at_ms : ℕ)
      → StoredFaucetTransfer Delta
      → StoredFaucetTransfer Delta
  confirm height block_hash confirmed_at_ms t = clear_recovery_material (record t {
    public = record t.public {
      delivery_state = FaucetDeliveryState.confirmed;
      confirmed_height = some height;
      confirmed_block_hash = some block_hash;
      confirmed_at_ms = some confirmed_at_ms;
      last_error = none;
    };
  })

  abbrev pub fail :
      FaucetDeliveryState
      → (message : String) → StoredFaucetTransfer Delta
      → StoredFaucetTransfer Delta
  fail state message t = clear_recovery_material (with_state state (some message) t)

  -- `save` is what writing the file answers: the error, if any
  module _ (save : List (StoredFaucetTransfer Delta) → Option String) where
    -- `trim(..); self.save_locked(..)`
    unfoldable pub keep :
        List (StoredFaucetTransfer Delta)
        → List (StoredFaucetTransfer Delta) × Result Refusal (Unit {0})
    keep ts = (trim ts, elim (save (trim ts)) [ none ↦ ok tt | some e ↦ err (io_failed e) ])

    unfoldable pub arm :
        StoredFaucetTransfer Delta
        → List (StoredFaucetTransfer Delta)
        → List (StoredFaucetTransfer Delta) × Result Refusal (Unit {0})
    arm t ts =
        let same = has_txid t.public.txid in
        if not (is_pending t)
        then (ts, err not_pending)
        else if is_some (find same ts)
        then keep (update_first same (λ _. t) ts)
        else if is_some (find is_pending ts)
        then (ts, err another_pending)
        else keep (ts ++ t ∷ [])

    unfoldable pub update :
        String
        → (StoredFaucetTransfer Delta → StoredFaucetTransfer Delta)
        → List (StoredFaucetTransfer Delta)
        → List (StoredFaucetTransfer Delta) × Result Refusal (Unit {0})
    update txid f ts =
        if is_some (find (has_txid txid) ts)
        then keep (update_first (has_txid txid) f ts)
        else (ts, err transfer_missing)

    unfoldable pub mark_recovering :
        (txid : String)
        → Option String
        → List (StoredFaucetTransfer Delta)
        → List (StoredFaucetTransfer Delta) × Result Refusal (Unit {0})
    mark_recovering txid error = update txid (with_state FaucetDeliveryState.recovering error)

    unfoldable pub mark_armed :
        (txid : String)
        → List (StoredFaucetTransfer Delta)
        → List (StoredFaucetTransfer Delta) × Result Refusal (Unit {0})
    mark_armed txid = update txid (with_state FaucetDeliveryState.armed none)

    unfoldable pub mark_confirmed :
        (txid : String) (height : ℕ) (block_hash : String) (confirmed_at_ms : ℕ)
        → List (StoredFaucetTransfer Delta)
        → List (StoredFaucetTransfer Delta) × Result Refusal (Unit {0})
    mark_confirmed txid height block_hash confirmed_at_ms =
        update txid (confirm height block_hash confirmed_at_ms)

    unfoldable pub mark_failed :
        (txid : String)
        → FaucetDeliveryState
        → (message : String) → List (StoredFaucetTransfer Delta)
        → List (StoredFaucetTransfer Delta) × Result Refusal (Unit {0})
    mark_failed txid state message ts =
        if is_failure_state state
        then update txid (fail state message) ts
        else (ts, err invalid_failure)

    unfoldable pub mark_orphaned :
        (txid message : String)
        → List (StoredFaucetTransfer Delta)
        → List (StoredFaucetTransfer Delta) × Result Refusal (Unit {0})
    mark_orphaned txid message =
        update txid (fail FaucetDeliveryState.orphaned_after_confirmation message)
