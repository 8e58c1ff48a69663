-- ===== src/Auth/Flow/Protocol.antt =====
-- The order of calls that the flow of lib.rs may make, as a relation on the calls made so far.
use rust_agent_harness.Prelude.{
  ℕ, ◌≤◌, ◌≡◌, refl, suc, Bool, true, false, Option, some, List, [], ◌∷◌, Result, ok, arith,
  if◌then◌else◌, ap,
}
use rust_agent_harness.Text.{Bytes, Text}
use rust_agent_harness.Auth.Credential.Claims.{Libraries, is_blank, valid_header_component}
use rust_agent_harness.Auth.Credential.Record.{CredentialRecord, Codec}
use rust_agent_harness.Auth.Credential.Usable.{IsUsable}
use rust_agent_harness.Auth.Run.{
  AuthorizedCredential, Event, store_read, lock_acquired, lock_released, refresh_called,
  store_replaced, operated,
}

-- Every operation so far was refused as unauthorized.
abbrev pub AllRefused : List Event → Type 0
AllRefused [] = Unit
AllRefused (operated credential refused ∷ calls) = (refused ≡ true) × AllRefused calls
AllRefused (_ ∷ calls) = AllRefused calls

abbrev pub LastIs : Event → List Event → Type 0
LastIs event [] = ⊥
LastIs event (last ∷ calls) = last ≡ event

module _ (libs : Libraries) (codec : Codec) where
  -- A credential whose parts are valid as headers of a request.
  abbrev pub IsSendable : AuthorizedCredential → Type 0
  IsSendable credential =
      (valid_header_component libs credential.access_token ≡ true)
      × (valid_header_component libs credential.account_id ≡ true)

  -- `Protocol held refreshes operations calls`: the calls are in an order that is allowed, the
  -- lock is held after them or not, and so many of them contacted the refresh endpoint and ran
  -- the operation.
  pub data Protocol : Bool → ℕ → ℕ → List Event → Type 0 where
    start : Protocol false 0 0 []
    read :
        {held : Bool} {refreshes operations : ℕ} {calls : List Event}
        (answer : Result (Unit {0}) (Option Bytes))
        → Protocol held refreshes operations calls
        → Protocol held refreshes operations (store_read answer ∷ calls)
    acquire :
        {refreshes operations : ℕ} {calls : List Event}
        → Protocol false refreshes operations calls
        → Protocol true refreshes operations (lock_acquired ∷ calls)
    release :
        {refreshes operations : ℕ} {calls : List Event}
        → Protocol true refreshes operations calls
        → Protocol false refreshes operations (lock_released ∷ calls)
    -- At most once, under the lock, and with the token of the record that was just read.
    refresh :
        {operations : ℕ} {calls : List Event} (b : Bytes) (r : CredentialRecord)
        → codec.from_slice b ≡ some r
        → is_blank r.refresh_token ≡ false
        → LastIs (store_read (ok (some b))) calls
        → Protocol true 0 operations calls
        → Protocol true 1 operations (refresh_called r.refresh_token ∷ calls)
    -- Right after the refresh, and by a record that can be used again.
    replace :
        {operations : ℕ} {calls : List Event} (token : Text) (b : Bytes) (r : CredentialRecord)
        → codec.to_vec r ≡ some b
        → IsUsable libs r
        → LastIs (refresh_called token) calls
        → Protocol true 1 operations calls
        → Protocol true 1 operations (store_replaced b ∷ calls)
    first_operation :
        {refreshes : ℕ} {calls : List Event} (credential : AuthorizedCredential) (refused : Bool)
        → IsSendable credential
        → Protocol false refreshes 0 calls
        → Protocol false refreshes 1 (operated credential refused ∷ calls)
    -- Only when the first was refused.
    second_operation :
        {refreshes : ℕ} {calls : List Event} (credential : AuthorizedCredential) (refused : Bool)
        → IsSendable credential
        → AllRefused calls
        → Protocol false refreshes 1 calls
        → Protocol false refreshes 2 (operated credential refused ∷ calls)

  -- The calls were all in order, and the lock is free after them.
  pub record IsOrderly (calls : List Event) : Type 0 where
    pub refreshes : ℕ
    pub operations : ℕ
    pub protocol : Protocol false refreshes operations calls

abbrev pub count : (Event → Bool) → List Event → ℕ
count test [] = 0
count test (event ∷ calls) = if test event then suc (count test calls) else count test calls

abbrev pub is_refresh : Event → Bool
is_refresh (refresh_called token) = true
is_refresh _ = false

abbrev pub is_operation : Event → Bool
is_operation (operated credential refused) = true
is_operation _ = false

module _ (libs : Libraries) (codec : Codec) where
  pub Protocol-counts :
      (held : Bool) (refreshes operations : ℕ) (calls : List Event)
      → Protocol libs codec held refreshes operations calls
      → (count is_refresh calls ≡ refreshes)
        × (count is_operation calls ≡ operations)
        × (refreshes ≤ 1)
        × (operations ≤ 2)
  Protocol-counts held n m calls start = (refl, refl, omega arith, omega arith)
  Protocol-counts held n m calls (read answer p) = Protocol-counts held n m _ p
  Protocol-counts held n m calls (acquire p) = Protocol-counts false n m _ p
  Protocol-counts held n m calls (release p) = Protocol-counts true n m _ p
  Protocol-counts held n m calls (refresh b r e filled last p) =
      let (x, y, z, w) = Protocol-counts true 0 m _ p in (ap suc x, y, omega arith, w)
  Protocol-counts held n m calls (replace token b r e usable last p) = Protocol-counts true 1 m _ p
  Protocol-counts held n m calls (first_operation credential refused sendable p) =
      let (x, y, z, w) = Protocol-counts false n 0 _ p in (x, ap suc y, z, omega arith)
  Protocol-counts held n m calls (second_operation credential refused sendable all p) =
      let (x, y, z, w) = Protocol-counts false n 1 _ p in (x, ap suc y, z, omega arith)
