-- ===== src/Server/Channels/Lifetime.antt =====
-- crates/voipc-server/src/state.rs: creation and deletion of channels and the channel table.
use vo_ipc.Prelude.{
  ℕ, ◌+◌, ◌%◌, ◌<◌, ◌≡◌, refl, Option, none, some, [], true, false, leb, Bool-cases, inl, inr, ◌==◌,
  arith,
}
use vo_ipc.Prelude.Bytes.{Bytes, u32_mod}
use vo_ipc.Prelude.Maps.{lookup, remove, lookup-insert, lookup-remove, insert-Every, remove-Every}
use vo_ipc.Server.State.{ServerState, Channel, is_done, set_channel, next_channel_id}
use vo_ipc.Server.Channels.{
  new_channel, create_channel, delete_in, delete_channel, count_user_channels, has_name,
}
use vo_ipc.Server.Channels.Invariant.{IsChannel, Inv}

pub new_channel-IsChannel :
    (k : ℕ) (name : Bytes) (password : Option Bytes) (by : ℕ) (key : Bytes)
    → 0 < k
    → IsChannel k (new_channel k name password by key)
new_channel-IsChannel k name password by key h = record {
  id_is = refl;
  distinct = tt;
  counted = refl;
  capacity = λ z. omega arith;
  flagged = refl;
  invited = tt;
  invited_few = omega arith;
  lobby_open = λ e. absurd (omega arith);
  lobby_free = λ e. absurd (omega arith);
  lobby_large = λ e. refl;
}

-- Ids are left: the counter is above General's and does not wrap at the next call.
pub record HasIds (s : ServerState) : Type 0 where
  pub above : 0 < s.next_channel_id
  pub no_wrap : s.next_channel_id + 1 < u32_mod

pub create_channel-Inv_new :
    (s : ServerState) (ch : Channel)
    → IsChannel s.next_channel_id ch
    → HasIds s
    → Inv s
    → Inv (set_channel s.next_channel_id ch (next_channel_id s).0)
unfolding set_channel next_channel_id
create_channel-Inv_new s ch c ids v = record {
  channels_ok = insert-Every IsChannel s.next_channel_id ch s.channels c v.channels_ok;
  ids_used =
      insert-Every (λ i x. i < (s.next_channel_id + 1) % u32_mod) s.next_channel_id ch s.channels
        (omega (arith, ids.no_wrap)) (λ k x e. omega (arith, v.ids_used k x e, ids.no_wrap));
  general = ground (arith, lookup-insert s.next_channel_id 0 ch s.channels, v.general, ids.above);
}

-- `create_channel` keeps the invariant as long as there are ids left.
pub create_channel-Inv :
    (s : ServerState) (name : Bytes) (password : Option Bytes) (by : ℕ) (key : Bytes)
    → HasIds s
    → Inv s
    → Inv (create_channel s name password by key).0
unfolding create_channel
create_channel-Inv s name password by key ids v =
    let fresh =
      create_channel-Inv_new s _
        (new_channel-IsChannel s.next_channel_id name password by key ids.above) ids v in
    elim (Bool-cases (leb s.settings.max_channels (count_user_channels s.channels))) [
      | inl many ↦ rw many v
      | inr few ↦ rw few (elim (Bool-cases (has_name name s.channels)) [
        | inl taken ↦ rw taken v
        | inr free ↦ rw free (unfold next_channel_id in fresh)
      ])
    ]

delete_in-Inv :
    (s : ServerState) (k : ℕ) (o : Option Channel)
    → (k == 0) ≡ false
    → Inv s
    → Inv (delete_in s k o).0
unfolding delete_in
delete_in-Inv s k none h v = v
delete_in-Inv s k (some ch) h v =
    let gone : Inv (record s { channels = remove k s.channels }) = record {
      channels_ok = remove-Every IsChannel k s.channels v.channels_ok;
      ids_used = remove-Every (λ i x. i < s.next_channel_id) k s.channels v.ids_used;
      general = ground (arith, lookup-remove k 0 s.channels, v.general);
    } in
    ground (arith, gone)

-- `delete_channel` keeps the invariant: in particular it never takes General away.
pub delete_channel-Inv : (s : ServerState) (k : ℕ) → Inv s → Inv (delete_channel s k).0
unfolding delete_channel
delete_channel-Inv s k v = elim (Bool-cases (k == 0)) [
  | inl lobby ↦ rw lobby v
  | inr other ↦ rw other (delete_in-Inv s k (lookup k s.channels) other v)
]

delete_in-done :
    (s : ServerState) (k : ℕ) (o : Option Channel)
    → is_done (delete_in s k o).1 ≡ true
    → (ch : Channel) × (o ≡ some ch)
      × (ch.persistent ≡ false)
      × (ch.members ≡ [])
      × ((delete_in s k o).0 ≡ record s { channels = remove k s.channels })
unfolding delete_in
delete_in-done s k none h = absurd (ground arith)
delete_in-done s k (some ch) h = (ch, refl, ground arith, ground arith, ground arith)

delete_in-failed :
    (s : ServerState) (k : ℕ) (o : Option Channel)
    → is_done (delete_in s k o).1 ≡ false
    → (delete_in s k o).0 ≡ s
unfolding delete_in
delete_in-failed s k none h = refl
delete_in-failed s k (some ch) h = ground arith

-- A channel is deleted only if it is there, is not General, is not persistent and has no members; if
-- it is deleted, nothing else changes, and if it is not, nothing changes.
pub delete_channel_guarded :
    (s : ServerState) (k : ℕ)
    → (is_done (delete_channel s k).1 ≡ true
        → ((k == 0) ≡ false)
          × ((ch : Channel) × (lookup k s.channels ≡ some ch)
              × (ch.persistent ≡ false)
              × (ch.members ≡ [])
              × ((delete_channel s k).0 ≡ record s { channels = remove k s.channels })))
      × (is_done (delete_channel s k).1 ≡ false → (delete_channel s k).0 ≡ s)
unfolding delete_channel
delete_channel_guarded s k = elim (Bool-cases (k == 0)) [
  | inl lobby ↦ rw lobby (λ h. absurd (ground arith), λ h. refl)
  | inr other ↦ rw other (
    λ h. (refl, delete_in-done s k (lookup k s.channels) h),
    λ h. delete_in-failed s k (lookup k s.channels) h,
  )
]
