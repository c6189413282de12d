-- ===== src/Host/Registered.antt =====
-- What the groups of a broker may hold: members that are guests, with their writers, and no empty group.
use dots_rust.Prelude.{
  ℕ, ◌+◌, ◌<◌, ◌^◌, ◌≡◌, refl, sym, ap, ◌∙◌, String, Bool, true, false, not, Option, none, some,
  List, [], ◌∷◌, ◌==◌, ==_iff, if◌then◌else◌, arith, Bool-cases, Option-cases, inl, inr, unwrap_or,
}
use dots_rust.Prelude.Assoc.{
  lookup, erase, put, keep, map_values, map_option, nat_key, string_key, pair_key, Every, IsMap,
  lookup-put, lookup-erase, erase-IsMap, put-IsMap, keep-IsMap, map_values-IsMap, erase-Every,
  put-Every, lookup-Every, erase-Every_apart, keep-Every, map_values-Every, Every-mono,
}
use dots_rust.Host.Types.{Env, Host, Group, GuestRecord, FilteredSub, host_id}
use dots_rust.Host.Groups.{
  no_group, group_is_empty, put_back, without_client, writer_for, accept, join_group, leave_group,
  leave_filtered_sub, add_filtered_sub, drop_guest, set_client_name, group_or_default,
  with_registry,
}
pub mod Members
pub mod Guests
pub mod Traffic

-- The writer of a guest.
abbrev pub writer_in : List (ℕ × GuestRecord) → ℕ → Option ℕ
writer_in guests i = map_option (λ (r : GuestRecord). r.write_half) (lookup i guests)

pub record IsLive (writers : ℕ → Option ℕ) (g : Group) : Type 0 where
  pub used : group_is_empty g ≡ false
  pub members_map : IsMap g.unfiltered_subs
  pub subs_map : IsMap g.filtered_subs
  pub members : Every (λ i a. writers i ≡ some a) g.unfiltered_subs
  pub subs : Every (λ k s. writers (k.0) ≡ some (FilteredSub.writer s)) g.filtered_subs

pub record IsRegistered (guests : List (ℕ × GuestRecord)) (groups : List (String × Group))
    (next_id next_address : ℕ) : Type 0 where
  pub guests_map : IsMap guests
  pub groups_map : IsMap groups
  pub live : Every (λ name g. IsLive (writer_in guests) g) groups
  pub apart : (i j a : ℕ) → writer_in guests i ≡ some a → writer_in guests j ≡ some a → i ≡ j
  pub allocated : (i a : ℕ) → writer_in guests i ≡ some a → a < next_address
  pub identified : (i a : ℕ) → writer_in guests i ≡ some a → (host_id < i) × (i < next_id)
  pub started : host_id < next_id

pub IsLive-mono :
    (w v : ℕ → Option ℕ) (g : Group)
    → ((i a : ℕ) → w i ≡ some a → v i ≡ some a)
    → IsLive w g
    → IsLive v g
IsLive-mono w v g f h = record {
  used = h.used;
  members_map = h.members_map;
  subs_map = h.subs_map;
  members = Every-mono (λ i a. w i ≡ some a) (λ i a. v i ≡ some a) g.unfiltered_subs f h.members;
  subs =
      Every-mono (λ k s. w (k.0) ≡ some (FilteredSub.writer s))
        (λ k s. v (k.0) ≡ some (FilteredSub.writer s)) g.filtered_subs
        (λ k s. f (k.0) (FilteredSub.writer s)) h.subs;
}
