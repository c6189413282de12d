-- ===== src/Host/Registered/Members.antt =====
-- Accepting, joining and leaving keep the groups well-formed.
use dots_rust.Prelude.{
  ℕ, ◌≡◌, refl, String, Option, some, List, arith, Bool-cases, Option-cases, inl, inr, unwrap_or,
}
use dots_rust.Prelude.Assoc.{
  lookup, erase, put, nat_key, string_key, pair_key, Every, IsMap, erase-IsMap, put-IsMap,
  erase-Every, put-Every, lookup-Every,
}
use dots_rust.Host.Types.{Env, Host, Group, GuestRecord, FilteredSub}
use dots_rust.Host.Groups.{
  no_group, group_is_empty, put_back, writer_for, join_group, leave_group, leave_filtered_sub,
  add_filtered_sub, group_or_default,
}
use dots_rust.Host.Registered.{writer_in, IsLive, IsRegistered}

abbrev pub LiveGroups : (ℕ → Option ℕ) → List (String × Group) → Type 0
LiveGroups w groups = Every (λ name g. IsLive w g) groups

-- A change of the groups only.
pub with_groups :
    {guests : List (ℕ × GuestRecord)} {groups : List (String × Group)} {next_id next_address : ℕ}
    (groups' : List (String × Group))
    → IsRegistered guests groups next_id next_address
    → IsMap groups'
    → LiveGroups (writer_in guests) groups'
    → IsRegistered guests groups' next_id next_address
with_groups groups' h m live = record {
  guests_map = h.guests_map;
  groups_map = m;
  live = live;
  apart = h.apart;
  allocated = h.allocated;
  identified = h.identified;
  started = h.started;
}

-- What `entry(name).or_default()` gives, apart from being used.
record IsSound (w : ℕ → Option ℕ) (g : Group) : Type 0 where
  members_map : IsMap g.unfiltered_subs
  subs_map : IsMap g.filtered_subs
  members : Every (λ i a. w i ≡ some a) g.unfiltered_subs
  subs : Every (λ k s. w (k.0) ≡ some (FilteredSub.writer s)) g.filtered_subs

IsLive-IsSound : (w : ℕ → Option ℕ) (g : Group) → IsLive w g → IsSound w g
IsLive-IsSound w g h = record {
  members_map = h.members_map;
  subs_map = h.subs_map;
  members = h.members;
  subs = h.subs;
}

default-IsSound :
    (w : ℕ → Option ℕ) (name : String) (groups : List (String × Group))
    → LiveGroups w groups
    → IsSound w (unwrap_or (lookup name groups) no_group)
default-IsSound w name groups h = elim (Option-cases (lookup name groups)) [
  | inl e ↦ rw e (record { members_map = tt; subs_map = tt; members = tt; subs = tt })
  | inr (g, e) ↦ rw e (IsLive-IsSound w g (lookup-Every (λ name g. IsLive w g) name g groups e h))
]

join-IsLive :
    (w : ℕ → Option ℕ) (i a : ℕ) (g : Group)
    → w i ≡ some a
    → IsSound w g
    → IsLive w (record g { unfiltered_subs = put i a g.unfiltered_subs })
unfolding group_is_empty put
join-IsLive w i a g e h = record {
  used = refl;
  members_map = put-IsMap i a g.unfiltered_subs h.members_map;
  subs_map = h.subs_map;
  members = put-Every (λ i a. w i ≡ some a) i a g.unfiltered_subs e h.members;
  subs = h.subs;
}

filtered-IsLive :
    (w : ℕ → Option ℕ) (i sub_id : ℕ) (s : FilteredSub) (g : Group)
    → w i ≡ some s.writer
    → IsSound w g
    → IsLive w (record g { filtered_subs = put (i, sub_id) s g.filtered_subs })
unfolding group_is_empty put
filtered-IsLive w i sub_id s g e h = record {
  used = ground arith;
  members_map = h.members_map;
  subs_map = put-IsMap (i, sub_id) s g.filtered_subs h.subs_map;
  members = h.members;
  subs =
      put-Every (λ k s. w (k.0) ≡ some (FilteredSub.writer s)) (i, sub_id) s g.filtered_subs e
        h.subs;
}

-- A group that is put back is live, or it goes.
put_back-Live :
    (w : ℕ → Option ℕ) (name : String) (g : Group) (groups : List (String × Group))
    → IsSound w g
    → IsMap groups
    → LiveGroups w groups
    → IsMap (put_back name g groups) × LiveGroups w (put_back name g groups)
unfolding put_back
put_back-Live w name g groups h m live = elim (Bool-cases (group_is_empty g)) [
  | inl empty ↦
      rw empty (erase-IsMap name groups m, erase-Every (λ name g. IsLive w g) name groups live)
  | inr used ↦ rw used (
    put-IsMap name g groups m,
    put-Every (λ name g. IsLive w g) name g groups
        (record {
          used = used;
          members_map = h.members_map;
          subs_map = h.subs_map;
          members = h.members;
          subs = h.subs;
        })
        live,
  )
]

module _ (env : Env) where
  abbrev pub Registered : Host env → Type 0
  Registered host = IsRegistered host.guests host.groups host.next_client_id host.next_address

  pub join_group-Registered :
      (client_id : ℕ) (name : String) (host : Host env)
      → Registered host
      → Registered (join_group env client_id name host)
  unfolding join_group writer_for group_or_default
  join_group-Registered client_id name host h =
      elim (Option-cases (writer_in host.guests client_id)) [
        | inl e ↦ rw (e, join_group) h
        | inr (a, e) ↦
            let w = writer_in host.guests in
            let g = unwrap_or (lookup name host.groups) no_group in
            let g' = record g { unfiltered_subs = put client_id a g.unfiltered_subs } in
            rw (e, join_group)
              (with_groups (put name g' host.groups) h (put-IsMap name g' host.groups h.groups_map)
                (put-Every (λ name g. IsLive w g) name g' host.groups
                  (join-IsLive w client_id a g e (default-IsSound w name host.groups h.live))
                  h.live))
      ]

  pub add_filtered_sub-Registered :
      (client_id : ℕ) (name : String) (sub_id : ℕ) (sub : FilteredSub) (host : Host env)
      → writer_in host.guests client_id ≡ some sub.writer
      → Registered host
      → Registered (add_filtered_sub env client_id name sub_id sub host)
  unfolding add_filtered_sub group_or_default
  add_filtered_sub-Registered client_id name sub_id sub host e h =
      let w = writer_in host.guests in
      let g = unwrap_or (lookup name host.groups) no_group in
      let g' = record g { filtered_subs = put (client_id, sub_id) sub g.filtered_subs } in
      with_groups (put name g' host.groups) h (put-IsMap name g' host.groups h.groups_map) (
        put-Every (λ name g. IsLive w g) name g' host.groups
          (filtered-IsLive w client_id sub_id sub g e (default-IsSound w name host.groups h.live))
          h.live)

  pub leave_group-Registered :
      (client_id : ℕ) (name : String) (host : Host env)
      → Registered host
      → Registered (leave_group env client_id name host)
  unfolding leave_group
  leave_group-Registered client_id name host h = elim (Option-cases (lookup name host.groups)) [
    | inl e ↦ rw (e, leave_group) h
    | inr (g, e) ↦
        let w = writer_in host.guests in
        let l = lookup-Every (λ name g. IsLive w g) name g host.groups e h.live in
        let g' = record g { unfiltered_subs = erase client_id g.unfiltered_subs } in
        let (m, live) =
          put_back-Live w name g' host.groups
            (record {
              members_map = erase-IsMap client_id g.unfiltered_subs l.members_map;
              subs_map = l.subs_map;
              members = erase-Every (λ i a. w i ≡ some a) client_id g.unfiltered_subs l.members;
              subs = l.subs;
            })
            h.groups_map h.live in
        rw (e, leave_group) (with_groups (put_back name g' host.groups) h m live)
  ]

  pub leave_filtered_sub-Registered :
      (client_id : ℕ) (name : String) (sub_id : ℕ) (host : Host env)
      → Registered host
      → Registered (leave_filtered_sub env client_id name sub_id host)
  unfolding leave_filtered_sub
  leave_filtered_sub-Registered client_id name sub_id host h =
      elim (Option-cases (lookup name host.groups)) [
        | inl e ↦ rw (e, leave_filtered_sub) h
        | inr (g, e) ↦
            let w = writer_in host.guests in
            let l = lookup-Every (λ name g. IsLive w g) name g host.groups e h.live in
            let g' = record g { filtered_subs = erase (client_id, sub_id) g.filtered_subs } in
            let (m, live) =
              put_back-Live w name g' host.groups
                (record {
                  members_map = l.members_map;
                  subs_map = erase-IsMap (client_id, sub_id) g.filtered_subs l.subs_map;
                  members = l.members;
                  subs =
                      erase-Every (λ k s. w (k.0) ≡ some (FilteredSub.writer s)) (client_id, sub_id)
                        g.filtered_subs l.subs;
                })
                h.groups_map h.live in
            rw (e, leave_filtered_sub) (with_groups (put_back name g' host.groups) h m live)
      ]
