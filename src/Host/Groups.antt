-- ===== src/Host/Groups.antt =====
-- Guests and their groups: accepting a guest, joining and leaving, and the part of `remove_guest`
-- that runs under the lock.
use dots_rust.Prelude.{
  ℕ, ◌+◌, ◌%◌, ◌^◌, String, Bool, not, ◌&&◌, Option, none, some, List, [], ◌==◌, if◌then◌else◌,
  length, unwrap_or,
}
use dots_rust.Prelude.Assoc.{
  lookup, erase, put, keep, map_values, map_option, nat_key, string_key, pair_key,
}
use dots_rust.Host.Writer.{GuestWriter, new, is_empty}
use dots_rust.Host.Types.{Env, Host, Group, GuestRecord, FilteredSub, DescriptorEntry, host_id}

abbrev pub no_group : Group
no_group = record { unfiltered_subs = []; filtered_subs = [] }

-- `Group::is_empty`
unfoldable pub group_is_empty : Group → Bool
group_is_empty g = is_empty g.unfiltered_subs && is_empty g.filtered_subs

unfoldable pub subscriber_count : Group → ℕ
subscriber_count g = length g.unfiltered_subs + length g.filtered_subs

-- `Group` without what it holds of a client
unfoldable pub without_client : ℕ → Group → Group
without_client client_id g = record {
  unfiltered_subs = erase client_id g.unfiltered_subs;
  filtered_subs = keep (λ (k : ℕ × ℕ) s. not (k.0 == client_id)) g.filtered_subs;
}

-- A group that was left goes back unless it is empty.
unfoldable pub put_back : String → Group → List (String × Group) → List (String × Group)
unfolding group_is_empty
put_back name g groups = if group_is_empty g then erase name groups else put name g groups

module _ (env : Env) where
  unfoldable pub with_registry :
      String → List (String × DescriptorEntry) → List (String × env.values.Static) → Host env
  unfolding new
  with_registry self_name entries static_structs = record {
    self_name = self_name;
    groups = [];
    guests = [];
    next_client_id = host_id + 1;
    pool = [];
    entries = entries;
    static_structs = static_structs;
    writers = λ a. new;
    next_address = 0;
    transitions = [];
  }

  abbrev pub set_writer : ℕ → GuestWriter → (ℕ → GuestWriter) → ℕ → GuestWriter
  set_writer a w writers b = if a == b then w else writers b

  -- `accept` with `spawn_guest_task`: a new writer, a new id, the guest's record. The answer is the id.
  unfoldable pub accept : Host env → ℕ × Host env
  unfolding new
  accept host =
      let client_id = host.next_client_id in
      (
        client_id,
        record host {
          next_client_id = (client_id + 1) % 2 ^ 32;
          writers = set_writer host.next_address new host.writers;
          next_address = host.next_address + 1;
          guests =
              put client_id (record { client_name = none; write_half = host.next_address })
                host.guests;
        },
      )

  unfoldable pub writer_for : ℕ → Host env → Option ℕ
  writer_for client_id host =
      map_option (λ (r : GuestRecord). r.write_half) (lookup client_id host.guests)

  unfoldable pub set_client_name : ℕ → Option String → Host env → Host env
  set_client_name client_id name host = elim (lookup client_id host.guests) [
    | none ↦ host
    | some r ↦ record host { guests = put client_id (record r { client_name = name }) host.guests }
  ]

  -- `groups.entry(name).or_default()`
  unfoldable pub group_or_default : String → Host env → Group
  group_or_default name host = unwrap_or (lookup name host.groups) no_group

  unfoldable pub join_group : ℕ → String → Host env → Host env
  unfolding writer_for group_or_default
  join_group client_id name host = elim (writer_for client_id host) [
    | none ↦ host
    | some writer ↦
        let g = group_or_default name host in
        record host {
          groups =
              put name (record g { unfiltered_subs = put client_id writer g.unfiltered_subs })
                host.groups;
        }
  ]

  unfoldable pub leave_group : ℕ → String → Host env → Host env
  unfolding put_back
  leave_group client_id name host = elim (lookup name host.groups) [
    | none ↦ host
    | some g ↦ record host {
      groups =
          put_back name (record g { unfiltered_subs = erase client_id g.unfiltered_subs })
            host.groups;
    }
  ]

  unfoldable pub leave_filtered_sub : ℕ → String → ℕ → Host env → Host env
  unfolding put_back
  leave_filtered_sub client_id name sub_id host = elim (lookup name host.groups) [
    | none ↦ host
    | some g ↦ record host {
      groups =
          put_back name (record g { filtered_subs = erase (client_id, sub_id) g.filtered_subs })
            host.groups;
    }
  ]

  -- The last part of `handle_filtered_join` that changes a group.
  unfoldable pub add_filtered_sub : ℕ → String → ℕ → FilteredSub → Host env → Host env
  unfolding group_or_default
  add_filtered_sub client_id name sub_id sub host =
      let g = group_or_default name host in
      record host {
        groups =
            put name (record g { filtered_subs = put (client_id, sub_id) sub g.filtered_subs })
              host.groups;
      }

  -- The locked block of `remove_guest`.
  unfoldable pub drop_guest : ℕ → Host env → Host env
  unfolding without_client group_is_empty
  drop_guest client_id host = record host {
    guests = erase client_id host.guests;
    groups =
        keep (λ name g. not (group_is_empty g)) (map_values (without_client client_id) host.groups);
  }

  unfoldable pub shutdown : Host env → Host env
  shutdown host = record host { guests = []; groups = []; pool = [] }

  pub guest_count : Host env → ℕ
  guest_count host = length host.guests

  unfoldable pub group_size : String → Host env → ℕ
  unfolding subscriber_count
  group_size name host = unwrap_or (map_option subscriber_count (lookup name host.groups)) 0
