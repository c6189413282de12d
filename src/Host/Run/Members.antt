-- ===== src/Host/Run/Members.antt =====
-- Replies, and joining and leaving, keep the broker well-formed.
use dots_rust.Prelude.{
  ℕ, List, ◌≡◌, subst, sym, String, Option, none, some, arith, Option-cases, inl, inr, unwrap_or,
}
use dots_rust.Prelude.Assoc.{lookup, string_key, nat_key}
use dots_rust.Dynamic.Kind.{DynamicStructDescriptor}
use dots_rust.Filter.Wire.{DotsFilter}
use dots_rust.Filter.Compile.{CompiledPredicate, Outcome, compile}
use dots_rust.Container.Map.{Bytes}
use dots_rust.Container.{Payload, DotsHeader}
use dots_rust.Host.Types.{Env, Host, FilteredSub, DotsMember, DotsMemberEvent, join, leave, kill}
use dots_rust.Host.Groups.{
  writer_for, join_group, leave_group, leave_filtered_sub, set_client_name, add_filtered_sub,
}
use dots_rust.Host.Replay.{
  replay_cache_to, filtered_snapshot, filtered_insert, handle_filtered_join, filtered_join,
  compiled_join, struct_entry, no_predicate,
}
use dots_rust.Host.Messages.{
  handle_member, join_by, leave_by, member_event, member_of_group, reply_to,
}
use dots_rust.Host.Registered.{writer_in}
use dots_rust.Host.Registered.Members.{
  join_group-Registered, leave_group-Registered, leave_filtered_sub-Registered,
  add_filtered_sub-Registered,
}
use dots_rust.Host.Registered.Guests.{set_client_name-Registered}
use dots_rust.Host.Pooled.{IsPooled}
use dots_rust.Host.Run.{if_holds, IsWell, with_writers-IsWell}

module _ (env : Env) where
  join_group-pool :
      (client_id : ℕ) (name : String) (host : Host env)
      → (join_group env client_id name host).pool ≡ host.pool
  unfolding join_group
  join_group-pool client_id name host = ground arith

  leave_group-pool :
      (client_id : ℕ) (name : String) (host : Host env)
      → (leave_group env client_id name host).pool ≡ host.pool
  unfolding leave_group
  leave_group-pool client_id name host = ground arith

  leave_filtered_sub-pool :
      (client_id : ℕ) (name : String) (sub_id : ℕ) (host : Host env)
      → (leave_filtered_sub env client_id name sub_id host).pool ≡ host.pool
  unfolding leave_filtered_sub
  leave_filtered_sub-pool client_id name sub_id host = ground arith

  set_client_name-pool :
      (client_id : ℕ) (name : Option String) (host : Host env)
      → (set_client_name env client_id name host).pool ≡ host.pool
  unfolding set_client_name
  set_client_name-pool client_id name host = ground arith

  pub reply_to-IsWell :
      (client_id : ℕ) (frame : Bytes) (host : Host env)
      → IsWell env host
      → IsWell env (reply_to env client_id frame host)
  unfolding reply_to
  reply_to-IsWell client_id frame host h = elim (Option-cases (writer_for env client_id host)) [
    | inl e ↦ rw (e, reply_to) h
    | inr (a, e) ↦ rw (e, reply_to) (with_writers-IsWell env _ host h)
  ]

  replay_cache_to-IsWell :
      (client_id : ℕ) (name : String) (now : ℕ) (host : Host env)
      → IsWell env host
      → IsWell env (replay_cache_to env client_id name now host)
  unfolding replay_cache_to
  replay_cache_to-IsWell client_id name now host h =
      elim (Option-cases (writer_for env client_id host)) [
        | inl e ↦ rw (e, replay_cache_to) h
        | inr (a, e) ↦
            rw (e, replay_cache_to)
              (if_holds (IsWell env) _ _ _ h (with_writers-IsWell env _ host h))
      ]

  -- The second critical section of a filtered join, of a guest that is connected then.
  pub filtered_insert-IsWell :
      (client_id : ℕ) (name : String) (sub_id : ℕ) (sub : FilteredSub)
      (found : List (DotsHeader × Payload env.values × Bytes)) (host : Host env)
      → writer_in host.guests client_id ≡ some sub.writer
      → IsWell env host
      → IsWell env (filtered_insert env client_id name sub_id (sub, found) host)
  unfolding filtered_insert
  filtered_insert-IsWell client_id name sub_id sub found host e h = record {
    registered = add_filtered_sub-Registered env client_id name sub_id sub host e h.registered;
    pooled = unfold add_filtered_sub in h.pooled;
  }

  filtered_join-IsWell :
      (client_id : ℕ) (name : String) (sub_id : ℕ) (filter : DotsFilter) (now : ℕ)
      (d : DynamicStructDescriptor) (compiled : CompiledPredicate) (writer : ℕ) (host : Host env)
      → writer_in host.guests client_id ≡ some writer
      → IsWell env host
      → IsWell env (filtered_join env client_id name sub_id filter now d compiled writer host)
  unfolding filtered_join filtered_snapshot
  filtered_join-IsWell client_id name sub_id filter now d compiled writer host e h =
      filtered_insert-IsWell client_id name sub_id _ _ host e h

  compiled_join-IsWell :
      (client_id : ℕ) (name : String) (sub_id : ℕ) (filter : DotsFilter) (now : ℕ)
      (d : DynamicStructDescriptor) (o : Outcome CompiledPredicate) (host : Host env)
      → IsWell env host
      → IsWell env (compiled_join env client_id name sub_id filter now d o host)
  unfolding writer_for
  compiled_join-IsWell client_id name sub_id filter now d (Outcome.ok compiled) host h =
      elim (Option-cases (writer_in host.guests client_id)) [
        | inl e ↦ rw (e, compiled_join) h
        | inr (a, e) ↦
            rw (e, compiled_join)
              (filtered_join-IsWell client_id name sub_id filter now d compiled a host e h)
      ]
  compiled_join-IsWell client_id name sub_id filter now d (Outcome.err e) host h = h
  compiled_join-IsWell client_id name sub_id filter now d Outcome.exhausted host h = h

  handle_filtered_join-IsWell :
      (client_id : ℕ) (name : String) (sub_id : ℕ) (filter : DotsFilter) (now : ℕ) (host : Host env)
      → IsWell env host
      → IsWell env (handle_filtered_join env client_id name sub_id filter now host)
  unfolding handle_filtered_join
  handle_filtered_join-IsWell client_id name sub_id filter now host h =
      elim (Option-cases (struct_entry (lookup name host.entries))) [
        | inl e ↦ rw (e, handle_filtered_join) h
        | inr (d, e) ↦
            rw (e, handle_filtered_join)
              (compiled_join-IsWell client_id name sub_id filter now d
                (compile env.floats d (unwrap_or filter.predicate no_predicate)) host h)
      ]

  pub join_group-IsWell :
      (client_id : ℕ) (name : String) (host : Host env)
      → IsWell env host
      → IsWell env (join_group env client_id name host)
  join_group-IsWell client_id name host h = record {
    registered = join_group-Registered env client_id name host h.registered;
    pooled = subst (IsPooled env) (sym (join_group-pool client_id name host)) h.pooled;
  }

  pub leave_group-IsWell :
      (client_id : ℕ) (name : String) (host : Host env)
      → IsWell env host
      → IsWell env (leave_group env client_id name host)
  leave_group-IsWell client_id name host h = record {
    registered = leave_group-Registered env client_id name host h.registered;
    pooled = subst (IsPooled env) (sym (leave_group-pool client_id name host)) h.pooled;
  }

  pub leave_filtered_sub-IsWell :
      (client_id : ℕ) (name : String) (sub_id : ℕ) (host : Host env)
      → IsWell env host
      → IsWell env (leave_filtered_sub env client_id name sub_id host)
  leave_filtered_sub-IsWell client_id name sub_id host h = record {
    registered = leave_filtered_sub-Registered env client_id name sub_id host h.registered;
    pooled =
        subst (IsPooled env) (sym (leave_filtered_sub-pool client_id name sub_id host)) h.pooled;
  }

  pub set_client_name-IsWell :
      (client_id : ℕ) (name : Option String) (host : Host env)
      → IsWell env host
      → IsWell env (set_client_name env client_id name host)
  set_client_name-IsWell client_id name host h = record {
    registered = set_client_name-Registered env client_id name host h.registered;
    pooled = subst (IsPooled env) (sym (set_client_name-pool client_id name host)) h.pooled;
  }

  join_by-IsWell :
      (client_id : ℕ) (name : String) (filter : Option DotsFilter) (sub_id : Option ℕ) (now : ℕ)
      (host : Host env)
      → IsWell env host
      → IsWell env (join_by env client_id name filter sub_id now host)
  join_by-IsWell client_id name (some f) (some i) now host h =
      handle_filtered_join-IsWell client_id name i f now host h
  join_by-IsWell client_id name none none now host h =
      replay_cache_to-IsWell client_id name now (join_group env client_id name host)
        (join_group-IsWell client_id name host h)
  join_by-IsWell client_id name (some f) none now host h = h
  join_by-IsWell client_id name none (some i) now host h = h

  leave_by-IsWell :
      (client_id : ℕ) (name : String) (sub_id : Option ℕ) (host : Host env)
      → IsWell env host
      → IsWell env (leave_by env client_id name sub_id host)
  leave_by-IsWell client_id name (some i) host h = leave_filtered_sub-IsWell client_id name i host h
  leave_by-IsWell client_id name none host h = leave_group-IsWell client_id name host h

  member_event-IsWell :
      (client_id : ℕ) (name : String) (m : DotsMember) (event : Option DotsMemberEvent) (now : ℕ)
      (host : Host env)
      → IsWell env host
      → IsWell env (member_event env client_id name m event now host)
  member_event-IsWell client_id name m (some join) now host h =
      join_by-IsWell client_id name m.filter m.subscription_id now host h
  member_event-IsWell client_id name m (some leave) now host h =
      leave_by-IsWell client_id name m.subscription_id host h
  member_event-IsWell client_id name m (some kill) now host h = h
  member_event-IsWell client_id name m none now host h = h

  member_of_group-IsWell :
      (client_id : ℕ) (m : DotsMember) (name : Option String) (now : ℕ) (host : Host env)
      → IsWell env host
      → IsWell env (member_of_group env client_id m name now host)
  member_of_group-IsWell client_id m none now host h = h
  member_of_group-IsWell client_id m (some name) now host h =
      member_event-IsWell client_id name m m.event now host h

  pub handle_member-IsWell :
      (client_id : ℕ) (payload : Bytes) (now : ℕ) (host : Host env)
      → IsWell env host
      → IsWell env (handle_member env client_id payload now host)
  unfolding handle_member
  handle_member-IsWell client_id payload now host h =
      elim (Option-cases (env.decode_member payload)) [
        | inl e ↦ rw (e, handle_member) h
        | inr (m, e) ↦
            rw (e, handle_member) (member_of_group-IsWell client_id m m.group_name now host h)
      ]
