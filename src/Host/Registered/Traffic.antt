-- ===== src/Host/Registered/Traffic.antt =====
-- Publishing keeps the groups well-formed.
use dots_rust.Prelude.{
  ℕ, ◌≡◌, refl, sym, ap, ◌∙◌, String, ◌&&◌, Option, none, some, List, [], ◌∷◌, ◌==◌, arith,
  Bool-cases, Option-cases, inl, inr,
}
use dots_rust.Prelude.Assoc.{
  lookup, nat_key, string_key, pair_key, Every, IsMap, put-IsMap, put-Every, lookup-Every,
}
use dots_rust.Host.Types.{Env, Host, Group, FilteredSub}
use dots_rust.Host.Groups.{group_is_empty}
use dots_rust.Host.Registered.{writer_in, IsLive}
use dots_rust.Container.{Payload, DotsHeader}
use dots_rust.Container.Map.{Bytes}
use dots_rust.Host.Writer.{is_empty}
use dots_rust.Host.Publish.{
  Incoming, dispatch_sub, filtered_pass, incoming, filtered_groups, cache_and_fan_out,
}
use dots_rust.Host.Registered.Members.{LiveGroups, Registered, with_groups}

module _ (env : Env) where
  dispatch_sub-writer :
      (sub_id : ℕ) (s : FilteredSub) (p : Incoming env)
      → FilteredSub.writer (dispatch_sub env sub_id s p).0 ≡ s.writer
  unfolding dispatch_sub
  dispatch_sub-writer sub_id s p = ground arith

  filtered_pass-lookup :
      (exclude : ℕ) (p : Incoming env) (k : ℕ × ℕ) (subs : List ((ℕ × ℕ) × FilteredSub))
      → lookup k subs ≡ none
      → lookup k (filtered_pass env exclude p subs).0 ≡ none
  unfolding filtered_pass lookup
  filtered_pass-lookup exclude p k [] h = refl
  filtered_pass-lookup exclude p k (((i, j), s) ∷ subs) h =
      ground (arith, filtered_pass-lookup exclude p k subs)

  filtered_pass-IsMap :
      (exclude : ℕ) (p : Incoming env) (subs : List ((ℕ × ℕ) × FilteredSub))
      → IsMap subs
      → IsMap (filtered_pass env exclude p subs).0
  unfolding filtered_pass
  filtered_pass-IsMap exclude p [] h = tt
  filtered_pass-IsMap exclude p (((i, j), s) ∷ subs) h = elim (Bool-cases (i == exclude)) [
    | inl skipped ↦
        rw skipped
          (filtered_pass-lookup exclude p (i, j) subs h.0, filtered_pass-IsMap exclude p subs h.1)
    | inr reached ↦
        rw reached
          (filtered_pass-lookup exclude p (i, j) subs h.0, filtered_pass-IsMap exclude p subs h.1)
  ]

  filtered_pass-Every :
      (w : ℕ → Option ℕ) (exclude : ℕ) (p : Incoming env) (subs : List ((ℕ × ℕ) × FilteredSub))
      → Every (λ (k : ℕ × ℕ) s. w (k.0) ≡ some (FilteredSub.writer s)) subs
      → Every
          (λ (k : ℕ × ℕ) s. w (k.0) ≡ some (FilteredSub.writer s))
          (filtered_pass env exclude p subs).0
  unfolding filtered_pass
  filtered_pass-Every w exclude p [] h = tt
  filtered_pass-Every w exclude p (((i, j), s) ∷ subs) h = elim (Bool-cases (i == exclude)) [
    | inl skipped ↦ rw skipped (h.0, filtered_pass-Every w exclude p subs h.1)
    | inr reached ↦
        rw reached (
          h.0 ∙ ap some (sym (dispatch_sub-writer j s p)),
          filtered_pass-Every w exclude p subs h.1,
        )
  ]

  filtered_pass-is_empty :
      (exclude : ℕ) (p : Incoming env) (subs : List ((ℕ × ℕ) × FilteredSub))
      → is_empty (filtered_pass env exclude p subs).0 ≡ is_empty subs
  unfolding filtered_pass
  filtered_pass-is_empty exclude p [] = refl
  filtered_pass-is_empty exclude p (((i, j), s) ∷ subs) = ground arith

  filtered_pass-used :
      (exclude : ℕ) (p : Incoming env) (g : Group)
      → group_is_empty
          (record g { filtered_subs = (filtered_pass env exclude p g.filtered_subs).0 })
        ≡ group_is_empty g
  unfolding group_is_empty
  filtered_pass-used exclude p g =
      ap (λ b. is_empty g.unfiltered_subs && b) (filtered_pass-is_empty exclude p g.filtered_subs)

  filtered_groups-Live :
      (w : ℕ → Option ℕ) (name : String) (exclude : ℕ) (p : Incoming env)
      (groups : List (String × Group))
      → IsMap groups
      → LiveGroups w groups
      → let groups' = (filtered_groups env name exclude p (lookup name groups) groups).0 in
        IsMap groups' × LiveGroups w groups'
  filtered_groups-Live w name exclude p groups m live = elim (Option-cases (lookup name groups)) [
    | inl e ↦ rw e (m, live)
    | inr (g, e) ↦ rw e (elim (Bool-cases (is_empty g.filtered_subs)) [
      | inl none_there ↦ rw none_there (m, live)
      | inr some_there ↦
          let l : IsLive w g = lookup-Every (λ name g. IsLive w g) name g groups e live in
          let g' : Group = record g {
            filtered_subs = (filtered_pass env exclude p g.filtered_subs).0;
          } in
          let live' : IsLive w g' = record {
            used = filtered_pass-used exclude p g ∙ l.used;
            members_map = l.members_map;
            subs_map = filtered_pass-IsMap exclude p g.filtered_subs l.subs_map;
            members = l.members;
            subs = filtered_pass-Every w exclude p g.filtered_subs l.subs;
          } in
          rw some_there
            (put-IsMap name g' groups m, put-Every (λ name g. IsLive w g) name g' groups live' live)
    ])
  ]

  pub cache_and_fan_out-Registered :
      (name : String) (header : DotsHeader) (frame : Bytes) (payload : Option (Payload env.values))
      (exclude : ℕ) (host : Host env)
      → Registered env host
      → Registered env (cache_and_fan_out env name header frame payload exclude host)
  unfolding cache_and_fan_out
  cache_and_fan_out-Registered name header frame none exclude host h = h
  cache_and_fan_out-Registered name header frame (some payload) exclude host h =
      let p = incoming env header payload in
      let (m, live) =
        filtered_groups-Live (writer_in host.guests) name exclude p host.groups h.groups_map
          h.live in
      with_groups (filtered_groups env name exclude p (lookup name host.groups) host.groups).0 h m
        live
