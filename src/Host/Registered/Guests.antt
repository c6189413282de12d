-- ===== src/Host/Registered/Guests.antt =====
-- Accepting, naming and dropping a guest keep the groups well-formed.
use mathlib.Core.Path.{fun_ext}
use dots_rust.Prelude.{
  ℕ, ◌+◌, ◌<◌, ◌^◌, ◌≡◌, refl, sym, ◌∙◌, String, true, false, not, Option, none, some, List, [],
  ◌∷◌, ◌==◌, if◌then◌else◌, arith, Bool-cases, Option-cases, inl, inr, subst,
}
use dots_rust.Prelude.Assoc.{
  lookup, erase, put, keep, map_values, nat_key, string_key, pair_key, IsMap, lookup-put,
  lookup-erase, erase-IsMap, put-IsMap, keep-IsMap, map_values-IsMap, erase-Every_apart, keep-Every,
  Every-mono,
}
use dots_rust.Host.Types.{Env, Host, Group, GuestRecord, FilteredSub}
use dots_rust.Host.Groups.{group_is_empty, without_client, accept, drop_guest, set_client_name}
use dots_rust.Host.Registered.{writer_in, IsLive, IsRegistered, IsLive-mono}
use dots_rust.Host.Registered.Members.{LiveGroups, Registered}

pub writer-put :
    (k : ℕ) (r : GuestRecord) (guests : List (ℕ × GuestRecord)) (i : ℕ)
    → writer_in (put k r guests) i ≡ (if k == i then some r.write_half else writer_in guests i)
writer-put k r guests i = elim (Bool-cases (k == i)) [
  | inl at ↦ rw (lookup-put k i r guests, at) refl
  | inr gone ↦ rw (lookup-put k i r guests, gone) refl
]

pub writer-erase :
    (k : ℕ) (guests : List (ℕ × GuestRecord)) (i : ℕ)
    → writer_in (erase k guests) i ≡ (if k == i then none else writer_in guests i)
writer-erase k guests i = elim (Bool-cases (k == i)) [
  | inl at ↦ rw (lookup-erase k i guests, at) refl
  | inr gone ↦ rw (lookup-erase k i guests, gone) refl
]

-- Under the lock the client goes out of every group, and empty groups go.
without-IsSound :
    (w v : ℕ → Option ℕ) (k : ℕ) (g : Group)
    → ((i a : ℕ) → w i ≡ some a → (i == k) ≡ false → v i ≡ some a)
    → IsLive w g
    → group_is_empty (without_client k g) ≡ false
    → IsLive v (without_client k g)
unfolding without_client
without-IsSound w v k g f h used = record {
  used = used;
  members_map = erase-IsMap k g.unfiltered_subs h.members_map;
  subs_map = keep-IsMap (λ (j : ℕ × ℕ) s. not (j.0 == k)) g.filtered_subs h.subs_map;
  members =
      Every-mono (λ i a. (w i ≡ some a) × ((i == k) ≡ false)) (λ i a. v i ≡ some a)
        (erase k g.unfiltered_subs) (λ i a p. f i a p.0 p.1)
        (erase-Every_apart (λ i a. w i ≡ some a) k g.unfiltered_subs h.members);
  subs =
      Every-mono
        (λ (j : ℕ × ℕ) s. (w (j.0) ≡ some (FilteredSub.writer s)) × (not (j.0 == k) ≡ true))
        (λ j s. v (j.0) ≡ some (FilteredSub.writer s))
        (keep (λ (j : ℕ × ℕ) s. not (j.0 == k)) g.filtered_subs)
        (λ j s p. f (j.0) (FilteredSub.writer s) p.0 (ground (arith, p.1)))
        (keep-Every (λ (j : ℕ × ℕ) s. w (j.0) ≡ some (FilteredSub.writer s))
          (λ (j : ℕ × ℕ) s. not (j.0 == k)) g.filtered_subs h.subs);
}

dropped-Live :
    (w v : ℕ → Option ℕ) (k : ℕ) (groups : List (String × Group))
    → ((i a : ℕ) → w i ≡ some a → (i == k) ≡ false → v i ≡ some a)
    → LiveGroups w groups
    → LiveGroups v (keep (λ name g. not (group_is_empty g)) (map_values (without_client k) groups))
unfolding keep map_values
dropped-Live w v k [] f h = tt
dropped-Live w v k ((name, g) ∷ groups) f h =
    elim (Bool-cases (group_is_empty (without_client k g))) [
      | inl empty ↦ rw empty (dropped-Live w v k groups f h.1)
      | inr used ↦ rw used (without-IsSound w v k g f h.0 used, dropped-Live w v k groups f h.1)
    ]

-- Guests with other records, and the same writers.
renamed :
    (guests guests' : List (ℕ × GuestRecord)) {groups : List (String × Group)}
    {next_id next_address : ℕ}
    → ((i : ℕ) → writer_in guests' i ≡ writer_in guests i)
    → IsMap guests'
    → IsRegistered guests groups next_id next_address
    → IsRegistered guests' groups next_id next_address
renamed guests guests' {groups} same m h = record {
  guests_map = m;
  groups_map = h.groups_map;
  live = subst (λ w. LiveGroups w groups) (sym (fun_ext same)) h.live;
  apart = λ i j a p q. h.apart i j a (sym (same i) ∙ p) (sym (same j) ∙ q);
  allocated = λ i a p. h.allocated i a (sym (same i) ∙ p);
  identified = λ i a p. h.identified i a (sym (same i) ∙ p);
  started = h.started;
}

module _ (env : Env) where
  pub accept-Registered :
      (host : Host env)
      → host.next_client_id + 1 < 2 ^ 32
      → Registered env host
      → Registered env (accept env host).1
  unfolding accept
  accept-Registered host room h =
      let r : GuestRecord = record { client_name = none; write_half = host.next_address } in
      let w = writer-put host.next_client_id r host.guests in
      record {
        guests_map = put-IsMap host.next_client_id r host.guests h.guests_map;
        groups_map = h.groups_map;
        live =
            Every-mono (λ name g. IsLive (writer_in host.guests) g)
              (λ name g. IsLive (writer_in (put host.next_client_id r host.guests)) g) host.groups
              (λ name g.
                IsLive-mono (writer_in host.guests)
                  (writer_in (put host.next_client_id r host.guests)) g
                  (λ i a e. ground (arith, w i, h.identified i a)))
              h.live;
        apart =
            λ i j a p q. ground (arith, w i, w j, h.apart i j a, h.allocated i a, h.allocated j a);
        allocated = λ i a p. ground (arith, w i, h.allocated i a);
        identified = λ i a p. ground (arith, w i, h.identified i a, h.started);
        started = ground (arith, h.started);
      }

  pub drop_guest-Registered :
      (client_id : ℕ) (host : Host env)
      → Registered env host
      → Registered env (drop_guest env client_id host)
  unfolding drop_guest
  drop_guest-Registered client_id host h =
      let w = writer-erase client_id host.guests in
      record {
        guests_map = erase-IsMap client_id host.guests h.guests_map;
        groups_map =
            keep-IsMap (λ name g. not (group_is_empty g))
              (map_values (without_client client_id) host.groups)
              (map_values-IsMap (without_client client_id) host.groups h.groups_map);
        live =
            dropped-Live (writer_in host.guests) (writer_in (erase client_id host.guests)) client_id
              host.groups (λ i a e other. ground (arith, w i)) h.live;
        apart = λ i j a p q. ground (arith, w i, w j, h.apart i j a);
        allocated = λ i a p. ground (arith, w i, h.allocated i a);
        identified = λ i a p. ground (arith, w i, h.identified i a);
        started = h.started;
      }

  pub set_client_name-Registered :
      (client_id : ℕ) (name : Option String) (host : Host env)
      → Registered env host
      → Registered env (set_client_name env client_id name host)
  unfolding set_client_name
  set_client_name-Registered client_id name host h =
      elim (Option-cases (lookup client_id host.guests)) [
        | inl e ↦ rw (e, set_client_name) h
        | inr (r, e) ↦
            let r' : GuestRecord = record r { client_name = name } in
            let named = λ (i : ℕ). writer-put client_id r' host.guests i in
            let old : writer_in host.guests client_id ≡ some r.write_half = rw e refl in
            rw (e, set_client_name)
              (renamed host.guests (put client_id r' host.guests)
                (λ i. ground (arith, named i, old))
                (put-IsMap client_id r' host.guests h.guests_map) h)
      ]
