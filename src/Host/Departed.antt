-- ===== src/Host/Departed.antt =====
-- A guest that is gone.
use dots_rust.Prelude.{
  ℕ, ◌≡◌, ap, ◌∙◌, String, true, false, not, none, List, [], ◌∷◌, if◌then◌else◌, arith, Bool-cases,
  inl, inr, ◌==◌, ==_refl,
}
use dots_rust.Prelude.Assoc.{
  lookup, keep, map_values, map_option, nat_key, string_key, pair_key, Every, lookup-erase,
  keep-Every, Every-mono,
}
use dots_rust.Host.Types.{Env, Host, Group, FilteredSub, GuestRecord}
use dots_rust.Host.Groups.{group_is_empty, without_client, drop_guest, writer_for}
use dots_rust.Host.Removal.{remove_guest, fire_transition, guest_stats, cleanup_entries_for_guest}

-- The group has nothing of the client.
pub record IsWithout (i : ℕ) (g : Group) : Type 0 where
  pub no_member : lookup i g.unfiltered_subs ≡ none
  pub no_subs : Every (λ (k : ℕ × ℕ) (s : FilteredSub). (k.0 == i) ≡ false) g.filtered_subs

Every-true :
    (subs : List ((ℕ × ℕ) × FilteredSub)) → Every (λ (k : ℕ × ℕ) (s : FilteredSub). Unit {0}) subs
Every-true [] = tt
Every-true ((k, s) ∷ subs) = (tt, Every-true subs)

without_client-IsWithout : (i : ℕ) (g : Group) → IsWithout i (without_client i g)
unfolding without_client
without_client-IsWithout i g = record {
  no_member =
      lookup-erase i i g.unfiltered_subs
      ∙ ap (λ b. if b then none else lookup i g.unfiltered_subs) (==_refl i);
  no_subs =
      Every-mono (λ (k : ℕ × ℕ) (s : FilteredSub). Unit {0} × (not (k.0 == i) ≡ true))
        (λ (k : ℕ × ℕ) (s : FilteredSub). (k.0 == i) ≡ false)
        (keep (λ (k : ℕ × ℕ) s. not (k.0 == i)) g.filtered_subs) (λ k s h. ground (arith, h.1))
        (keep-Every (λ (k : ℕ × ℕ) (s : FilteredSub). Unit {0}) (λ (k : ℕ × ℕ) s. not (k.0 == i))
          g.filtered_subs (Every-true g.filtered_subs));
}

dropped-IsWithout :
    (i : ℕ) (groups : List (String × Group))
    → Every
        (λ name g. IsWithout i g)
        (keep (λ name g. not (group_is_empty g)) (map_values (without_client i) groups))
unfolding keep map_values
dropped-IsWithout i [] = tt
dropped-IsWithout i ((name, g) ∷ groups) = elim (Bool-cases (group_is_empty (without_client i g))) [
  | inl empty ↦ rw empty (dropped-IsWithout i groups)
  | inr used ↦ rw used (without_client-IsWithout i g, dropped-IsWithout i groups)
]

module _ (env : Env) where
  drop_guest-gone :
      (i : ℕ) (host : Host env)
      → (writer_for env i (drop_guest env i host) ≡ none)
        × Every (λ name g. IsWithout i g) (drop_guest env i host).groups
  unfolding drop_guest writer_for
  drop_guest-gone i host = (
    ap (map_option (λ (r : GuestRecord). r.write_half)) (
        lookup-erase i i host.guests
        ∙ ap (λ b. if b then none else lookup i host.guests) (==_refl i)),
    dropped-IsWithout i host.groups,
  )

  -- Whatever the broker held of a guest, after its removal it is no guest, and no group has it as a
  -- member or holds one of its filtered subscriptions.
  pub remove_guest-gone :
      (i now : ℕ) (host : Host env)
      → (writer_for env i (remove_guest env i now host) ≡ none)
        × Every (λ name g. IsWithout i g) (remove_guest env i now host).groups
  unfolding remove_guest fire_transition writer_for
  remove_guest-gone i now host =
      drop_guest-gone i (guest_stats env i (cleanup_entries_for_guest env i now host)).1
